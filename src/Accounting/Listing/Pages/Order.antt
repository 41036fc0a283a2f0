-- ===== src/Accounting/Listing/Pages/Order.antt =====
-- The order of the journal: strict, and of the same entries.
use mathlib.Core.List.{Perm}
use mathlib.Core.List.Perm
use sanmitra_backend.Base.{
  ℕ, suc, ◌≡◌, ◌<◌, ◌⊎◌, refl, true, false, List, [], ◌∷◌, map, All, All-weaken, nat_beq, length,
  arith, Bool-cases, inl, inr,
}
use sanmitra_backend.Base.Equality.{contains, nat_eq}
use sanmitra_backend.Accounting.Entities.{JournalEntry}
use sanmitra_backend.Accounting.Journal.Invariant.{Distinct}
use sanmitra_backend.Accounting.Listing.{before, insert_ordered, order_by_recent}

-- The later day comes first, and on a day the higher primary key.
abbrev pub IsLater : JournalEntry → JournalEntry → Type 0
IsLater a b = (b.entry_date < a.entry_date) ⊎ ((b.entry_date ≡ a.entry_date) × (b.id < a.id))

-- Each entry is later than all that follow, so no entry comes twice.
abbrev pub Falls : List JournalEntry → Type 0
Falls [] = Unit
Falls (e ∷ es) = All (IsLater e) es × Falls es

IsLater-trans : (a b c : JournalEntry) → IsLater a b → IsLater b c → IsLater a c
IsLater-trans a b c h k = ground arith

before-IsLater : (a b : JournalEntry) → before a b ≡ true → IsLater a b
before-IsLater a b h = ground arith

not_before : (a b : JournalEntry) → nat_beq a.id b.id ≡ false → before a b ≡ false → IsLater b a
not_before a b h k = ground arith

module _ (P : JournalEntry → Type 0) where
  insert_ordered-All :
      (e : JournalEntry) (es : List JournalEntry) → P e → All P es → All P (insert_ordered e es)
  insert_ordered-All e [] p h = (p, tt)
  insert_ordered-All e (x ∷ es) p (q, h) = elim (Bool-cases (before e x)) [
    | inl first ↦ rw first (p, (q, h))
    | inr later ↦ rw later (q, insert_ordered-All e es p h)
  ]

insert_ordered-contains :
    (e : JournalEntry) (es : List JournalEntry) (i : ℕ)
    → contains (map (λ x. x.id) (insert_ordered e es)) i ≡ contains (map (λ x. x.id) (e ∷ es)) i
insert_ordered-contains e [] i = refl
insert_ordered-contains e (x ∷ es) i = elim (Bool-cases (before e x)) [
  | inl first ↦ rw first refl
  | inr later ↦ rw later (ground (arith, insert_ordered-contains e es i))
]

pub order_by_recent-contains :
    (es : List JournalEntry) (i : ℕ)
    → contains (map (λ x. x.id) (order_by_recent es)) i ≡ contains (map (λ x. x.id) es) i
order_by_recent-contains [] i = refl
order_by_recent-contains (e ∷ es) i =
    ground (arith, insert_ordered-contains e (order_by_recent es) i, order_by_recent-contains es i)

insert_ordered-length :
    (e : JournalEntry) (es : List JournalEntry) → length (insert_ordered e es) ≡ suc (length es)
insert_ordered-length e [] = refl
insert_ordered-length e (x ∷ es) = elim (Bool-cases (before e x)) [
  | inl first ↦ rw first refl
  | inr later ↦ rw later (omega (arith, insert_ordered-length e es))
]

pub order_by_recent-length : (es : List JournalEntry) → length (order_by_recent es) ≡ length es
order_by_recent-length [] = refl
order_by_recent-length (e ∷ es) =
    omega (arith, insert_ordered-length e (order_by_recent es), order_by_recent-length es)

insert_ordered-Falls :
    (e : JournalEntry) (es : List JournalEntry)
    → contains (map (λ x. x.id) es) e.id ≡ false
    → Falls es
    → Falls (insert_ordered e es)
insert_ordered-Falls e [] new h = (tt, tt)
insert_ordered-Falls e (x ∷ es) new (p, h) = elim (Bool-cases (before e x)) [
  | inl first ↦
      let later = before-IsLater e x first in
      rw first ((later, All-weaken (λ y q. IsLater-trans e x y later q) es p), (p, h))
  | inr after ↦ rw after (
    insert_ordered-All (IsLater x) e es (not_before e x (ground arith) after) p,
    insert_ordered-Falls e es (ground arith) h,
  )
]

pub order_by_recent-Falls :
    (es : List JournalEntry) → Distinct (map (λ x. x.id) es) → Falls (order_by_recent es)
order_by_recent-Falls [] d = tt
order_by_recent-Falls (e ∷ es) (new, d) =
    insert_ordered-Falls e (order_by_recent es)
      (let same = order_by_recent-contains es e.id in rw same new) (order_by_recent-Falls es d)

insert_ordered-perm :
    (e : JournalEntry) (es : List JournalEntry) → Perm (insert_ordered e es) (e ∷ es)
insert_ordered-perm e [] = Perm.refl _
insert_ordered-perm e (x ∷ es) = elim (Bool-cases (before e x)) [
  | inl first ↦ rw first (Perm.refl _)
  | inr later ↦ rw later (Perm.trans (Perm.cons x (insert_ordered-perm e es)) (Perm.swap e x es))
]

pub order_by_recent-perm : (es : List JournalEntry) → Perm (order_by_recent es) es
order_by_recent-perm [] = Perm.refl _
order_by_recent-perm (e ∷ es) =
    Perm.trans (insert_ordered-perm e (order_by_recent es)) (Perm.cons e (order_by_recent-perm es))
