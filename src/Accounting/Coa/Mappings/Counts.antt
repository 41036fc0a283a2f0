-- ===== src/Accounting/Coa/Mappings/Counts.antt =====
-- The counts of the mapping's progress add up.
use sanmitra_backend.Base.{
  ℕ, suc, ◌+◌, ◌≤◌, ◌≡◌, refl, true, false, not, ◌&&◌, List, [], ◌∷◌, ◌++◌, map, keep, All, length,
  length-append, length-map, nat_beq, if◌then◌else◌, arith, Bool-cases, inl, inr,
}
use sanmitra_backend.Base.Equality.{◌==◌, contains, nat_eq}
use sanmitra_backend.Accounting.Entities.{
  Scope, scope_eq, SourceSystem, CoaMapping, MappingStatus, active, draft, Tables,
}
use sanmitra_backend.Accounting.Journal.Invariant.{Distinct}
use sanmitra_backend.Accounting.Coa.Systems.{status_eq}
use sanmitra_backend.Accounting.Coa.Mappings.{
  in_use, mappings_of, ids_with, get_coa_onboarding_status,
}

-- `xs.discard(x)`, of the first `x` only.
abbrev without : ℕ → List ℕ → List ℕ
without x [] = []
without x (y ∷ ys) = if nat_beq x y then ys else y ∷ without x ys

length-without :
    (x : ℕ) (ys : List ℕ) → contains ys x ≡ true → length ys ≡ suc (length (without x ys))
length-without x [] h = cc
length-without x (y ∷ ys) h = ground (arith, length-without x ys)

contains-without :
    (x z : ℕ) (ys : List ℕ)
    → nat_beq z x ≡ false
    → contains ys z ≡ true
    → contains (without x ys) z ≡ true
contains-without x z [] h k = k
contains-without x z (y ∷ ys) h k = ground (arith, contains-without x z ys)

-- What is in `xs` but `x`, for an `x` that is not in it.
others_stay :
    (x : ℕ) (xs ys : List ℕ)
    → contains xs x ≡ false
    → All (λ z. contains ys z ≡ true) xs
    → All (λ z. contains (without x ys) z ≡ true) xs
others_stay x [] ys h k = tt
others_stay x (z ∷ xs) ys h (p, k) =
    (contains-without x z ys (ground arith) p, others_stay x xs ys (ground arith) k)

-- A set of items of a list has no more items than it.
pub length-le :
    (xs ys : List ℕ) → Distinct xs → All (λ z. contains ys z ≡ true) xs → length xs ≤ length ys
length-le [] ys d h = omega arith
length-le (x ∷ xs) ys (new, d) (p, h) =
    omega (arith, length-without x ys p, length-le xs (without x ys) d (others_stay x xs ys new h))

pub ids_with-Distinct : (s : MappingStatus) (ms : List CoaMapping) → Distinct (ids_with s ms)
ids_with-Distinct s [] = tt
ids_with-Distinct s (m ∷ ms) = elim (Bool-cases (m.status == s)) [
  | inl counts ↦ elim (Bool-cases (contains (ids_with s ms) m.source_account_id)) [
    | inl old ↦ rw (counts, old) (ids_with-Distinct s ms)
    | inr new ↦ rw (counts, new) (new, ids_with-Distinct s ms)
  ]
  | inr other ↦ rw other (ids_with-Distinct s ms)
]

pub ids_with-within :
    (s : MappingStatus) (ids : List ℕ) (ms : List CoaMapping)
    → All (λ m. contains ids m.source_account_id ≡ true) ms
    → All (λ i. contains ids i ≡ true) (ids_with s ms)
ids_with-within s ids [] h = tt
ids_with-within s ids (m ∷ ms) (p, h) = elim (Bool-cases (m.status == s)) [
  | inl counts ↦ elim (Bool-cases (contains (ids_with s ms) m.source_account_id)) [
    | inl old ↦ rw (counts, old) (ids_with-within s ids ms h)
    | inr new ↦ rw (counts, new) (p, ids_with-within s ids ms h)
  ]
  | inr other ↦ rw other (ids_with-within s ids ms h)
]

module _ (seen : List ℕ) where
  abbrev unseen : List ℕ → List ℕ
  unseen ids = keep (λ i. not (contains seen i)) ids

  contains-unseen :
      (i : ℕ) (ids : List ℕ)
      → contains ids i ≡ false
      → contains seen i ≡ false
      → contains (unseen ids ++ seen) i ≡ false
  contains-unseen i [] h k = k
  contains-unseen i (j ∷ ids) h k = elim (Bool-cases (contains seen j)) [
    | inl old ↦ rw old (contains-unseen i ids (ground arith) k)
    | inr new ↦ rw new (ground (arith, contains-unseen i ids))
  ]

  Distinct-unseen : (ids : List ℕ) → Distinct ids → Distinct seen → Distinct (unseen ids ++ seen)
  Distinct-unseen [] d e = e
  Distinct-unseen (i ∷ ids) (new, d) e = elim (Bool-cases (contains seen i)) [
    | inl old ↦ rw old (Distinct-unseen ids d e)
    | inr there ↦ rw there (contains-unseen i ids new there, Distinct-unseen ids d e)
  ]

  All-unseen : (P : ℕ → Type 0) (ids : List ℕ) → All P ids → All P seen → All P (unseen ids ++ seen)
  All-unseen P [] h k = k
  All-unseen P (i ∷ ids) (p, h) k = elim (Bool-cases (contains seen i)) [
    | inl old ↦ rw old (All-unseen P ids h k)
    | inr there ↦ rw there (p, All-unseen P ids h k)
  ]

pub chosen_within :
    (scope : Scope) (ids : List ℕ) (ms : List CoaMapping)
    → All
        (λ m. contains ids m.source_account_id ≡ true)
        (keep (λ m. m.scope == scope && contains ids m.source_account_id) ms)
chosen_within scope ids [] = tt
chosen_within scope ids (m ∷ ms) =
    elim (Bool-cases (m.scope == scope && contains ids m.source_account_id)) [
      | inl both ↦ rw both (ground arith, chosen_within scope ids ms)
      | inr one ↦ rw one (chosen_within scope ids ms)
    ]

-- Whatever the tables hold, the accounts counted as mapped, as drafts and as unmapped by
-- `get_coa_onboarding_status` add up to all source accounts in use; so no account is counted twice
-- and the source's bound at zero is never needed.
pub get_coa_onboarding_status_total :
    (scope : Scope) (system : SourceSystem) (t : Tables)
    → let s = get_coa_onboarding_status scope system t in
      (s.mapped_active + s.mapped_draft ≤ s.total_source_accounts)
      × (s.mapped_active + s.mapped_draft + s.unmapped ≡ s.total_source_accounts)
      × (s.total_source_accounts ≡ length (keep (in_use scope system) t.source_accounts))
unfolding get_coa_onboarding_status
get_coa_onboarding_status_total scope system t =
    let sources = keep (in_use scope system) t.source_accounts in
    let ids = map (λ r. r.id) sources in
    let rows = mappings_of scope sources t in
    let on = ids_with active rows in
    let off = ids_with draft rows in
    let inside = chosen_within scope ids t.mappings in
    let few =
      length-le (unseen on off ++ on) ids
        (Distinct-unseen on off (ids_with-Distinct draft rows) (ids_with-Distinct active rows))
        (All-unseen on _ off (ids_with-within draft ids rows inside)
          (ids_with-within active ids rows inside)) in
    let sum = length-append (unseen on off) on in
    let size = length-map (λ r. r.id) sources in
    (omega (arith, few, sum, size), omega (arith, few, sum, size), refl)
