-- ===== src/Auth/Otp/Guard.antt =====
-- A document's failures, and writes that keep within them.
use sanmitra_backend.Base.{
  ℕ, ◌+◌, ◌≡◌, refl, sym, subst, Bool, true, false, not, ◌&&◌, ◌||◌, Option, none, some, List, [],
  ◌∷◌, map, ltb, leb, nat_beq, all, keep, if◌then◌else◌, arith, Bool-cases, inl, inr,
}
use sanmitra_backend.Base.Equality.{contains, nat_eq, string_eq}
use sanmitra_backend.Accounting.Table.{update_row}
use sanmitra_backend.Accounting.Table.Laws.{ids-update_row}
use sanmitra_backend.Accounting.Journal.Invariant.{Distinct}
use sanmitra_backend.Auth.Otp.{Otp, expire, count_failure, verify}

-- A document has not more failures than it may have, and is used up when it has them all.
abbrev pub guarded : Otp → Bool
guarded x =
    ltb 0 x.max_attempts
    && (x.consumed && leb x.attempts x.max_attempts || ltb x.attempts x.max_attempts)

pub record Sound (rows : List Otp) : Type 0 where
  pub ids : Distinct (map (λ x. x.id) rows)
  pub bounded : all guarded rows ≡ true

-- Rows that agree in what the guard looks at.
abbrev pub agree : Otp → Otp → Bool
agree x y =
    nat_beq x.attempts y.attempts
    && nat_beq x.max_attempts y.max_attempts
    && (x.consumed && y.consumed || not x.consumed && not y.consumed)

-- Rows with the id of `x` agree with it.
abbrev pub determines : List Otp → Otp → Bool
determines rows x = all (λ r. not (nat_beq r.id x.id) || agree r x) rows

agree_self : (x : Otp) → agree x x ≡ true
agree_self x = ground arith

no_such_id :
    (x : Otp) (rows : List Otp)
    → contains (map (λ r. r.id) rows) x.id ≡ false
    → determines rows x ≡ true
no_such_id x [] h = refl
no_such_id x (r ∷ rows) h = ground (arith, no_such_id x rows)

all-cons :
    (r : Otp) (rows ys : List Otp)
    → contains (map (λ x. x.id) ys) r.id ≡ false
    → all (determines rows) ys ≡ true
    → all (determines (r ∷ rows)) ys ≡ true
all-cons r rows [] h g = refl
all-cons r rows (y ∷ ys) h g = ground (arith, all-cons r rows ys)

pub all-determines :
    (rows : List Otp) → Distinct (map (λ x. x.id) rows) → all (determines rows) rows ≡ true
all-determines [] d = refl
all-determines (r ∷ rows) (new, d) =
    ground
      (arith, agree_self r, no_such_id r rows new, all-cons r rows rows new (all-determines rows d))

pub all-keep : (p q : Otp → Bool) (rows : List Otp) → all p rows ≡ true → all p (keep q rows) ≡ true
all-keep p q [] h = refl
all-keep p q (x ∷ rows) h = ground (arith, all-keep p q rows)

pub all-kept : (q : Otp → Bool) (rows : List Otp) → all q (keep q rows) ≡ true
all-kept q [] = refl
all-kept q (x ∷ rows) = elim (Bool-cases (q x)) [
  | inl good ↦ rw (good, good) (all-kept q rows)
  | inr bad ↦ rw bad (all-kept q rows)
]

-- A write to the rows with the id of `x` that the guard survives.
module _ (x : Otp) (set : Otp → Otp)
    (safe : (r : Otp) → agree r x ≡ true → guarded r ≡ true → guarded (set r) ≡ true) where
  write_safe :
      (r : Otp)
      → not (nat_beq r.id x.id) || agree r x ≡ true
      → guarded r ≡ true
      → guarded (if nat_beq r.id x.id then set r else r) ≡ true
  write_safe r h g = elim (Bool-cases (nat_beq r.id x.id)) [
    | inl hit ↦ rw hit (safe r (ground arith) g)
    | inr miss ↦ rw miss g
  ]

  all-update_row :
      (rows : List Otp)
      → determines rows x ≡ true
      → all guarded rows ≡ true
      → all guarded (update_row (λ r. r.id) x.id set rows) ≡ true
  unfolding update_row
  all-update_row [] h g = refl
  all-update_row (r ∷ rows) h g =
      rw (write_safe r (ground arith) (ground arith))
        (all-update_row rows (ground arith) (ground arith))

  pub Sound-update_row :
      ((r : Otp) → (set r).id ≡ r.id)
      → (rows : List Otp) → determines rows x ≡ true
      → Sound rows
      → Sound (update_row (λ r. r.id) x.id set rows)
  Sound-update_row keeps rows h s = record {
    ids = subst Distinct (sym (ids-update_row (λ r. r.id) x.id set keeps rows)) s.ids;
    bounded = all-update_row rows h s.bounded;
  }

pub expire-safe :
    (wall : ℕ) (x r : Otp) → agree r x ≡ true → guarded r ≡ true → guarded (expire wall r) ≡ true
expire-safe wall x r h g = ground arith

pub verify-safe :
    (wall : ℕ) (x r : Otp) → agree r x ≡ true → guarded r ≡ true → guarded (verify wall r) ≡ true
verify-safe wall x r h g = ground arith

pub counted :
    (wall attempts max_attempts : ℕ) (r : Otp)
    → r.attempts ≡ attempts
    → r.max_attempts ≡ max_attempts
    → ltb r.attempts r.max_attempts ≡ true
    → r.consumed ≡ false
    → guarded (count_failure wall (attempts + 1) max_attempts r) ≡ true
counted wall attempts max_attempts r h k below live =
    elim (Bool-cases (leb max_attempts (attempts + 1))) [
      | inl last ↦ rw last (ground arith)
      | inr more ↦ rw more (ground arith)
    ]

pub count_failure-id :
    (wall attempts max_attempts : ℕ) (r : Otp)
    → (count_failure wall attempts max_attempts r).id ≡ r.id
count_failure-id wall attempts max_attempts r = elim (Bool-cases (leb max_attempts attempts)) [
  | inl last ↦ rw last refl
  | inr more ↦ rw more refl
]

-- The documents, or none where no server is configured.
abbrev pub SoundState : Option (List Otp) → Type 0
SoundState none = Unit
SoundState (some rows) = Sound rows
