-- ===== src/Accounting/Table/Unique.antt =====
-- A query by primary key gives at most one row.
use sanmitra_backend.Base.{
  ℕ, ◌≡◌, refl, ap, subst, Bool, true, false, ◌&&◌, some, List, [], ◌∷◌, map, ok, keep, any, All,
  nat_beq, arith, Bool-cases, inl, inr,
}
use sanmitra_backend.Base.Equality.{contains, nat_eq}
use sanmitra_backend.Accounting.Store.{scalar_one_or_none}
use sanmitra_backend.Accounting.Journal.Invariant.{Distinct}

module _ {A : Type 0} (id : A → ℕ) (k : ℕ) (q : A → Bool) where
  abbrev picked : A → Bool
  picked x = nat_beq (id x) k && q x

  keep-absent : (xs : List A) → contains (map id xs) k ≡ false → keep picked xs ≡ []
  keep-absent [] h = refl
  keep-absent (x ∷ xs) h = ground (arith, keep-absent xs)

  pub keep_unique :
      (xs : List A)
      → Distinct (map id xs)
      → any picked xs ≡ true
      → (x : A) × (keep picked xs ≡ x ∷ []) × (id x ≡ k) × (q x ≡ true)
  keep_unique [] d h = cc
  keep_unique (x ∷ xs) (new, d) h = elim (Bool-cases (picked x)) [
    | inl here ↦
        let same : id x ≡ k = ground arith in
        (x, rw (here, keep-absent xs (rw same at new)) refl, same, ground arith)
    | inr there ↦
        let (y, found, same, good) = keep_unique xs d (rw there at h) in
        (y, rw there found, same, good)
  ]

  -- The row that a query by primary key finds.
  pub scalar_one_or_none_unique :
      (xs : List A)
      → Distinct (map id xs)
      → any picked xs ≡ true
      → (x : A) × (scalar_one_or_none (keep picked xs) ≡ ok (some x)) × (id x ≡ k) × (q x ≡ true)
  unfolding scalar_one_or_none
  scalar_one_or_none_unique xs d h =
      let (x, found, same, good) = keep_unique xs d h in
      (x, ap scalar_one_or_none found, same, good)

module _ {A : Type 0} (p : A → Bool) where
  keep-holds : (xs ys : List A) (x : A) → keep p xs ≡ x ∷ ys → p x ≡ true
  keep-holds [] ys x h = cc
  keep-holds (y ∷ xs) ys x h = elim (Bool-cases (p y)) [
    | inl here ↦ let same : y ≡ x = head_same (rw here at h) in subst (λ z. p z ≡ true) same here
    | inr there ↦ keep-holds xs ys x (rw there at h)
  ]
    where
      head_same : {u v : A} {us vs : List A} → u ∷ us ≡ v ∷ vs → u ≡ v
      head_same e = cc

  one_row : (xs : List A) (x : A) → scalar_one_or_none xs ≡ ok (some x) → xs ≡ x ∷ []
  unfolding scalar_one_or_none
  one_row [] x h = cc
  one_row (y ∷ []) x h = cc
  one_row (y ∷ z ∷ xs) x h = cc

  -- What a query finds meets its conditions.
  pub scalar_one_or_none-holds :
      (xs : List A) (x : A) → scalar_one_or_none (keep p xs) ≡ ok (some x) → p x ≡ true
  scalar_one_or_none-holds xs x h = keep-holds xs [] x (one_row (keep p xs) x h)

  keep-All {κ} : (P : A → Type κ) (xs : List A) → All P xs → All P (keep p xs)
  keep-All P [] h = tt
  keep-All P (x ∷ xs) (here, h) = elim (Bool-cases (p x)) [
    | inl kept ↦ rw kept (here, keep-All P xs h)
    | inr dropped ↦ rw dropped (keep-All P xs h)
  ]

  -- It has what all rows have.
  pub scalar_one_or_none-All {κ} :
      (P : A → Type κ) (xs : List A) (x : A)
      → All P xs
      → scalar_one_or_none (keep p xs) ≡ ok (some x)
      → P x
  scalar_one_or_none-All P xs x h e = (subst (All P) (one_row (keep p xs) x e) (keep-All P xs h)).0
