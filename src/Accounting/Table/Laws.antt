-- ===== src/Accounting/Table/Laws.antt =====
-- Reads of a table after a write.
use sanmitra_backend.Base.{
  ℕ, ◌≡◌, refl, sym, subst, ap, ◌∙◌, Bool, true, false, Option, none, some, List, [], ◌∷◌, ◌++◌,
  map, nat_beq, if◌then◌else◌, any, keep, All, ◌≢◌, arith, Bool-cases, Option-cases, inl, inr,
}
use sanmitra_backend.Base.Equality.{contains, nat_eq}
use sanmitra_backend.Accounting.Journal.Invariant.{Distinct}
use sanmitra_backend.Accounting.Table.{find_last, update_row}

module _ {A : Type 0} where
  abbrev pub change : (A → A) → Option A → Option A
  change g none = none
  change g (some x) = some (g x)

  -- An inserted row is found first.
  pub find_last-append_one :
      (p : A → Bool) (xs : List A) (x : A)
      → find_last p (xs ++ x ∷ []) ≡ (if p x then some x else find_last p xs)
  unfolding find_last
  find_last-append_one p [] x = ground arith
  find_last-append_one p (y ∷ xs) x = ground (arith, find_last-append_one p xs x)

  pub find_last-none : (p : A → Bool) (xs : List A) → find_last p xs ≡ none → any p xs ≡ false
  unfolding find_last
  find_last-none p [] h = refl
  find_last-none p (y ∷ xs) h = ground (arith, find_last-none p xs)

  pub find_last-holds : (p : A → Bool) (xs : List A) (x : A) → find_last p xs ≡ some x → p x ≡ true
  unfolding find_last
  find_last-holds p [] x h = cc
  find_last-holds p (y ∷ xs) x h = ground (arith, find_last-holds p xs x)

  head_found :
      (p : A → Bool) (y : A) (xs : List A) (x : A)
      → find_last p xs ≡ none
      → find_last p (y ∷ xs) ≡ some x
      → y ≡ x
  unfolding find_last
  head_found p y xs x missing h = ground arith

  tail_found :
      (p : A → Bool) (y : A) (xs : List A) (x z : A)
      → find_last p xs ≡ some z
      → find_last p (y ∷ xs) ≡ some x
      → z ≡ x
  unfolding find_last
  tail_found p y xs x z found h = ground arith

  -- What holds of the row that was found.
  pub found_any :
      (p q : A → Bool) (xs : List A) (x : A)
      → find_last p xs ≡ some x
      → q x ≡ true
      → any q xs ≡ true
  unfolding find_last
  found_any p q [] x h g = cc
  found_any p q (y ∷ xs) x h g = elim (Option-cases (find_last p xs)) [
    | inl missing ↦ ground (arith, ap q (head_found p y xs x missing h))
    | inr (z, after) ↦
        ground (arith, found_any p q xs z after, ap q (tail_found p y xs x z after h))
  ]

  pub update_row_absent :
      (id : A → ℕ) (k : ℕ) (set : A → A) (xs : List A)
      → contains (map id xs) k ≡ false
      → update_row id k set xs ≡ xs
  unfolding update_row
  update_row_absent id k set [] h = refl
  update_row_absent id k set (x ∷ xs) h = ground (arith, update_row_absent id k set xs)

  module _ (id : A → ℕ) (k : ℕ) (set : A → A) where
    abbrev write : A → A
    write x = if nat_beq (id x) k then set x else x

    -- A write that does not change what the search looks at.
    pub find_last-update_row :
        (p : A → Bool)
        → ((x : A) → p (set x) ≡ p x)
        → (xs : List A) → find_last p (update_row id k set xs) ≡ change write (find_last p xs)
    unfolding find_last update_row
    find_last-update_row p keeps [] = refl
    find_last-update_row p keeps (x ∷ xs) = ground (arith, keeps x, find_last-update_row p keeps xs)

    pub ids-update_row :
        ((x : A) → id (set x) ≡ id x) → (xs : List A) → map id (update_row id k set xs) ≡ map id xs
    unfolding update_row
    ids-update_row keeps [] = refl
    ids-update_row keeps (x ∷ xs) = ground (arith, keeps x, ids-update_row keeps xs)

  module _ (id : A → ℕ) where
    pub found_listed :
        (p : A → Bool) (xs : List A) (x : A)
        → find_last p xs ≡ some x
        → contains (map id xs) (id x) ≡ true
    unfolding find_last
    found_listed p [] x h = cc
    found_listed p (y ∷ xs) x h = elim (Option-cases (find_last p xs)) [
      | inl missing ↦ ground (arith, ap id (head_found p y xs x missing h))
      | inr (z, after) ↦
          ground (arith, found_listed p xs z after, ap id (tail_found p y xs x z after h))
    ]

    -- Where primary keys are distinct, two searches that end at one key end at one row.
    pub same_row :
        (p q : A → Bool) (xs : List A) (x y : A)
        → Distinct (map id xs)
        → find_last p xs ≡ some x
        → find_last q xs ≡ some y
        → id x ≡ id y
        → x ≡ y
    same_row p q [] x y d h g e = cc (found_listed p [] x h)
    same_row p q (w ∷ xs) x y (fresh, d) h g e = elim (Option-cases (find_last p xs)) [
      | inl no_x ↦ elim (Option-cases (find_last q xs)) [
        | inl no_y ↦ sym (head_found p w xs x no_x h) ∙ head_found q w xs y no_y g
        | inr (b, at_b) ↦ absurd (
            ground (
              arith,
              found_listed q xs b at_b,
              ap id (tail_found q w xs y b at_b g),
              ap id (head_found p w xs x no_x h),
              λ (s : id b ≡ id w). ap (contains (map id xs)) s,
            ))
      ]
      | inr (a, at_a) ↦ elim (Option-cases (find_last q xs)) [
        | inl no_y ↦ absurd (
            ground (
              arith,
              found_listed p xs a at_a,
              ap id (tail_found p w xs x a at_a h),
              ap id (head_found q w xs y no_y g),
              λ (s : id a ≡ id w). ap (contains (map id xs)) s,
            ))
        | inr (b, at_b) ↦
            same_row p q xs x y d (at_a ∙ ap some (tail_found p w xs x a at_a h))
              (at_b ∙ ap some (tail_found q w xs y b at_b g)) e
      ]
    ]

    module _ (p : A → Bool) (set : A → A) (xs : List A) (x : A) (d : Distinct (map id xs))
        (found : find_last p xs ≡ some x) where
      -- The row that was written is read back.
      pub update_row_self :
          ((y : A) → p (set y) ≡ p y) → find_last p (update_row id (id x) set xs) ≡ some (set x)
      update_row_self keeps =
          find_last-update_row id (id x) set p keeps xs
          ∙ ap (change (write id (id x) set)) found
          ∙ ground arith

      -- A search that cannot end at this row finds what it found before.
      pub update_row_other :
          (q : A → Bool)
          → ((y : A) → q (set y) ≡ q y)
          → ((y : A) → p y ≡ true → q y ≡ false)
          → find_last q (update_row id (id x) set xs) ≡ find_last q xs
      update_row_other q keeps apart = elim (Option-cases (find_last q xs)) [
        | inl missing ↦ find_last-update_row id (id x) set q keeps xs ∙ rw missing refl
        | inr (y, at_y) ↦
            find_last-update_row id (id x) set q keeps xs
            ∙ rw at_y (
                ground (
                  arith,
                  λ (e : id x ≡ id y). same_row p q xs x y d found at_y e,
                  apart x (find_last-holds p xs x found),
                  find_last-holds q xs y at_y,
                  λ (e : x ≡ y). ap q e,
                ))
      ]

    -- A write keeps a property of all rows that the written row has.
    pub All-update_row {ℓ} :
        (P : A → Type ℓ) (p : A → Bool) (set : A → A) (xs : List A) (x : A)
        → Distinct (map id xs)
        → find_last p xs ≡ some x
        → P (set x)
        → All P xs
        → All P (update_row id (id x) set xs)
    unfolding update_row
    All-update_row P p set [] x d h g a = tt
    All-update_row P p set (y ∷ xs) x (fresh, d) h g (b, a) = elim (Option-cases (find_last p xs)) [
      | inl missing ↦
          let same = head_found p y xs x missing h in
          let k : id y ≡ id x = ap id same in
          (
            subst P (sym (written y x k)) (subst (λ z. P (set z)) (sym same) g),
            rw (update_row_absent id (id x) set xs (rw (← k) fresh)) a,
          )
      | inr (z, after) ↦
          let at_x = after ∙ ap some (tail_found p y xs x z after h) in
          let listed = found_listed p xs x at_x in
          (
            subst P (sym (unwritten y x (λ k. cc (fresh, listed, ap (contains (map id xs)) k)))) b,
            All-update_row P p set xs x d at_x g a,
          )
    ]
      where
        written : (y x : A) → id y ≡ id x → (if nat_beq (id y) (id x) then set y else y) ≡ set y
        written y x k = ground arith

        unwritten : (y x : A) → id y ≢ id x → (if nat_beq (id y) (id x) then set y else y) ≡ y
        unwritten y x k = ground arith

-- Some rows of a table with a primary key.
module _ {A : Type 0} (id : A → ℕ) (q : A → Bool) where
  contains-keep :
      (i : ℕ) (rows : List A)
      → contains (map id rows) i ≡ false
      → contains (map id (keep q rows)) i ≡ false
  contains-keep i [] h = refl
  contains-keep i (r ∷ rows) h = elim (Bool-cases (q r)) [
    | inl good ↦ rw good (ground (arith, contains-keep i rows))
    | inr bad ↦ rw bad (contains-keep i rows (ground arith))
  ]

  pub Distinct-keep : (rows : List A) → Distinct (map id rows) → Distinct (map id (keep q rows))
  Distinct-keep [] d = tt
  Distinct-keep (r ∷ rows) (new, d) = elim (Bool-cases (q r)) [
    | inl good ↦ rw good (contains-keep (id r) rows new, Distinct-keep rows d)
    | inr bad ↦ rw bad (Distinct-keep rows d)
  ]
