-- ===== src/Base/Sums.antt =====
-- Sums of numbers over lists: additive, and free to change the order of summation.
use mathlib.Core.List.{Perm, Permᴰ}
use mathlib.Core.Logic.{∥∥₁_elim}
use native.Mathlib.Nat.{ℕ_set}
use sanmitra_backend.Base.{
  ℕ, ◌+◌, ◌≡◌, refl, ap, ◌∙◌, Bool, List, [], ◌∷◌, ◌++◌, arith, if◌then◌else◌, keep, All,
}

-- `n` if the test holds, and nothing otherwise.
abbrev pub when : Bool → ℕ → ℕ
when b n = if b then n else 0

module _ {ℓ} {A : Type ℓ} where
  abbrev pub sum_of : (A → ℕ) → List A → ℕ
  sum_of f [] = 0
  sum_of f (x ∷ xs) = f x + sum_of f xs

  pub sum_of-append : (f : A → ℕ) (xs ys : List A) → sum_of f (xs ++ ys) ≡ sum_of f xs + sum_of f ys
  sum_of-append f [] ys = omega arith
  sum_of-append f (x ∷ xs) ys = omega (arith, sum_of-append f xs ys)

  pub sum_of-add :
      (f g : A → ℕ) (xs : List A) → sum_of (λ x. f x + g x) xs ≡ sum_of f xs + sum_of g xs
  sum_of-add f g [] = omega arith
  sum_of-add f g (x ∷ xs) = omega (arith, sum_of-add f g xs)

  pub sum_of-zero : (xs : List A) → sum_of (λ x. 0) xs ≡ 0
  sum_of-zero [] = refl
  sum_of-zero (x ∷ xs) = omega (arith, sum_of-zero xs)

  pub sum_of-keep :
      (p : A → Bool) (f : A → ℕ) (xs : List A)
      → sum_of f (keep p xs) ≡ sum_of (λ x. when (p x) (f x)) xs
  sum_of-keep p f [] = refl
  sum_of-keep p f (x ∷ xs) = ground (arith, sum_of-keep p f xs)

  pub sum_of-eq_on :
      (f g : A → ℕ) (xs : List A) → All (λ x. f x ≡ g x) xs → sum_of f xs ≡ sum_of g xs
  sum_of-eq_on f g [] h = refl
  sum_of-eq_on f g (x ∷ xs) (p, h) = omega (arith, sum_of-eq_on f g xs h)

  sum_of-permᴰ : (f : A → ℕ) {xs ys : List A} → Permᴰ xs ys → sum_of f xs ≡ sum_of f ys
  sum_of-permᴰ f Permᴰ.nil = refl
  sum_of-permᴰ f (Permᴰ.cons p h) = omega (arith, ap f p, sum_of-permᴰ f h)
  sum_of-permᴰ f (Permᴰ.swap p q) = omega (arith, ap f p, ap f q)
  sum_of-permᴰ f (Permᴰ.trans h k) = sum_of-permᴰ f h ∙ sum_of-permᴰ f k

  -- A sum does not depend on the order of the items.
  pub sum_of-perm : (f : A → ℕ) {xs ys : List A} → Perm xs ys → sum_of f xs ≡ sum_of f ys
  sum_of-perm f h = ∥∥₁_elim h (ℕ_set _ _) (λ p. sum_of-permᴰ f p)

module _ {ℓ κ} {A : Type ℓ} {B : Type κ} where
  -- Summation by rows or by columns.
  pub sum_of-swap :
      (f : A → B → ℕ) (xs : List A) (ys : List B)
      → sum_of (λ x. sum_of (f x) ys) xs ≡ sum_of (λ y. sum_of (λ x. f x y) xs) ys
  sum_of-swap f [] ys = omega (arith, sum_of-zero ys)
  sum_of-swap f (x ∷ xs) ys =
      omega (arith, sum_of-swap f xs ys, sum_of-add (f x) (λ y. sum_of (λ z. f z y) xs) ys)
