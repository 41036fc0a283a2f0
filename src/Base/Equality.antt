-- ===== src/Base/Equality.antt =====
-- `==` as an interface, for keys of several types.
use text.Mathlib.Text.{◌==◌ as str_eq}
use text.Mathlib.TextEquality.{eq_iff}
use sanmitra_backend.Base.{
  ℕ, String, ◌≡◌, refl, ◌↔◌, Bool, true, false, List, [], ◌∷◌, nat_beq, nat_beq_iff, if◌then◌else◌,
}

pub record Eq {ℓ} (K : Type ℓ) : Type ℓ where
  pub equal : K → K → Bool
  pub equal_iff : (x y : K) → (equal x y ≡ true) ↔ (x ≡ y)

instance abbrev pub string_eq : Eq String
string_eq = record { equal = str_eq; equal_iff = eq_iff }

instance abbrev pub nat_eq : Eq ℕ
nat_eq = record { equal = nat_beq; equal_iff = nat_beq_iff }

infix 50 ◌==◌
abbrev pub ◌==◌ {ℓ} : {K : Type ℓ} ⦃e : Eq K⦄ → K → K → Bool
◌==◌ ⦃e⦄ x y = e.equal x y

module _ {ℓ} {A : Type ℓ} ⦃e : Eq A⦄ where
  pub equal_self : (a : A) → (a == a) ≡ true
  equal_self a = (e.equal_iff a a).1 refl

  -- `a in xs`
  abbrev pub contains : List A → A → Bool
  contains [] a = false
  contains (x ∷ xs) a = if a == x then true else contains xs a

  -- `xs.add(a)` on a set, kept as a list with no repetition
  abbrev pub add : List A → A → List A
  add xs a = if contains xs a then xs else a ∷ xs
