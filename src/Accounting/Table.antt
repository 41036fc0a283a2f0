-- ===== src/Accounting/Table.antt =====
-- Tables with a primary key, as the services of app/accounting use them through SQLAlchemy: the
-- row that a dictionary keeps for a key, and a row saved under its primary key.
pub mod Laws
pub mod Unique
use sanmitra_backend.Base.{
  ℕ, Bool, true, false, Option, none, some, List, [], ◌∷◌, nat_beq, if◌then◌else◌,
}

module _ {A : Type 0} where
  abbrev pub or_first : Option A → Option A → Option A
  or_first none b = b
  or_first (some a) b = some a

  -- The row that stays in a dictionary filled from the rows in order: the last one that matches.
  unfoldable pub find_last : (A → Bool) → List A → Option A
  find_last p [] = none
  find_last p (x ∷ xs) = or_first (find_last p xs) (if p x then some x else none)

  -- `UPDATE … WHERE id = k`
  unfoldable pub update_row : (A → ℕ) → ℕ → (A → A) → List A → List A
  update_row id k set [] = []
  update_row id k set (x ∷ xs) = (if nat_beq (id x) k then set x else x) ∷ update_row id k set xs
