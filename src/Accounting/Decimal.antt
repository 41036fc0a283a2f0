-- ===== src/Accounting/Decimal.antt =====
-- Amounts of money: `Decimal` inputs and `_q` of app/accounting/service.py.
use sanmitra_backend.Base.{ℕ, ◌+◌, ◌*◌, ◌/◌, ◌^◌, Option, none, some, ltb, if◌then◌else◌, ok, err}
use sanmitra_backend.Base.Int.{ℤ, pos, negsuc, pos_part, neg_part}
use sanmitra_backend.Accounting.Errors.{Outcome, invalid_operation}

-- A finite `Decimal` of any sign: `coefficient / 10 ^ places`.
pub record Decimal : Type 0 where
  pub coefficient : ℤ
  pub places : ℕ

-- A `Decimal` that is not negative.
pub record Amount : Type 0 where
  pub units : ℕ
  pub places : ℕ

-- `validate_non_negative` of the request models.
pub validate_non_negative : Decimal → Option Amount
validate_non_negative d = elim d.coefficient [
  | pos n ↦ some (record { units = n; places = d.places })
  | negsuc n ↦ none
]

-- Hundredths, rounded half up.
pub round_half_up : Amount → ℕ
round_half_up a = (200 * a.units + 10 ^ a.places) / (2 * 10 ^ a.places)

-- `quantize` raises where the result has more than the 28 digits of the default context.
abbrev pub precision_limit : ℕ
precision_limit = 10 ^ 28

-- `_q` of an amount, in hundredths.
unfoldable pub quantize : Amount → Outcome ℕ
unfolding round_half_up
quantize a =
    if ltb (round_half_up a) precision_limit then ok (round_half_up a) else err invalid_operation

-- `_q` of a sum of hundredths that are not negative.
unfoldable pub quantize_cents : ℕ → Outcome ℕ
quantize_cents n = if ltb n precision_limit then ok n else err invalid_operation

-- `_q` of a difference of hundredths.
unfoldable pub quantize_signed : ℤ → Outcome ℤ
quantize_signed z =
    if ltb (pos_part z + neg_part z) precision_limit then ok z else err invalid_operation
