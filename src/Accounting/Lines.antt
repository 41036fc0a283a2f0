-- ===== src/Accounting/Lines.antt =====
-- `validate_journal_lines` and `validate_source_journal_lines` of app/accounting/service.py. The
-- two differ in the type of a line's key (an account id, a stripped source account code) and in
-- the test that a source account code is not empty, which is the parameter `key_given`.
-- A sum of hundredths is kept exact here and tested against the context's 28 digits at the end:
-- Python's running sum is exact below that limit, and stays above it once it has passed it.
pub mod Laws
pub mod Spec
use sanmitra_backend.Base.{
  ℕ, ◌+◌, String, Bool, true, false, not, ◌&&◌, ◌||◌, List, [], ◌∷◌, ◌++◌, map, ok, ◌>>=◌, ◌>>◌,
  raise_if, ltb, nat_beq, if◌then◌else◌, length,
}
use sanmitra_backend.Base.Text.{strip, is_empty}
use sanmitra_backend.Base.Equality.{Eq, add, nat_eq, string_eq}
use sanmitra_backend.Accounting.Errors.{
  Outcome, validation, too_few_lines, missing_code, empty_line, two_sided_line, one_sided_entry,
  single_account, zero_total, unbalanced,
}
use sanmitra_backend.Accounting.Decimal.{Amount, quantize, quantize_cents}

-- A line of a request, after pydantic's validators.
pub record LineIn (K : Type 0) : Type 0 where
  pub key : K
  pub debit : Amount
  pub credit : Amount

-- A line in hundredths.
pub record Line (K : Type 0) : Type 0 where
  pub key : K
  pub debit : ℕ
  pub credit : ℕ

-- The variables of the loop.
pub record Totals (K : Type 0) : Type 0 where
  pub total_debit : ℕ
  pub total_credit : ℕ
  pub debit_lines : ℕ
  pub credit_lines : ℕ
  pub keys : List K
  pub normalized : List (Line K)

module _ {K : Type 0} ⦃e : Eq K⦄ where
  -- The updates at the end of the loop's body.
  abbrev pub tally : Line K → Totals K → Totals K
  tally l t = record {
    total_debit = t.total_debit + l.debit;
    total_credit = t.total_credit + l.credit;
    debit_lines = if ltb 0 l.debit then t.debit_lines + 1 else t.debit_lines;
    credit_lines = if ltb 0 l.credit then t.credit_lines + 1 else t.credit_lines;
    keys = add t.keys l.key;
    normalized = t.normalized ++ l ∷ [];
  }

-- The quantisation and the tests in the loop's body.
pub check_line : {K : Type 0} → (K → Bool) → LineIn K → Outcome (Line K)
check_line key_given line = do
  debit ← quantize line.debit
  credit ← quantize line.credit
  raise_if (not (key_given line.key)) (validation missing_code)
  raise_if (nat_beq debit 0 && nat_beq credit 0) (validation empty_line)
  raise_if (ltb 0 debit && ltb 0 credit) (validation two_sided_line)
  ok (record { key = line.key; debit = debit; credit = credit })

-- The tests after the loop.
pub check_totals : {K : Type 0} → Totals K → Outcome (ℕ × ℕ × List (Line K))
check_totals t = do
  total_debit ← quantize_cents t.total_debit
  total_credit ← quantize_cents t.total_credit
  raise_if (nat_beq t.debit_lines 0 || nat_beq t.credit_lines 0) (validation one_sided_entry)
  raise_if (ltb (length t.keys) 2) (validation single_account)
  raise_if (not (ltb 0 total_debit) || not (ltb 0 total_credit)) (validation zero_total)
  raise_if (not (nat_beq total_debit total_credit)) (validation unbalanced)
  ok (total_debit, total_credit, t.normalized)

abbrev pub no_totals : {K : Type 0} → Totals K
no_totals = record {
  total_debit = 0;
  total_credit = 0;
  debit_lines = 0;
  credit_lines = 0;
  keys = [];
  normalized = [];
}

module _ {K : Type 0} ⦃e : Eq K⦄ (key_given : K → Bool) where
  pub scan : List (LineIn K) → Totals K → Outcome (Totals K)
  scan [] t = ok t
  scan (line ∷ lines) t = do l ← check_line key_given line; scan lines (tally l t)

  unfoldable pub validate_lines : List (LineIn K) → Outcome (ℕ × ℕ × List (Line K))
  unfolding scan check_line check_totals
  validate_lines lines = do
    raise_if (ltb (length lines) 2) (validation too_few_lines)
    t ← scan lines no_totals
    check_totals t

unfoldable pub validate_journal_lines : List (LineIn ℕ) → Outcome (ℕ × ℕ × List (Line ℕ))
unfolding validate_lines
validate_journal_lines = validate_lines (λ _. true)

-- `line.source_account_code.strip()`
abbrev pub strip_key : LineIn String → LineIn String
strip_key l = record l { key = strip l.key }

unfoldable pub validate_source_journal_lines :
    List (LineIn String) → Outcome (ℕ × ℕ × List (Line String))
unfolding validate_lines
validate_source_journal_lines lines =
    validate_lines (λ code. not (is_empty code)) (map strip_key lines)
