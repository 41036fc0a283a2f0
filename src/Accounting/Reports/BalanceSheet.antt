-- ===== src/Accounting/Reports/BalanceSheet.antt =====
-- `get_balance_sheet`, `_net_balance` and `_net_profit_from_rows` of app/accounting/service.py.
pub mod Loops
pub mod Equation
use sanmitra_backend.Base.{
  ℕ, ◌+◌, String, Bool, not, ◌&&◌, Option, none, some, List, [], ◌∷◌, ◌++◌, ok, ◌>>=◌, nat_beq,
  if◌then◌else◌,
}
use sanmitra_backend.Base.Int.{ℤ, pos, pos_part, neg_part, ◌+ℤ◌, ◌-ℤ◌}
use sanmitra_backend.Accounting.Errors.{Outcome}
use sanmitra_backend.Accounting.Decimal.{quantize_cents, quantize_signed}
use sanmitra_backend.Accounting.Entities.{
  Scope, Account, AccountType, asset, liability, equity, income, expense, Tables,
}
use sanmitra_backend.Accounting.Store.{Database}
use sanmitra_backend.Accounting.Reports.{Row, gl_sums_by_account, difference, as_of_filter}

-- `_net_balance`
unfoldable pub net_balance : AccountType → ℕ → ℕ → Outcome ℤ
net_balance asset debit_total credit_total = difference debit_total credit_total
net_balance expense debit_total credit_total = difference debit_total credit_total
net_balance _ debit_total credit_total = difference credit_total debit_total

-- The tests on the account's type in `_net_profit_from_rows`.
unfoldable pub profit_at : AccountType → ℕ → ℕ → ℤ → ℤ → Outcome (ℤ × ℤ)
profit_at income debit_total credit_total income_total expense_total = do
  net ← difference credit_total debit_total
  ok (income_total +ℤ net, expense_total)
profit_at expense debit_total credit_total income_total expense_total = do
  net ← difference debit_total credit_total
  ok (income_total, expense_total +ℤ net)
profit_at _ debit_total credit_total income_total expense_total = ok (income_total, expense_total)

-- The loop of `_net_profit_from_rows`.
unfoldable pub profit_totals : List Row → ℤ → ℤ → Outcome (ℤ × ℤ)
profit_totals [] income_total expense_total = ok (income_total, expense_total)
profit_totals (r ∷ rows) income_total expense_total = do
  debit_total ← quantize_cents r.debit_total
  credit_total ← quantize_cents r.credit_total
  (i, x) ← profit_at r.account.account_type debit_total credit_total income_total expense_total
  profit_totals rows i x

-- `_net_profit_from_rows`
unfoldable pub net_profit_from_rows : List Row → Outcome ℤ
unfolding profit_totals profit_at
net_profit_from_rows rows = do
  (income_total, expense_total) ← profit_totals rows (pos 0) (pos 0)
  quantize_signed (income_total -ℤ expense_total)

pub record BalanceLine : Type 0 where
  pub account_id : ℕ
  pub account_code : Option String
  pub account_name : String
  pub balance : ℤ

-- The six variables of `get_balance_sheet`.
pub record Sheet : Type 0 where
  pub assets : List BalanceLine
  pub liabilities : List BalanceLine
  pub equity_lines : List BalanceLine
  pub total_assets : ℤ
  pub total_liabilities : ℤ
  pub total_equity : ℤ

abbrev pub line_of : Account → ℤ → BalanceLine
line_of a balance = record {
  account_id = a.id;
  account_code = a.code;
  account_name = a.name;
  balance = balance;
}

-- The `if` on the account's type.
abbrev pub place_at : AccountType → Account → ℤ → Sheet → Sheet
place_at asset a balance s = record s {
  assets = s.assets ++ line_of a balance ∷ [];
  total_assets = s.total_assets +ℤ balance;
}
place_at liability a balance s = record s {
  liabilities = s.liabilities ++ line_of a balance ∷ [];
  total_liabilities = s.total_liabilities +ℤ balance;
}
place_at _ a balance s = record s {
  equity_lines = s.equity_lines ++ line_of a balance ∷ [];
  total_equity = s.total_equity +ℤ balance;
}

abbrev pub place : Account → ℤ → Sheet → Sheet
place a balance s = place_at a.account_type a balance s

abbrev pub empty_sheet : Sheet
empty_sheet = record {
  assets = [];
  liabilities = [];
  equity_lines = [];
  total_assets = pos 0;
  total_liabilities = pos 0;
  total_equity = pos 0;
}

-- The loop over the rows.
pub sheet_rows : List Row → Sheet → Outcome Sheet
sheet_rows [] s = ok s
sheet_rows (r ∷ rows) s = do
  debit_total ← quantize_cents r.debit_total
  credit_total ← quantize_cents r.credit_total
  balance ← net_balance r.account.account_type debit_total credit_total
  sheet_rows rows (place r.account balance s)

abbrev pub system_line : ℤ → BalanceLine
system_line earnings = record {
  account_id = 0;
  account_code = none;
  account_name = "Current Period Earnings (System)";
  balance = earnings;
}

-- `if unclosed_earnings != Decimal("0.00")`
abbrev pub add_earnings : ℤ → Sheet → Sheet
add_earnings earnings s =
    if nat_beq (pos_part earnings) 0 && nat_beq (neg_part earnings) 0 then s else record s {
      equity_lines = s.equity_lines ++ system_line earnings ∷ [];
      total_equity = s.total_equity +ℤ earnings;
    }

-- The last `_q` of each total.
pub quantize_totals : Sheet → Outcome Sheet
quantize_totals s = do
  total_assets ← quantize_signed s.total_assets
  total_liabilities ← quantize_signed s.total_liabilities
  total_equity ← quantize_signed s.total_equity
  ok (record s {
    total_assets = total_assets;
    total_liabilities = total_liabilities;
    total_equity = total_equity;
  })

unfoldable pub get_balance_sheet : Database → Scope → ℕ → Tables → Outcome Sheet
unfolding sheet_rows net_balance net_profit_from_rows quantize_totals
get_balance_sheet db scope as_of t = do
  s ←
      sheet_rows
        (gl_sums_by_account db scope (as_of_filter as_of (some (asset ∷ liability ∷ equity ∷ [])))
          t)
        empty_sheet
  unclosed_earnings ←
      net_profit_from_rows
        (gl_sums_by_account db scope (as_of_filter as_of (some (income ∷ expense ∷ []))) t)
  quantize_totals (add_earnings unclosed_earnings s)
