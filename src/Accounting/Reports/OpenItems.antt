-- ===== src/Accounting/Reports/OpenItems.antt =====
-- `get_accounts_receivable` and `get_accounts_payable` of app/accounting/service.py.
pub mod Totals
use sanmitra_backend.Base.{ℕ, String, true, false, Option, none, some, List, [], ◌∷◌, ok, ◌>>=◌}
use sanmitra_backend.Base.Int.{ℤ, pos, ◌+ℤ◌}
use sanmitra_backend.Accounting.Errors.{Outcome}
use sanmitra_backend.Accounting.Decimal.{quantize_cents, quantize_signed}
use sanmitra_backend.Accounting.Entities.{Scope, Account, Tables}
use sanmitra_backend.Accounting.Store.{Database}
use sanmitra_backend.Accounting.Reports.{Row, Filters, gl_sums_by_account}
use sanmitra_backend.Accounting.Reports.BalanceSheet.{net_balance}

pub record OpenLine : Type 0 where
  pub account_id : ℕ
  pub account_code : Option String
  pub account_name : String
  pub balance : ℤ

abbrev pub open_line : Row → ℤ → OpenLine
open_line r balance = record {
  account_id = r.account.id;
  account_code = r.account.code;
  account_name = r.account.name;
  balance = balance;
}

-- The loop over the rows, which is the same in the two functions.
pub open_lines : List Row → ℤ → Outcome (List OpenLine × ℤ)
unfolding net_balance
open_lines [] total_balance = ok ([], total_balance)
open_lines (r ∷ rows) total_balance = do
  debit_total ← quantize_cents r.debit_total
  credit_total ← quantize_cents r.credit_total
  balance ← net_balance r.account.account_type debit_total credit_total
  (lines, total) ← open_lines rows (total_balance +ℤ balance)
  ok (open_line r balance ∷ lines, total)

abbrev pub receivable_filter : ℕ → Filters
receivable_filter as_of = record {
  from_date = none;
  to_date = none;
  as_of = some as_of;
  account_types = none;
  only_cash_bank = false;
  only_receivable = true;
  only_payable = false;
}

abbrev pub payable_filter : ℕ → Filters
payable_filter as_of = record (receivable_filter as_of) {
  only_receivable = false;
  only_payable = true;
}

unfoldable pub get_accounts_receivable : Database → Scope → ℕ → Tables → Outcome (List OpenLine × ℤ)
unfolding open_lines
get_accounts_receivable db scope as_of t = do
  (lines, total_balance) ←
      open_lines (gl_sums_by_account db scope (receivable_filter as_of) t) (pos 0)
  total ← quantize_signed total_balance
  ok (lines, total)

unfoldable pub get_accounts_payable : Database → Scope → ℕ → Tables → Outcome (List OpenLine × ℤ)
unfolding open_lines
get_accounts_payable db scope as_of t = do
  (lines, total_balance) ← open_lines (gl_sums_by_account db scope (payable_filter as_of) t) (pos 0)
  total ← quantize_signed total_balance
  ok (lines, total)
