-- ===== src/Accounting/Reports/ProfitLoss.antt =====
-- `get_profit_loss` of app/accounting/service.py.
pub mod Agreement
use sanmitra_backend.Base.{ℕ, false, none, some, List, [], ◌∷◌, ok, ◌>>=◌}
use sanmitra_backend.Base.Int.{ℤ, pos, ◌+ℤ◌, ◌-ℤ◌}
use sanmitra_backend.Accounting.Errors.{Outcome}
use sanmitra_backend.Accounting.Decimal.{quantize_cents, quantize_signed}
use sanmitra_backend.Accounting.Entities.{Scope, Account, AccountType, income, expense, Tables}
use sanmitra_backend.Accounting.Store.{Database}
use sanmitra_backend.Accounting.Reports.{Row, Filters, gl_sums_by_account, difference}

pub record ProfitLine : Type 0 where
  pub account : Account
  pub debit_total : ℕ
  pub credit_total : ℕ
  pub net_amount : ℤ

-- The `if` on the account's type: the net amount and the two totals.
pub profit_step : AccountType → ℕ → ℕ → ℤ → ℤ → Outcome (ℤ × ℤ × ℤ)
profit_step income debit_total credit_total income_total expense_total = do
  net ← difference credit_total debit_total
  ok (net, income_total +ℤ net, expense_total)
profit_step _ debit_total credit_total income_total expense_total = do
  net ← difference debit_total credit_total
  ok (net, income_total, expense_total +ℤ net)

-- The loop over the rows.
pub profit_lines : List Row → ℤ → ℤ → Outcome (List ProfitLine × ℤ × ℤ)
profit_lines [] income_total expense_total = ok ([], income_total, expense_total)
profit_lines (r ∷ rows) income_total expense_total = do
  debit_total ← quantize_cents r.debit_total
  credit_total ← quantize_cents r.credit_total
  (net, i, x) ←
      profit_step r.account.account_type debit_total credit_total income_total expense_total
  (lines, i', x') ← profit_lines rows i x
  ok (
    record {
      account = r.account;
      debit_total = debit_total;
      credit_total = credit_total;
      net_amount = net;
    }
        ∷ lines,
    i',
    x',
  )

abbrev pub profit_filter : ℕ → ℕ → Filters
profit_filter from_date to_date = record {
  from_date = some from_date;
  to_date = some to_date;
  as_of = none;
  account_types = some (income ∷ expense ∷ []);
  only_cash_bank = false;
  only_receivable = false;
  only_payable = false;
}

unfoldable pub get_profit_loss :
    Database → Scope → ℕ → ℕ → Tables → Outcome (List ProfitLine × ℤ × ℤ × ℤ)
unfolding profit_lines profit_step
get_profit_loss db scope from_date to_date t = do
  (lines, i, x) ←
      profit_lines (gl_sums_by_account db scope (profit_filter from_date to_date) t) (pos 0) (pos 0)
  income_total ← quantize_signed i
  expense_total ← quantize_signed x
  net_profit ← quantize_signed (income_total -ℤ expense_total)
  ok (lines, income_total, expense_total, net_profit)
