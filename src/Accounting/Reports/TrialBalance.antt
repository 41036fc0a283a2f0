-- ===== src/Accounting/Reports/TrialBalance.antt =====
-- `get_trial_balance` of app/accounting/service.py. Its query is that of `_gl_sums_by_account`
-- with a last date and no other condition.
pub mod Balanced
use sanmitra_backend.Base.{ℕ, ◌+◌, none, List, [], ◌∷◌, ok, ◌>>=◌}
use sanmitra_backend.Base.Int.{ℤ}
use sanmitra_backend.Accounting.Errors.{Outcome}
use sanmitra_backend.Accounting.Decimal.{quantize_cents}
use sanmitra_backend.Accounting.Entities.{Scope, Account, Tables}
use sanmitra_backend.Accounting.Store.{Database}
use sanmitra_backend.Accounting.Reports.{Row, gl_sums_by_account, difference, as_of_filter}

pub record TrialLine : Type 0 where
  pub account : Account
  pub debit_total : ℕ
  pub credit_total : ℕ
  pub net_balance : ℤ

-- The loop over the rows.
pub trial_lines : List Row → ℕ → ℕ → Outcome (List TrialLine × ℕ × ℕ)
trial_lines [] total_debit total_credit = ok ([], total_debit, total_credit)
trial_lines (r ∷ rows) total_debit total_credit = do
  debit_total ← quantize_cents r.debit_total
  credit_total ← quantize_cents r.credit_total
  net_balance ← difference debit_total credit_total
  (lines, d, c) ← trial_lines rows (total_debit + debit_total) (total_credit + credit_total)
  ok (
    record {
      account = r.account;
      debit_total = debit_total;
      credit_total = credit_total;
      net_balance = net_balance;
    }
        ∷ lines,
    d,
    c,
  )

unfoldable pub get_trial_balance : Database → Scope → ℕ → Tables → Outcome (List TrialLine × ℕ × ℕ)
unfolding trial_lines
get_trial_balance db scope as_of t = do
  (lines, d, c) ← trial_lines (gl_sums_by_account db scope (as_of_filter as_of none) t) 0 0
  total_debit ← quantize_cents d
  total_credit ← quantize_cents c
  ok (lines, total_debit, total_credit)
