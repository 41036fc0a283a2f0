-- ===== src/Accounting/Reports/Receipts.antt =====
-- `get_receipts_payments` of app/accounting/service.py.
pub mod Totals
use sanmitra_backend.Base.{ℕ, ◌+◌, true, false, none, some, List, [], ◌∷◌, ok, ◌>>=◌}
use sanmitra_backend.Base.Int.{ℤ}
use sanmitra_backend.Accounting.Errors.{Outcome}
use sanmitra_backend.Accounting.Decimal.{quantize_cents}
use sanmitra_backend.Accounting.Entities.{Scope, Account, Tables}
use sanmitra_backend.Accounting.Store.{Database}
use sanmitra_backend.Accounting.Reports.{Row, Filters, gl_sums_by_account, difference}

pub record ReceiptLine : Type 0 where
  pub account : Account
  pub receipts : ℕ
  pub payments : ℕ
  pub net_receipts : ℤ

-- The loop over the rows.
pub receipt_lines : List Row → ℕ → ℕ → Outcome (List ReceiptLine × ℕ × ℕ)
receipt_lines [] total_receipts total_payments = ok ([], total_receipts, total_payments)
receipt_lines (r ∷ rows) total_receipts total_payments = do
  receipts ← quantize_cents r.debit_total
  payments ← quantize_cents r.credit_total
  net_receipts ← difference receipts payments
  (lines, a, b) ← receipt_lines rows (total_receipts + receipts) (total_payments + payments)
  ok (
    record {
      account = r.account;
      receipts = receipts;
      payments = payments;
      net_receipts = net_receipts;
    }
        ∷ lines,
    a,
    b,
  )

abbrev pub cash_filter : ℕ → ℕ → Filters
cash_filter from_date to_date = record {
  from_date = some from_date;
  to_date = some to_date;
  as_of = none;
  account_types = none;
  only_cash_bank = true;
  only_receivable = false;
  only_payable = false;
}

unfoldable pub get_receipts_payments :
    Database → Scope → ℕ → ℕ → Tables → Outcome (List ReceiptLine × ℕ × ℕ × ℤ)
unfolding receipt_lines
get_receipts_payments db scope from_date to_date t = do
  (lines, a, b) ← receipt_lines (gl_sums_by_account db scope (cash_filter from_date to_date) t) 0 0
  total_receipts ← quantize_cents a
  total_payments ← quantize_cents b
  net ← difference a b
  ok (lines, total_receipts, total_payments, net)
