-- ===== src/Accounting/Reports/Receipts/Totals.antt =====
-- What the receipts and payments add up to.
use sanmitra_backend.Base.{
  ℕ, ◌+◌, ◌<◌, ◌≤◌, ◌≡◌, refl, sym, ◌∙◌, Bool, ◌&&◌, List, [], ◌∷◌, map, All-weaken, arith, ok, leb,
}
use sanmitra_backend.Base.Int.{sub_ℕ}
use sanmitra_backend.Base.Sums.{sum_of, when, sum_of-eq_on}
use sanmitra_backend.Base.Equality.{◌==◌}
use sanmitra_backend.Accounting.Decimal.{precision_limit}
use sanmitra_backend.Accounting.Entities.{Scope, scope_eq, Tables, JournalLine}
use sanmitra_backend.Accounting.Store.{Database}
use sanmitra_backend.Accounting.Journal.Invariant.{IsConsistent}
use sanmitra_backend.Accounting.Reports.{Row, dated, column, gl_sums_by_account}
use sanmitra_backend.Accounting.Reports.Columns.{columns_total, All-of}
use sanmitra_backend.Accounting.Reports.Rows.{sum_of-gl_sums_by_account}
use sanmitra_backend.Accounting.Reports.TrialBalance.Balanced.{
  quantize_cents-below, difference-below,
}
use sanmitra_backend.Accounting.Reports.Receipts.{
  ReceiptLine, receipt_lines, cash_filter, get_receipts_payments,
}

-- The line of a row.
abbrev pub receipt_line : Row → ReceiptLine
receipt_line r = record {
  account = r.account;
  receipts = r.debit_total;
  payments = r.credit_total;
  net_receipts = sub_ℕ r.debit_total r.credit_total;
}

receipt_lines-below :
    (rows : List Row) (d c : ℕ)
    → d + sum_of (λ r. r.debit_total) rows < precision_limit
    → c + sum_of (λ r. r.credit_total) rows < precision_limit
    → receipt_lines rows d c
      ≡ ok (
        map receipt_line rows,
        d + sum_of (λ r. r.debit_total) rows,
        c + sum_of (λ r. r.credit_total) rows,
      )
unfolding receipt_lines
receipt_lines-below [] d c h k = ground arith
receipt_lines-below (r ∷ rows) d c h k =
    rw
      (
        quantize_cents-below r.debit_total (omega arith),
        quantize_cents-below r.credit_total (omega arith),
        difference-below r.debit_total r.credit_total (omega arith) (omega arith),
        receipt_lines-below rows (d + r.debit_total) (c + r.credit_total) (omega arith)
            (omega arith),
      )
      (ground arith)

-- The sum of a column over the scope's cash and bank accounts, for the entries of a period.
abbrev pub cash_total : (JournalLine → ℕ) → Scope → ℕ → ℕ → Tables → ℕ
cash_total amount scope from_date to_date t =
    sum_of
      (λ a.
        when (a.scope == scope && a.is_cash_bank)
          (column amount scope (dated (cash_filter from_date to_date)) t a))
      t.accounts

-- The totals of the entries of a scope in a period.
abbrev pub period_total : Scope → ℕ → ℕ → Tables → ℕ
period_total scope from_date to_date t =
    sum_of
      (λ e.
        when (e.scope == scope && leb from_date e.entry_date && leb e.entry_date to_date)
          e.total_debit)
      t.entries

pub some_of {ℓ} :
    {A : Type ℓ} (p q : A → Bool) (f : A → ℕ) (xs : List A)
    → sum_of (λ x. when (p x && q x) (f x)) xs ≤ sum_of (λ x. when (p x) (f x)) xs
some_of p q f [] = omega arith
some_of p q f (x ∷ xs) = ground (arith, some_of p q f xs)

module _ (db : Database) (scope : Scope) (from_date to_date : ℕ) (t : Tables)
    (valid : IsConsistent t) where
  abbrev query : List Row
  query = gl_sums_by_account db scope (cash_filter from_date to_date) t

  receipt_rows :
      sum_of (λ r. r.debit_total) query ≡ cash_total (λ l. l.debit) scope from_date to_date t
  receipt_rows =
      sum_of-gl_sums_by_account db scope (cash_filter from_date to_date) t (λ a d c. d) (λ a. refl)
      ∙ sum_of-eq_on _ _ t.accounts (All-of (λ a. ground arith) t.accounts)

  payment_rows :
      sum_of (λ r. r.credit_total) query ≡ cash_total (λ l. l.credit) scope from_date to_date t
  payment_rows =
      sum_of-gl_sums_by_account db scope (cash_filter from_date to_date) t (λ a d c. c) (λ a. refl)
      ∙ sum_of-eq_on _ _ t.accounts (All-of (λ a. ground arith) t.accounts)

  in_period :
      sum_of
        (λ e.
          when
            (e.scope == scope && dated (cash_filter from_date to_date) e.entry_date)
            e.total_debit)
        t.entries
      ≡ period_total scope from_date to_date t
  in_period = sum_of-eq_on _ _ t.entries (All-of (λ e. ground arith) t.entries)

  receipts_below :
      cash_total (λ l. l.debit) scope from_date to_date t ≤ period_total scope from_date to_date t
  receipts_below = omega (
    arith,
    some_of (λ a. a.scope == scope) (λ a. a.is_cash_bank)
        (column (λ l. l.debit) scope (dated (cash_filter from_date to_date)) t) t.accounts,
    columns_total (λ l. l.debit) (λ e. e.total_debit) scope (dated (cash_filter from_date to_date))
        t valid (All-weaken (λ e b. b.debits) t.entries valid.booked),
    in_period,
  )

  payments_below :
      cash_total (λ l. l.credit) scope from_date to_date t ≤ period_total scope from_date to_date t
  payments_below = omega (
    arith,
    some_of (λ a. a.scope == scope) (λ a. a.is_cash_bank)
        (column (λ l. l.credit) scope (dated (cash_filter from_date to_date)) t) t.accounts,
    columns_total (λ l. l.credit) (λ e. e.total_debit) scope (dated (cash_filter from_date to_date))
        t valid (All-weaken (λ e b. b.credits ∙ sym b.balanced) t.entries valid.booked),
    in_period,
  )

  -- On consistent tables whose entries of the period add up to less than 10 ^ 28 hundredths, the
  -- receipts and payments are returned, with one line for each row of the query. The totals are the
  -- debits and the credits of the scope's cash and bank accounts in the period, and the net amount
  -- is their difference.
  pub get_receipts_payments_totals :
      period_total scope from_date to_date t < precision_limit
      → let receipts = cash_total (λ l. l.debit) scope from_date to_date t in
        let payments = cash_total (λ l. l.credit) scope from_date to_date t in
        get_receipts_payments db scope from_date to_date t
        ≡ ok (map receipt_line query, receipts, payments, sub_ℕ receipts payments)
  unfolding get_receipts_payments
  get_receipts_payments_totals h =
      let receipts = cash_total (λ l. l.debit) scope from_date to_date t in
      let payments = cash_total (λ l. l.credit) scope from_date to_date t in
      let few : receipts < precision_limit = omega (arith, receipts_below, h) in
      let few' : payments < precision_limit = omega (arith, payments_below, h) in
      rw
        (receipt_lines-below query 0 0 (omega (arith, receipt_rows, few))
          (omega (arith, payment_rows, few')))
        (rw (receipt_rows, payment_rows)
          (ground (
            arith,
            quantize_cents-below receipts few,
            quantize_cents-below payments few',
            difference-below receipts payments few few',
          )))
