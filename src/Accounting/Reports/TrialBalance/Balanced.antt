-- ===== src/Accounting/Reports/TrialBalance/Balanced.antt =====
-- The trial balance balances.
use sanmitra_backend.Base.{
  ℕ, ◌+◌, ◌<◌, ◌≡◌, refl, sym, ◌∙◌, ◌&&◌, none, List, [], ◌∷◌, map, All-weaken, arith, ok, leb,
}
use sanmitra_backend.Base.Int.{sub_ℕ}
use sanmitra_backend.Base.Sums.{sum_of, when, sum_of-eq_on}
use sanmitra_backend.Base.Equality.{◌==◌}
use sanmitra_backend.Accounting.Decimal.{precision_limit, quantize_cents, quantize_signed}
use sanmitra_backend.Accounting.Entities.{Scope, scope_eq, Tables}
use sanmitra_backend.Accounting.Store.{Database}
use sanmitra_backend.Accounting.Journal.Invariant.{IsConsistent}
use sanmitra_backend.Accounting.Reports.{Row, difference, gl_sums_by_account, as_of_filter}
use sanmitra_backend.Accounting.Reports.Columns.{columns_total, All-of}
use sanmitra_backend.Accounting.Reports.Rows.{sum_of-gl_sums_by_account}
use sanmitra_backend.Accounting.Reports.TrialBalance.{TrialLine, trial_lines, get_trial_balance}

pub quantize_cents-below : (n : ℕ) → n < precision_limit → quantize_cents n ≡ ok n
unfolding quantize_cents
quantize_cents-below n h = ground arith

pub difference-below :
    (a b : ℕ) → a < precision_limit → b < precision_limit → difference a b ≡ ok (sub_ℕ a b)
unfolding quantize_signed
difference-below a b h k = ground arith

-- The line of a row.
abbrev pub trial_line : Row → TrialLine
trial_line r = record {
  account = r.account;
  debit_total = r.debit_total;
  credit_total = r.credit_total;
  net_balance = sub_ℕ r.debit_total r.credit_total;
}

trial_lines-below :
    (rows : List Row) (d c : ℕ)
    → d + sum_of (λ r. r.debit_total) rows < precision_limit
    → c + sum_of (λ r. r.credit_total) rows < precision_limit
    → trial_lines rows d c
      ≡ ok (
        map trial_line rows,
        d + sum_of (λ r. r.debit_total) rows,
        c + sum_of (λ r. r.credit_total) rows,
      )
unfolding trial_lines
trial_lines-below [] d c h k = ground arith
trial_lines-below (r ∷ rows) d c h k =
    rw
      (
        quantize_cents-below r.debit_total (omega arith),
        quantize_cents-below r.credit_total (omega arith),
        difference-below r.debit_total r.credit_total (omega arith) (omega arith),
        trial_lines-below rows (d + r.debit_total) (c + r.credit_total) (omega arith) (omega arith),
      )
      (ground arith)

-- The totals of the entries of a scope up to a day.
abbrev pub booked_total : Scope → ℕ → Tables → ℕ
booked_total scope as_of t =
    sum_of (λ e. when (e.scope == scope && leb e.entry_date as_of) e.total_debit) t.entries

module _ (db : Database) (scope : Scope) (as_of : ℕ) (t : Tables) (valid : IsConsistent t) where
  debit_rows :
      sum_of (λ r. r.debit_total) (gl_sums_by_account db scope (as_of_filter as_of none) t)
      ≡ booked_total scope as_of t
  debit_rows =
      sum_of-gl_sums_by_account db scope (as_of_filter as_of none) t (λ a d c. d) (λ a. refl)
      ∙ sum_of-eq_on _ _ t.accounts (All-of (λ a. ground arith) t.accounts)
      ∙ columns_total (λ l. l.debit) (λ e. e.total_debit) scope (λ date. leb date as_of) t valid
          (All-weaken (λ e b. b.debits) t.entries valid.booked)

  credit_rows :
      sum_of (λ r. r.credit_total) (gl_sums_by_account db scope (as_of_filter as_of none) t)
      ≡ booked_total scope as_of t
  credit_rows =
      sum_of-gl_sums_by_account db scope (as_of_filter as_of none) t (λ a d c. c) (λ a. refl)
      ∙ sum_of-eq_on _ _ t.accounts (All-of (λ a. ground arith) t.accounts)
      ∙ columns_total (λ l. l.credit) (λ e. e.total_debit) scope (λ date. leb date as_of) t valid
          (All-weaken (λ e b. b.credits ∙ sym b.balanced) t.entries valid.booked)

  -- On consistent tables whose entries add up to less than 10 ^ 28 hundredths, the trial balance is
  -- returned, with one line for each row of the query, and its two totals are both the sum of the
  -- debit totals of the scope's entries up to the day: it balances.
  pub get_trial_balance_balanced :
      booked_total scope as_of t < precision_limit
      → get_trial_balance db scope as_of t
        ≡ ok (
          map trial_line (gl_sums_by_account db scope (as_of_filter as_of none) t),
          booked_total scope as_of t,
          booked_total scope as_of t,
        )
  unfolding get_trial_balance
  get_trial_balance_balanced h =
      rw
        (trial_lines-below (gl_sums_by_account db scope (as_of_filter as_of none) t) 0 0
          (omega (arith, debit_rows)) (omega (arith, credit_rows)))
        (rw (debit_rows, credit_rows)
          (ground (arith, quantize_cents-below (booked_total scope as_of t) h)))
