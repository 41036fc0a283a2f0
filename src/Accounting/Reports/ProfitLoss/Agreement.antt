-- ===== src/Accounting/Reports/ProfitLoss/Agreement.antt =====
-- The profit and loss statement agrees with the balance sheet's sum over the same rows.
use sanmitra_backend.Base.{
  ℕ, ◌+◌, ◌<◌, ◌≤◌, ◌≡◌, refl, sym, subst, ap, ◌∙◌, Bool, true, false, ◌&&◌, List, [], ◌∷◌, All,
  All-weaken, arith, ok, err,
}
use sanmitra_backend.Base.Int.{ℤ, pos, ◌+ℤ◌, ◌-ℤ◌, sub_ℕ}
use sanmitra_backend.Base.Sums.{sum_of, when, sum_of-eq_on}
use sanmitra_backend.Base.Equality.{◌==◌}
use sanmitra_backend.Accounting.Errors.{Outcome}
use sanmitra_backend.Accounting.Decimal.{precision_limit, quantize_signed}
use sanmitra_backend.Accounting.Entities.{
  Scope, scope_eq, Account, AccountType, income, expense, Tables,
}
use sanmitra_backend.Accounting.Store.{Database}
use sanmitra_backend.Accounting.Journal.Invariant.{IsConsistent}
use sanmitra_backend.Accounting.Reports.{Row, dated, selected, column, gl_sums_by_account}
use sanmitra_backend.Accounting.Reports.Columns.{columns_total, All-of}
use sanmitra_backend.Accounting.Reports.Rows.{sum_of-gl_sums_by_account, rows_selected}
use sanmitra_backend.Accounting.Reports.TrialBalance.Balanced.{
  quantize_cents-below, difference-below,
}
use sanmitra_backend.Accounting.Reports.BalanceSheet.{
  profit_at, profit_totals, net_profit_from_rows,
}
use sanmitra_backend.Accounting.Reports.BalanceSheet.Loops.{
  net_profit-below, profit_totals-below, quantize_signed-below, over_rows, income_in, income_out,
  expense_in, expense_out,
}
use sanmitra_backend.Accounting.Reports.Receipts.Totals.{some_of, period_total}
use sanmitra_backend.Accounting.Reports.ProfitLoss.{
  ProfitLine, profit_step, profit_lines, profit_filter, get_profit_loss,
}

abbrev foreign : AccountType → Bool
foreign income = false
foreign expense = false
foreign _ = true

steps_agree :
    (k : AccountType) (d c : ℕ) (i x : ℤ)
    → foreign k ≡ false
    → d < precision_limit
    → c < precision_limit
    → (net : ℤ) × (i' : ℤ) × (x' : ℤ) × (profit_step k d c i x ≡ ok (net, i', x'))
      × (profit_at k d c i x ≡ ok (i', x'))
unfolding profit_step profit_at
steps_agree income d c i x f h g = (
  sub_ℕ c d,
  i +ℤ sub_ℕ c d,
  x,
  rw (difference-below c d g h) refl,
  rw (difference-below c d g h) refl,
)
steps_agree expense d c i x f h g = (
  sub_ℕ d c,
  i,
  x +ℤ sub_ℕ d c,
  rw (difference-below d c h g) refl,
  rw (difference-below d c h g) refl,
)
steps_agree _ d c i x f h g = absurd (ground (arith, f))

abbrev profit_line : Row → ℤ → ProfitLine
profit_line r net = record {
  account = r.account;
  debit_total = r.debit_total;
  credit_total = r.credit_total;
  net_amount = net;
}

loops_agree :
    (rows : List Row) (i x : ℤ)
    → All (λ r. foreign r.account.account_type ≡ false) rows
    → sum_of (λ r. r.debit_total) rows < precision_limit
    → sum_of (λ r. r.credit_total) rows < precision_limit
    → (lines : List ProfitLine) × (i' : ℤ) × (x' : ℤ) × (profit_lines rows i x ≡ ok (lines, i', x'))
      × (profit_totals rows i x ≡ ok (i', x'))
unfolding profit_lines profit_totals
loops_agree [] i x f h g = ([], i, x, refl, refl)
loops_agree (r ∷ rows) i x (p, f) h g =
    let d = r.debit_total in
    let c = r.credit_total in
    let (net, i₁, x₁, step, at) =
      steps_agree r.account.account_type d c i x p (omega arith) (omega arith) in
    let (lines, i₂, x₂, run, totals) = loops_agree rows i₁ x₁ f (omega arith) (omega arith) in
    (
      profit_line r net ∷ lines,
      i₂,
      x₂,
      rw (quantize_cents-below d (omega arith))
          (rw (quantize_cents-below c (omega arith)) (rw step (rw run refl))),
      rw (quantize_cents-below d (omega arith))
          (rw (quantize_cents-below c (omega arith)) (rw at totals)),
    )

income_credits :
    (rows : List Row)
    → over_rows income_in rows + over_rows expense_out rows ≤ sum_of (λ r. r.credit_total) rows
income_credits [] = omega arith
income_credits (r ∷ rows) = ground (arith, income_credits rows)

expense_debits :
    (rows : List Row)
    → over_rows income_out rows + over_rows expense_in rows ≤ sum_of (λ r. r.debit_total) rows
expense_debits [] = omega arith
expense_debits (r ∷ rows) = ground (arith, expense_debits rows)

quantized : (z w : ℤ) → quantize_signed z ≡ ok w → quantize_signed z ≡ ok z
unfolding quantize_signed
quantized z w h = ground (arith, h)

abbrev pair_of : Outcome (ℤ × ℤ) → ℤ × ℤ
pair_of (ok p) = p
pair_of (err e) = (pos 0, pos 0)

-- Rows below the 28 digits.
profit_rows :
    (rows : List Row)
    → All (λ r. foreign r.account.account_type ≡ false) rows
    → sum_of (λ r. r.debit_total) rows < precision_limit
    → sum_of (λ r. r.credit_total) rows < precision_limit
    → (lines : List ProfitLine) × (i : ℤ) × (x : ℤ) × (profit_lines rows (pos 0) (pos 0)
        ≡ ok (lines, i, x))
      × (quantize_signed i ≡ ok i)
      × (quantize_signed x ≡ ok x)
      × (quantize_signed (i -ℤ x) ≡ ok (i -ℤ x))
      × (net_profit_from_rows rows ≡ ok (i -ℤ x))
unfolding net_profit_from_rows
profit_rows rows f h g =
    let (lines, i, x, run, totals) = loops_agree rows (pos 0) (pos 0) f h g in
    let (i₂, x₂, run₂, mi, mx) = profit_totals-below rows (pos 0) (pos 0) h g in
    let (z, earned, m) =
      net_profit-below rows h g (omega (arith, income_credits rows, g))
        (omega (arith, expense_debits rows, h)) in
    let q : quantize_signed (i -ℤ x) ≡ ok z = rw (net_profit_from_rows, totals) at earned in
    let same : ◌≡◌ {A = Outcome (ℤ × ℤ)} (ok (i, x)) (ok (i₂, x₂)) = sym totals ∙ run₂ in
    (
      lines,
      i,
      x,
      run,
      subst (λ w. quantize_signed w ≡ ok w) (sym (ap (λ r. (pair_of r).0) same))
          (quantize_signed-below i₂ _ _ mi (omega (arith, income_credits rows, g))
            (omega (arith, expense_debits rows, h))),
      subst (λ w. quantize_signed w ≡ ok w) (sym (ap (λ r. (pair_of r).1) same))
          (quantize_signed-below x₂ _ _ mx (omega (arith, expense_debits rows, h))
            (omega (arith, income_credits rows, g))),
      quantized (i -ℤ x) z q,
      rw (net_profit_from_rows, totals) (quantized (i -ℤ x) z q),
    )

module _ (db : Database) (scope : Scope) (from_date to_date : ℕ) (t : Tables)
    (valid : IsConsistent t) where
  abbrev query : List Row
  query = gl_sums_by_account db scope (profit_filter from_date to_date) t

  abbrev debits : Account → ℕ
  debits = column (λ l. l.debit) scope (dated (profit_filter from_date to_date)) t

  abbrev credits : Account → ℕ
  credits = column (λ l. l.credit) scope (dated (profit_filter from_date to_date)) t

  in_period :
      sum_of
        (λ e.
          when
            (e.scope == scope && dated (profit_filter from_date to_date) e.entry_date)
            e.total_debit)
        t.entries
      ≡ period_total scope from_date to_date t
  in_period = sum_of-eq_on _ _ t.entries (All-of (λ e. ground arith) t.entries)

  debits_below : sum_of (λ r. r.debit_total) query ≤ period_total scope from_date to_date t
  debits_below = omega (
    arith,
    sum_of-gl_sums_by_account db scope (profit_filter from_date to_date) t (λ a d c. d) (λ a. refl),
    some_of (λ a. a.scope == scope) (selected (profit_filter from_date to_date)) debits t.accounts,
    columns_total (λ l. l.debit) (λ e. e.total_debit) scope
        (dated (profit_filter from_date to_date)) t valid
        (All-weaken (λ e b. b.debits) t.entries valid.booked),
    in_period,
  )

  credits_below : sum_of (λ r. r.credit_total) query ≤ period_total scope from_date to_date t
  credits_below = omega (
    arith,
    sum_of-gl_sums_by_account db scope (profit_filter from_date to_date) t (λ a d c. c) (λ a. refl),
    some_of (λ a. a.scope == scope) (selected (profit_filter from_date to_date)) credits t.accounts,
    columns_total (λ l. l.credit) (λ e. e.total_debit) scope
        (dated (profit_filter from_date to_date)) t valid
        (All-weaken (λ e b. b.credits ∙ sym b.balanced) t.entries valid.booked),
    in_period,
  )

  -- On consistent tables whose entries of the period add up to less than 10 ^ 28 hundredths, the
  -- profit and loss statement is returned, its net profit is total income less total expenses, and
  -- this is what the balance sheet's `_net_profit_from_rows` finds in the same rows.
  pub get_profit_loss_agrees :
      period_total scope from_date to_date t < precision_limit
      → (lines : List ProfitLine) × (i : ℤ) × (x : ℤ) × (get_profit_loss db scope from_date to_date
            t
          ≡ ok (lines, i, x, i -ℤ x))
        × (net_profit_from_rows query ≡ ok (i -ℤ x))
  unfolding get_profit_loss
  get_profit_loss_agrees h =
      let (lines, i, x, run, qi, qx, qn, same) =
        profit_rows query
          (rows_selected db scope (profit_filter from_date to_date) t (λ a. foreign a.account_type)
            (λ a s. ground (arith, s)))
          (omega (arith, debits_below, h)) (omega (arith, credits_below, h)) in
      (lines, i, x, rw run (rw qi (rw qx (rw qn refl))), same)
