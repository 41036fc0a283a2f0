-- ===== src/Accounting/Reports/BalanceSheet/Equation.antt =====
-- The accounting equation.
use sanmitra_backend.Base.{
  ℕ, ◌+◌, ◌<◌, ◌≤◌, ◌≡◌, refl, sym, ◌∙◌, ◌&&◌, none, some, List, [], ◌∷◌, All-weaken, arith, ok,
  leb,
}
use sanmitra_backend.Base.Int.{◌+ℤ◌}
use sanmitra_backend.Base.Sums.{sum_of, when}
use sanmitra_backend.Base.Equality.{◌==◌}
use sanmitra_backend.Accounting.Decimal.{precision_limit}
use sanmitra_backend.Accounting.Entities.{
  Scope, scope_eq, Account, AccountType, asset, liability, equity, income, expense, Tables,
}
use sanmitra_backend.Accounting.Store.{Database}
use sanmitra_backend.Accounting.Journal.Invariant.{IsConsistent}
use sanmitra_backend.Accounting.Reports.{Row, selected, gl_sums_by_account, as_of_filter}
use sanmitra_backend.Accounting.Reports.Columns.{columns_total}
use sanmitra_backend.Accounting.Reports.Rows.{
  sum_of-gl_sums_by_account, debit_column, credit_column,
}
use sanmitra_backend.Accounting.Reports.TrialBalance.Balanced.{booked_total}
use sanmitra_backend.Accounting.Reports.BalanceSheet.{
  Sheet, empty_sheet, get_balance_sheet, add_earnings,
}
use sanmitra_backend.Accounting.Reports.BalanceSheet.Loops.{
  asset_in, asset_out, liability_in, liability_out, equity_in, equity_out, income_in, income_out,
  expense_in, expense_out, over_rows, sheet_rows-below, net_profit-below, close_sheet,
}

abbrev sheet_types : List AccountType
sheet_types = asset ∷ liability ∷ equity ∷ []

abbrev profit_types : List AccountType
profit_types = income ∷ expense ∷ []

-- Every account has one of the five types.
module _ (scope : Scope) (as_of : ℕ) (d c : Account → ℕ) where
  abbrev share : List AccountType → (AccountType → ℕ → ℕ → ℕ) → List Account → ℕ
  share types w rows =
      sum_of
        (λ a.
          when (a.scope == scope && selected (as_of_filter as_of (some types)) a)
            (w a.account_type (d a) (c a)))
        rows

  debits_split :
      (rows : List Account)
      → sum_of (λ a. when (a.scope == scope) (d a)) rows
        ≡ share sheet_types asset_in rows
          + share sheet_types liability_out rows
          + share sheet_types equity_out rows
          + share profit_types income_out rows
          + share profit_types expense_in rows
  debits_split [] = refl
  debits_split (a ∷ rows) = ground (arith, debits_split rows)

  credits_split :
      (rows : List Account)
      → sum_of (λ a. when (a.scope == scope) (c a)) rows
        ≡ share sheet_types asset_out rows
          + share sheet_types liability_in rows
          + share sheet_types equity_in rows
          + share profit_types income_in rows
          + share profit_types expense_out rows
  credits_split [] = refl
  credits_split (a ∷ rows) = ground (arith, credits_split rows)

  both_queries :
      (w : AccountType → ℕ → ℕ → ℕ) (rows : List Account)
      → share sheet_types w rows + share profit_types w rows
        ≡ sum_of (λ a. when (a.scope == scope) (w a.account_type (d a) (c a))) rows
  both_queries w [] = refl
  both_queries w (a ∷ rows) = ground (arith, both_queries w rows)

module _ (db : Database) (scope : Scope) (as_of : ℕ) (t : Tables) (valid : IsConsistent t) where
  abbrev sheet_query : List Row
  sheet_query = gl_sums_by_account db scope (as_of_filter as_of (some sheet_types)) t

  abbrev profit_query : List Row
  profit_query = gl_sums_by_account db scope (as_of_filter as_of (some profit_types)) t

  abbrev debits : Account → ℕ
  debits = debit_column db scope (as_of_filter as_of none) t

  abbrev credits : Account → ℕ
  credits = credit_column db scope (as_of_filter as_of none) t

  -- A weight of the accounts of the scope with a type in the list.
  abbrev weighed : List AccountType → (AccountType → ℕ → ℕ → ℕ) → ℕ
  weighed types w =
      sum_of
        (λ a.
          when (a.scope == scope && selected (as_of_filter as_of (some types)) a)
            (w a.account_type (debits a) (credits a)))
        t.accounts

  sheet_weight :
      (w : AccountType → ℕ → ℕ → ℕ)
      → ((k : AccountType) → w k 0 0 ≡ 0)
      → over_rows w sheet_query ≡ weighed sheet_types w
  sheet_weight w h =
      sum_of-gl_sums_by_account db scope (as_of_filter as_of (some sheet_types)) t
        (λ a. w a.account_type) (λ a. h a.account_type)

  profit_weight :
      (w : AccountType → ℕ → ℕ → ℕ)
      → ((k : AccountType) → w k 0 0 ≡ 0)
      → over_rows w profit_query ≡ weighed profit_types w
  profit_weight w h =
      sum_of-gl_sums_by_account db scope (as_of_filter as_of (some profit_types)) t
        (λ a. w a.account_type) (λ a. h a.account_type)

  debit_total :
      sum_of (λ a. when (a.scope == scope) (debits a)) t.accounts ≡ booked_total scope as_of t
  debit_total =
      columns_total (λ l. l.debit) (λ e. e.total_debit) scope (λ date. leb date as_of) t valid
        (All-weaken (λ e b. b.debits) t.entries valid.booked)

  credit_total :
      sum_of (λ a. when (a.scope == scope) (credits a)) t.accounts ≡ booked_total scope as_of t
  credit_total =
      columns_total (λ l. l.credit) (λ e. e.total_debit) scope (λ date. leb date as_of) t valid
        (All-weaken (λ e b. b.credits ∙ sym b.balanced) t.entries valid.booked)

  -- What the proof needs of the two queries' sums, in numbers.
  record Split : Type 0 where
    sheet_debits : over_rows (λ k d c. d) sheet_query ≤ booked_total scope as_of t
    sheet_credits : over_rows (λ k d c. c) sheet_query ≤ booked_total scope as_of t
    profit_debits : over_rows (λ k d c. d) profit_query ≤ booked_total scope as_of t
    profit_credits : over_rows (λ k d c. c) profit_query ≤ booked_total scope as_of t
    all_debits :
        over_rows asset_in sheet_query
          + over_rows liability_out sheet_query
          + over_rows equity_out sheet_query
          + over_rows income_out profit_query
          + over_rows expense_in profit_query
        ≡ booked_total scope as_of t
    all_credits :
        over_rows asset_out sheet_query
          + over_rows liability_in sheet_query
          + over_rows equity_in sheet_query
          + over_rows income_in profit_query
          + over_rows expense_out profit_query
        ≡ booked_total scope as_of t

  abbrev ZeroWeight : (w : AccountType → ℕ → ℕ → ℕ) → Type 0
  ZeroWeight w = (k : AccountType) → w k 0 0 ≡ 0

  split : Split
  split =
      let sd = sheet_weight (λ k d c. d) (λ k. refl) in
      let sc = sheet_weight (λ k d c. c) (λ k. refl) in
      let pd = profit_weight (λ k d c. d) (λ k. refl) in
      let pc = profit_weight (λ k d c. c) (λ k. refl) in
      let dd = both_queries scope as_of debits credits (λ k d c. d) t.accounts in
      let cc' = both_queries scope as_of debits credits (λ k d c. c) t.accounts in
      let ai : ZeroWeight asset_in = elim [ asset ↦ refl | _ ↦ refl ] in
      let ao : ZeroWeight asset_out = elim [ asset ↦ refl | _ ↦ refl ] in
      let li : ZeroWeight liability_in = elim [ liability ↦ refl | _ ↦ refl ] in
      let lo : ZeroWeight liability_out = elim [ liability ↦ refl | _ ↦ refl ] in
      let ei : ZeroWeight equity_in = elim [ equity ↦ refl | _ ↦ refl ] in
      let eo : ZeroWeight equity_out = elim [ equity ↦ refl | _ ↦ refl ] in
      let ii : ZeroWeight income_in = elim [ income ↦ refl | _ ↦ refl ] in
      let io : ZeroWeight income_out = elim [ income ↦ refl | _ ↦ refl ] in
      let xi : ZeroWeight expense_in = elim [ expense ↦ refl | _ ↦ refl ] in
      let xo : ZeroWeight expense_out = elim [ expense ↦ refl | _ ↦ refl ] in
      record {
        sheet_debits = omega (arith, sd, dd, debit_total);
        sheet_credits = omega (arith, sc, cc', credit_total);
        profit_debits = omega (arith, pd, dd, debit_total);
        profit_credits = omega (arith, pc, cc', credit_total);
        all_debits = omega (
          arith,
          sheet_weight asset_in ai,
          sheet_weight liability_out lo,
          sheet_weight equity_out eo,
          profit_weight income_out io,
          profit_weight expense_in xi,
          debits_split scope as_of debits credits t.accounts,
          debit_total,
        );
        all_credits = omega (
          arith,
          sheet_weight asset_out ao,
          sheet_weight liability_in li,
          sheet_weight equity_in ei,
          profit_weight income_in ii,
          profit_weight expense_out xo,
          credits_split scope as_of debits credits t.accounts,
          credit_total,
        );
      }

  -- On consistent tables whose entries add up to less than 10 ^ 28 hundredths, the balance sheet is
  -- returned, and total assets are total liabilities plus total equity, where equity includes the
  -- earnings that are not closed yet.
  pub get_balance_sheet_balances :
      booked_total scope as_of t < precision_limit
      → (s : Sheet) × (get_balance_sheet db scope as_of t ≡ ok s)
        × (s.total_assets ≡ s.total_liabilities +ℤ s.total_equity)
  unfolding get_balance_sheet
  get_balance_sheet_balances h =
      let q = split in
      let (s, run, a, l, e) =
        sheet_rows-below sheet_query empty_sheet (omega (arith, q.sheet_debits))
          (omega (arith, q.sheet_credits)) in
      let (z, earned, m) =
        net_profit-below profit_query (omega (arith, q.profit_debits))
          (omega (arith, q.profit_credits)) (omega (arith, q.all_debits, q.all_credits))
          (omega (arith, q.all_debits, q.all_credits)) in
      let (closed, equation) =
        close_sheet s z (booked_total scope as_of t) _ _ _ _ _ _ _ _ a l e m
          (omega (arith, q.all_debits)) (omega (arith, q.all_credits)) h in
      (add_earnings z s, rw run (rw earned closed), equation)
