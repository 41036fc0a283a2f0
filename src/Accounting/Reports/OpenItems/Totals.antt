-- ===== src/Accounting/Reports/OpenItems/Totals.antt =====
-- What receivables and payables add up to.
use sanmitra_backend.Base.{
  ℕ, ◌+◌, ◌<◌, ◌≡◌, refl, sym, ◌∙◌, Bool, true, false, not, ◌&&◌, List, [], ◌∷◌, map, All,
  All-weaken, arith, ok, if◌then◌else◌,
}
use sanmitra_backend.Base.Int.{pos, sub_ℕ}
use sanmitra_backend.Base.Sums.{sum_of, when, sum_of-eq_on}
use sanmitra_backend.Base.Equality.{◌==◌}
use sanmitra_backend.Accounting.Decimal.{precision_limit}
use sanmitra_backend.Accounting.Entities.{
  Scope, scope_eq, Account, AccountType, asset, liability, equity, income, expense, Tables,
  JournalLine,
}
use sanmitra_backend.Accounting.Store.{Database, account_check}
use sanmitra_backend.Accounting.Journal.Invariant.{IsConsistent}
use sanmitra_backend.Accounting.Reports.{Row, Filters, selected, dated, column, gl_sums_by_account}
use sanmitra_backend.Accounting.Reports.Columns.{columns_total, All-of}
use sanmitra_backend.Accounting.Reports.Rows.{sum_of-gl_sums_by_account, rows_stored}
use sanmitra_backend.Accounting.Reports.TrialBalance.Balanced.{
  booked_total, quantize_cents-below, difference-below,
}
use sanmitra_backend.Accounting.Reports.Receipts.Totals.{some_of}
use sanmitra_backend.Accounting.Reports.BalanceSheet.{net_balance}
use sanmitra_backend.Accounting.Reports.Ledger.Running.{next_balance}
use sanmitra_backend.Accounting.Reports.OpenItems.{
  OpenLine, open_line, open_lines, receivable_filter, payable_filter, get_accounts_receivable,
  get_accounts_payable,
}

-- Whether an account's balance is its debits less its credits.
abbrev debit_side : AccountType → Bool
debit_side asset = true
debit_side expense = true
debit_side _ = false

net_balance-eq :
    (type : AccountType) (d c : ℕ)
    → d < precision_limit
    → c < precision_limit
    → net_balance type d c
      ≡ ok (sub_ℕ (if debit_side type then d else c) (if debit_side type then c else d))
unfolding net_balance
net_balance-eq asset d c h k = difference-below d c h k
net_balance-eq liability d c h k = difference-below c d k h
net_balance-eq equity d c h k = difference-below c d k h
net_balance-eq income d c h k = difference-below c d k h
net_balance-eq expense d c h k = difference-below d c h k

module _ (side : Bool) where
  abbrev pub own : Row → ℕ
  own r = if side then r.debit_total else r.credit_total

  abbrev pub other : Row → ℕ
  other r = if side then r.credit_total else r.debit_total

  -- The line of a row of such accounts.
  abbrev pub side_line : Row → OpenLine
  side_line r = open_line r (sub_ℕ (own r) (other r))

  net_balance-side :
      (r : Row)
      → debit_side r.account.account_type ≡ side
      → r.debit_total < precision_limit
      → r.credit_total < precision_limit
      → net_balance r.account.account_type r.debit_total r.credit_total
        ≡ ok (sub_ℕ (own r) (other r))
  net_balance-side r h d c =
      net_balance-eq r.account.account_type r.debit_total r.credit_total d c ∙ rw h refl

  open_lines-below :
      (rows : List Row) (a b : ℕ)
      → All (λ r. debit_side r.account.account_type ≡ side) rows
      → sum_of (λ r. r.debit_total) rows < precision_limit
      → sum_of (λ r. r.credit_total) rows < precision_limit
      → open_lines rows (sub_ℕ a b)
        ≡ ok (map side_line rows, sub_ℕ (a + sum_of own rows) (b + sum_of other rows))
  unfolding open_lines
  open_lines-below [] a b h d c =
      let e : a + 0 ≡ a = omega arith in let f : b + 0 ≡ b = omega arith in rw (e, f) refl
  open_lines-below (r ∷ rows) a b (s, h) d c =
      let e : a + own r + sum_of own rows ≡ a + (own r + sum_of own rows) = omega arith in
      let f : b + other r + sum_of other rows ≡ b + (other r + sum_of other rows) = omega arith in
      rw
        (
          quantize_cents-below r.debit_total (omega arith),
          quantize_cents-below r.credit_total (omega arith),
          net_balance-side r s (omega arith) (omega arith),
          next_balance a b (own r) (other r),
          open_lines-below rows (a + own r) (b + other r) h (omega arith) (omega arith),
        )
        (rw (e, f) refl)

-- The sum of a column over the accounts of the scope that are marked, up to a day.
abbrev pub open_total : (Account → Bool) → (JournalLine → ℕ) → Scope → ℕ → Tables → ℕ
open_total marked amount scope as_of t =
    sum_of
      (λ a.
        when (a.scope == scope && marked a)
          (column amount scope (dated (receivable_filter as_of)) t a))
      t.accounts

-- The CHECK constraints put receivables among the assets and payables among the liabilities.
receivable-side :
    (a : Account)
    → account_check a ≡ true
    → a.is_receivable ≡ true
    → debit_side a.account_type ≡ true
unfolding account_check
receivable-side a h g = ground arith

payable-side :
    (a : Account) → account_check a ≡ true → a.is_payable ≡ true → debit_side a.account_type ≡ false
unfolding account_check
payable-side a h g = ground arith

receivable-selected :
    (as_of : ℕ) (a : Account) → selected (receivable_filter as_of) a ≡ a.is_receivable
receivable-selected as_of a = ground arith

payable-selected : (as_of : ℕ) (a : Account) → selected (payable_filter as_of) a ≡ a.is_payable
payable-selected as_of a = ground arith

abbrev odd : Bool → Bool → Bool
odd side b = if side then not b else b

odd-false : (side b : Bool) → odd side b ≡ false → b ≡ side
odd-false side b h = ground arith

odd_self : (side b : Bool) → b ≡ side → odd side b ≡ false
odd_self side b h = ground arith

module _ (db : Database) (scope : Scope) (as_of : ℕ) (t : Tables) (valid : IsConsistent t)
    (checked : All (λ a. account_check a ≡ true) t.accounts)
    (few : booked_total scope as_of t < precision_limit) where
  module _ (f : Filters) (marked : Account → Bool) (side : Bool)
      (same_dates : dated f ≡ dated (receivable_filter as_of))
      (marks : (a : Account) → selected f a ≡ marked a)
      (sided : (a : Account)
        → account_check a ≡ true
        → marked a ≡ true
        → debit_side a.account_type ≡ side) where
    abbrev query : List Row
    query = gl_sums_by_account db scope f t

    query_sides : All (λ r. debit_side r.account.account_type ≡ side) query
    query_sides =
        All-weaken (λ r h. odd-false side (debit_side r.account.account_type) h) query
          (rows_stored db scope f t (λ a. odd side (debit_side a.account_type))
            (All-weaken
              (λ a ok_flags chosen.
                odd_self side (debit_side a.account_type)
                  (sided a ok_flags (sym (marks a) ∙ chosen)))
              t.accounts checked))

    abbrev weight : (ℕ → ℕ → ℕ) → Account → ℕ
    weight w a =
        w (column (λ l. l.debit) scope (dated (receivable_filter as_of)) t a)
          (column (λ l. l.credit) scope (dated (receivable_filter as_of)) t a)

    weight-marked :
        (w : ℕ → ℕ → ℕ) (a : Account)
        → when (a.scope == scope && selected f a) (
            w
              (column (λ l. l.debit) scope (dated f) t a)
              (column (λ l. l.credit) scope (dated f) t a))
          ≡ when (a.scope == scope && marked a) (weight w a)
    weight-marked w a = rw (same_dates, marks a) refl

    query_sum :
        (w : ℕ → ℕ → ℕ)
        → w 0 0 ≡ 0
        → sum_of (λ r. w r.debit_total r.credit_total) query
          ≡ sum_of (λ a. when (a.scope == scope && marked a) (weight w a)) t.accounts
    query_sum w zero_weight =
        sum_of-gl_sums_by_account db scope f t (λ a d c. w d c) (λ a. zero_weight)
        ∙ sum_of-eq_on _ _ t.accounts (All-of (weight-marked w) t.accounts)

    booked_eq :
        sum_of
          (λ e.
            when (e.scope == scope && dated (receivable_filter as_of) e.entry_date) e.total_debit)
          t.entries
        ≡ booked_total scope as_of t
    booked_eq = sum_of-eq_on _ _ t.entries (All-of (λ e. ground arith) t.entries)

    query_debits : sum_of (λ r. r.debit_total) query < precision_limit
    query_debits = omega (
      arith,
      query_sum (λ d c. d) refl,
      some_of (λ a. a.scope == scope) marked
          (column (λ l. l.debit) scope (dated (receivable_filter as_of)) t) t.accounts,
      columns_total (λ l. l.debit) (λ e. e.total_debit) scope (dated (receivable_filter as_of)) t
          valid (All-weaken (λ e b. b.debits) t.entries valid.booked),
      booked_eq,
      few,
    )

    query_credits : sum_of (λ r. r.credit_total) query < precision_limit
    query_credits = omega (
      arith,
      query_sum (λ d c. c) refl,
      some_of (λ a. a.scope == scope) marked
          (column (λ l. l.credit) scope (dated (receivable_filter as_of)) t) t.accounts,
      columns_total (λ l. l.credit) (λ e. e.total_debit) scope (dated (receivable_filter as_of)) t
          valid (All-weaken (λ e b. b.credits ∙ sym b.balanced) t.entries valid.booked),
      booked_eq,
      few,
    )

    query_open :
        open_lines query (pos 0)
        ≡ ok (
          map (side_line side) query,
          sub_ℕ (sum_of (own side) query) (sum_of (other side) query),
        )
    query_open =
        let e : 0 + sum_of (own side) query ≡ sum_of (own side) query = omega arith in
        let g : 0 + sum_of (other side) query ≡ sum_of (other side) query = omega arith in
        rw (← e, ← g) (open_lines-below side query 0 0 query_sides query_debits query_credits)

  -- On consistent tables whose accounts meet the CHECK constraints and whose entries up to the day
  -- add up to less than 10 ^ 28 hundredths, the receivables are returned: each row's debits less
  -- its credits, and in total the debits less the credits of the scope's receivable accounts.
  pub get_accounts_receivable_total :
      get_accounts_receivable db scope as_of t
      ≡ ok (
        map (side_line true) (gl_sums_by_account db scope (receivable_filter as_of) t),
        sub_ℕ
            (open_total (λ a. a.is_receivable) (λ l. l.debit) scope as_of t)
            (open_total (λ a. a.is_receivable) (λ l. l.credit) scope as_of t),
      )
  unfolding get_accounts_receivable
  get_accounts_receivable_total =
      let f = receivable_filter as_of in
      let marked = λ (a : Account). a.is_receivable in
      let marks = receivable-selected as_of in
      let debits = query_sum f marked true refl marks receivable-side (λ d c. d) refl in
      let credits = query_sum f marked true refl marks receivable-side (λ d c. c) refl in
      let few_debits = query_debits f marked true refl marks receivable-side in
      let few_credits = query_credits f marked true refl marks receivable-side in
      rw (query_open f marked true refl marks receivable-side)
        (rw (difference-below _ _ few_debits few_credits) (rw (debits, credits) refl))

  -- Under the same conditions the payables are returned: each row's credits less its debits, and
  -- in total the credits less the debits of the scope's payable accounts.
  pub get_accounts_payable_total :
      get_accounts_payable db scope as_of t
      ≡ ok (
        map (side_line false) (gl_sums_by_account db scope (payable_filter as_of) t),
        sub_ℕ
            (open_total (λ a. a.is_payable) (λ l. l.credit) scope as_of t)
            (open_total (λ a. a.is_payable) (λ l. l.debit) scope as_of t),
      )
  unfolding get_accounts_payable
  get_accounts_payable_total =
      let f = payable_filter as_of in
      let marked = λ (a : Account). a.is_payable in
      let marks = payable-selected as_of in
      let debits = query_sum f marked false refl marks payable-side (λ d c. d) refl in
      let credits = query_sum f marked false refl marks payable-side (λ d c. c) refl in
      let few_debits = query_debits f marked false refl marks payable-side in
      let few_credits = query_credits f marked false refl marks payable-side in
      rw (query_open f marked false refl marks payable-side)
        (rw (difference-below _ _ few_credits few_debits) (rw (debits, credits) refl))
