-- ===== src/Accounting/Reports.antt =====
-- The rows under the reports of app/accounting/service.py: `_gl_sums_by_account`. A joined query
-- is the sum over the pairs of an entry and a line that meet the conditions; an account is grouped
-- if it has such a pair.
pub mod Columns
pub mod Rows
pub mod TrialBalance
pub mod BalanceSheet
pub mod Receipts
pub mod ProfitLoss
pub mod Ledger
pub mod OpenItems
use sanmitra_backend.Base.{
  ℕ, ◌+◌, ◌≡◌, String, Bool, true, false, not, ◌&&◌, ◌||◌, Option, none, some, List, [], ◌∷◌, ◌++◌,
  ok, ◌>>=◌, ◌>>◌, leb, nat_beq, keep, any, map, if◌then◌else◌,
}
use sanmitra_backend.Base.Int.{ℤ, pos, ◌+ℤ◌, ◌-ℤ◌, sub_ℕ}
use sanmitra_backend.Base.Sums.{sum_of, when}
use sanmitra_backend.Base.Equality.{◌==◌}
use sanmitra_backend.Accounting.Errors.{Outcome}
use sanmitra_backend.Accounting.Decimal.{quantize_cents, quantize_signed}
use sanmitra_backend.Accounting.Entities.{
  Scope, scope_eq, Account, AccountType, asset, liability, equity, income, expense, JournalEntry,
  JournalLine, Tables,
}
use sanmitra_backend.Accounting.Store.{Database}

-- The optional conditions of `_gl_sums_by_account`.
pub record Filters : Type 0 where
  pub from_date : Option ℕ
  pub to_date : Option ℕ
  pub as_of : Option ℕ
  pub account_types : Option (List AccountType)
  pub only_cash_bank : Bool
  pub only_receivable : Bool
  pub only_payable : Bool

-- A row of the grouped query.
pub record Row : Type 0 where
  pub account : Account
  pub debit_total : ℕ
  pub credit_total : ℕ

abbrev type_code : AccountType → ℕ
type_code asset = 0
type_code liability = 1
type_code equity = 2
type_code income = 3
type_code expense = 4

abbrev pub same_type : AccountType → AccountType → Bool
same_type a b = nat_beq (type_code a) (type_code b)

abbrev pub within : Option ℕ → (ℕ → Bool) → Bool
within none p = true
within (some d) p = p d

abbrev pub type_in : Option (List AccountType) → AccountType → Bool
type_in none a = true
type_in (some types) a = any (same_type a) types

-- The conditions on the entry's date.
abbrev pub dated : Filters → ℕ → Bool
dated f date =
    within f.from_date (λ d. leb d date)
    && within f.to_date (λ d. leb date d)
    && within f.as_of (λ d. leb date d)

-- The conditions on the account.
abbrev pub selected : Filters → Account → Bool
selected f a =
    type_in f.account_types a.account_type
    && (not f.only_cash_bank || a.is_cash_bank)
    && (not f.only_receivable || a.is_receivable)
    && (not f.only_payable || a.is_payable)

-- The join, and the conditions on an entry and a line.
abbrev pub joins : Scope → (ℕ → Bool) → JournalEntry → JournalLine → Account → Bool
joins scope on_date e l a =
    e.scope == scope
    && on_date e.entry_date
    && l.scope == scope
    && nat_beq l.journal_id e.id
    && nat_beq l.account_id a.id

-- The sum of a column over an account's pairs of an entry and a line.
unfoldable pub column : (JournalLine → ℕ) → Scope → (ℕ → Bool) → Tables → Account → ℕ
column amount scope on_date t a =
    sum_of (λ e. sum_of (λ l. when (joins scope on_date e l a) (amount l)) t.lines) t.entries

pub has_pair : Scope → (ℕ → Bool) → Tables → Account → Bool
has_pair scope on_date t a = any (λ e. any (λ l. joins scope on_date e l a) t.lines) t.entries

pub row_of : Scope → (ℕ → Bool) → Tables → Account → Row
unfolding column
row_of scope on_date t a = record {
  account = a;
  debit_total = column (λ l. l.debit) scope on_date t a;
  credit_total = column (λ l. l.credit) scope on_date t a;
}

-- `_gl_sums_by_account`
pub gl_sums_by_account : Database → Scope → Filters → Tables → List Row
unfolding row_of has_pair
gl_sums_by_account db scope f t = map (row_of scope (dated f) t) (
    db.order_by_name
      (keep (λ a. a.scope == scope && selected f a && has_pair scope (dated f) t a) t.accounts))

-- `Decimal` sums, exact below the context's 28 digits.
abbrev pub difference : ℕ → ℕ → Outcome ℤ
difference a b = quantize_signed (sub_ℕ a b)

abbrev pub as_of_filter : ℕ → Option (List AccountType) → Filters
as_of_filter date types = record {
  from_date = none;
  to_date = none;
  as_of = some date;
  account_types = types;
  only_cash_bank = false;
  only_receivable = false;
  only_payable = false;
}
