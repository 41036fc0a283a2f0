-- ===== src/Accounting/Store.antt =====
-- The session on the tables: the constraints that app/accounting/models/entities.py declares,
-- tested when a row is flushed, and the queries' results. PostgreSQL itself is no code of the
-- repository: how it numbers new rows and sorts texts is the parameter `Database`.
-- A request's changes are kept only if no exception leaves the request, so a function that
-- raises returns no tables.
use mathlib.Core.List.{Perm}
use sanmitra_backend.Base.{
  ℕ, ◌≡◌, ◌^◌, String, Bool, true, false, not, ◌&&◌, ◌||◌, Option, none, some, List, [], ◌∷◌, ◌++◌,
  map, ok, err, ◌>>◌, raise_if, ltb, leb, nat_beq, any,
}
use sanmitra_backend.Base.Text.{text_length}
use sanmitra_backend.Base.Equality.{◌==◌, contains, nat_eq, string_eq}
use sanmitra_backend.Accounting.Errors.{Outcome, multiple_results, integrity, data_error}
use sanmitra_backend.Accounting.Entities.{
  scope_eq, Account, AccountType, asset, liability, JournalEntry, JournalLine, CoaSourceAccount,
  CoaMapping, Tables,
}

-- What the service relies on of PostgreSQL: a new row's primary key is unused in its table, and
-- ORDER BY returns the same rows in some order.
pub record Database : Type 0 where
  pub next_id : List ℕ → ℕ
  pub next_id_fresh : (ids : List ℕ) → contains ids (next_id ids) ≡ false
  pub order_by_name : List Account → List Account
  pub order_by_name-perm : (rows : List Account) → Perm (order_by_name rows) rows
  pub order_by_code : List CoaSourceAccount → List CoaSourceAccount
  pub order_joined :
      List (CoaMapping × CoaSourceAccount × Account)
      → List (CoaMapping × CoaSourceAccount × Account)
  pub order_joined-perm :
      (rows : List (CoaMapping × CoaSourceAccount × Account)) → Perm (order_joined rows) rows
  pub order_ledger : List (JournalEntry × JournalLine) → List (JournalEntry × JournalLine)
  pub order_ledger-perm : (rows : List (JournalEntry × JournalLine)) → Perm (order_ledger rows) rows
  pub order_by_code-perm : (rows : List CoaSourceAccount) → Perm (order_by_code rows) rows

-- `scalar_one_or_none`
unfoldable pub scalar_one_or_none {ℓ} : {A : Type ℓ} → List A → Outcome (Option A)
scalar_one_or_none [] = ok none
scalar_one_or_none (x ∷ []) = ok (some x)
scalar_one_or_none (x ∷ y ∷ xs) = err multiple_results

-- `String(n)`, of a text and of a nullable column
abbrev pub fits : ℕ → String → Bool
fits n s = leb (text_length s) n

abbrev pub fits? : ℕ → Option String → Bool
fits? n none = true
fits? n (some s) = fits n s

-- `Numeric(15, 2)`, in hundredths
abbrev pub numeric_limit : ℕ
numeric_limit = 10 ^ 15

-- Equal keys of a UNIQUE constraint; NULL is equal to nothing.
abbrev pub same_key : Option String → Option String → Bool
same_key (some a) (some b) = a == b
same_key _ _ = false

abbrev is_asset : AccountType → Bool
is_asset asset = true
is_asset _ = false

abbrev is_liability : AccountType → Bool
is_liability liability = true
is_liability _ = false

-- The column types and CHECK constraints of `Account`.
unfoldable pub account_fits : Account → Bool
account_fits a =
    fits 50 a.scope.app_key
    && fits 64 a.scope.tenant_id
    && fits 100 a.scope.accounting_entity_id
    && fits? 30 a.code
    && fits 200 a.name

unfoldable pub account_check : Account → Bool
account_check a =
    not (a.is_receivable && a.is_payable)
    && (not a.is_receivable || is_asset a.account_type)
    && (not a.is_payable || is_liability a.account_type)
    && (not a.is_cash_bank || is_asset a.account_type)

unfoldable pub insert_account : Database → Account → Tables → Outcome (Account × Tables)
unfolding account_fits account_check
insert_account db row t = do
  raise_if (not (account_fits row)) data_error
  raise_if (not (account_check row)) integrity
  raise_if (any (λ a. a.scope == row.scope && same_key a.code row.code) t.accounts) integrity
  let a = record row { id = db.next_id (map (λ a. a.id) t.accounts) }
  ok (a, record t { accounts = t.accounts ++ a ∷ [] })

-- The column types and CHECK constraints of `JournalEntry`.
unfoldable pub entry_fits : JournalEntry → Bool
entry_fits e =
    fits 50 e.scope.app_key
    && fits 64 e.scope.tenant_id
    && fits 100 e.scope.accounting_entity_id
    && fits? 120 e.reference
    && fits? 120 e.idempotency_key
    && fits 120 e.created_by
    && ltb e.total_debit numeric_limit
    && ltb e.total_credit numeric_limit

unfoldable pub entry_check : JournalEntry → Bool
entry_check e = nat_beq e.total_debit e.total_credit && ltb 0 e.total_debit && ltb 0 e.total_credit

unfoldable pub insert_entry : Database → JournalEntry → Tables → Outcome (JournalEntry × Tables)
unfolding entry_fits entry_check
insert_entry db row t = do
  raise_if (not (entry_fits row)) data_error
  raise_if (not (entry_check row)) integrity
  raise_if
      (any (λ e. e.scope == row.scope && same_key e.idempotency_key row.idempotency_key) t.entries)
      integrity
  let e = record row { id = db.next_id (map (λ e. e.id) t.entries) }
  ok (e, record t { entries = t.entries ++ e ∷ [] })

-- The column types, CHECK constraints and foreign keys of `JournalLine`.
unfoldable pub line_fits : JournalLine → Bool
line_fits l =
    fits 50 l.scope.app_key
    && fits 64 l.scope.tenant_id
    && fits 100 l.scope.accounting_entity_id
    && ltb l.debit numeric_limit
    && ltb l.credit numeric_limit

unfoldable pub line_check : JournalLine → Bool
line_check l = nat_beq l.debit 0 && ltb 0 l.credit || nat_beq l.credit 0 && ltb 0 l.debit

unfoldable pub insert_line : Database → JournalLine → Tables → Outcome Tables
unfolding line_fits line_check
insert_line db row t = do
  raise_if (not (line_fits row)) data_error
  raise_if (not (line_check row)) integrity
  raise_if (not (contains (map (λ e. e.id) t.entries) row.journal_id)) integrity
  raise_if (not (contains (map (λ a. a.id) t.accounts) row.account_id)) integrity
  let l = record row { id = db.next_id (map (λ l. l.id) t.lines) }
  ok (record t { lines = t.lines ++ l ∷ [] })
