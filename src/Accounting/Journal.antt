-- ===== src/Accounting/Journal.antt =====
-- `post_journal_entry` of app/accounting/service.py.
pub mod Invariant
pub mod Inserts
pub mod Posting
pub mod Preserves
pub mod Idempotency
pub mod Total
pub mod Isolation
use sanmitra_backend.Base.{
  ℕ, String, ◌≡◌, Bool, true, false, not, ◌&&◌, Option, none, some, List, [], ◌∷◌, map, ok, ◌>>=◌,
  ◌>>◌, raise_if, keep, any,
}
use sanmitra_backend.Base.Text.{is_empty}
use sanmitra_backend.Base.Equality.{◌==◌, contains, nat_eq}
use sanmitra_backend.Accounting.Errors.{Outcome, not_found, accounts}
use sanmitra_backend.Accounting.Lines.{LineIn, Line, validate_journal_lines}
use sanmitra_backend.Accounting.Entities.{Scope, scope_eq, JournalEntry, JournalLine, Tables}
use sanmitra_backend.Accounting.Store.{
  Database, scalar_one_or_none, same_key, insert_entry, insert_line,
}

pub record JournalPostRequest : Type 0 where
  pub entry_date : ℕ
  pub description : Option String
  pub reference : Option String
  pub lines : List (LineIn ℕ)

-- `if idempotency_key:`
abbrev pub truthy : Option String → Bool
truthy none = false
truthy (some s) = not (is_empty s)

-- The entries of the scope that carry the key.
unfoldable pub entries_with_key : Scope → Option String → Tables → List JournalEntry
entries_with_key scope key t =
    keep (λ e. e.scope == scope && same_key e.idempotency_key key) t.entries

-- The `if idempotency_key:` block.
pub find_posted : Scope → Option String → Tables → Outcome (Option JournalEntry)
unfolding entries_with_key
find_posted scope key t = elim (truthy key) [
  | true ↦ scalar_one_or_none (entries_with_key scope key t)
  | false ↦ ok none
]

-- `available_account_ids`
unfoldable pub available_account_ids : Scope → Tables → List ℕ
available_account_ids scope t = map (λ a. a.id) (keep (λ a. a.scope == scope) t.accounts)

unfoldable pub has_missing : List ℕ → List (Line ℕ) → Bool
has_missing available ls = any (λ l. not (contains available l.key)) ls

abbrev pub line_row : JournalEntry → Line ℕ → JournalLine
line_row e l = record {
  id = 0;
  scope = e.scope;
  journal_id = e.id;
  account_id = l.key;
  debit = l.debit;
  credit = l.credit;
}

-- The loop that adds the lines.
pub insert_lines : Database → JournalEntry → List (Line ℕ) → Tables → Outcome Tables
insert_lines db e [] t = ok t
insert_lines db e (l ∷ ls) t = do t' ← insert_line db (line_row e l) t; insert_lines db e ls t'

abbrev pub entry_row : Scope → String → JournalPostRequest → Option String → ℕ → ℕ → JournalEntry
entry_row scope created_by payload key total_debit total_credit = record {
  id = 0;
  scope = scope;
  entry_date = payload.entry_date;
  description = payload.description;
  reference = payload.reference;
  idempotency_key = key;
  total_debit = total_debit;
  total_credit = total_credit;
  created_by = created_by;
}

-- From the accounts' query to the commit.
pub add_entry :
    Database
    → Scope
    → String
    → JournalPostRequest
    → Option String
    → ℕ
    → ℕ
    → List (Line ℕ)
    → Tables
    → Outcome (JournalEntry × Bool × Tables)
unfolding available_account_ids has_missing insert_lines
add_entry db scope created_by payload key total_debit total_credit normalized t = do
  raise_if (has_missing (available_account_ids scope t) normalized) (not_found accounts)
  (e, t') ← insert_entry db (entry_row scope created_by payload key total_debit total_credit) t
  t'' ← insert_lines db e normalized t'
  ok (e, true, t'')

unfoldable pub post_journal_entry :
    Database
    → Scope
    → String
    → JournalPostRequest
    → Option String
    → Tables
    → Outcome (JournalEntry × Bool × Tables)
unfolding find_posted add_entry
post_journal_entry db scope created_by payload key t = do
  (total_debit, total_credit, normalized) ← validate_journal_lines payload.lines
  existing ← find_posted scope key t
  elim existing [
    | some e ↦ ok (e, false, t)
    | none ↦ add_entry db scope created_by payload key total_debit total_credit normalized t
  ]
