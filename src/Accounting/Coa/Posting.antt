-- ===== src/Accounting/Coa/Posting.antt =====
-- `post_source_journal_entry` and `_source_idempotency_key` of app/accounting/service.py.
pub mod Key
pub mod Sound
use sanmitra_backend.Base.{
  ℕ, ◌≡◌, String, Bool, true, false, not, ◌&&◌, Option, none, some, List, [], ◌∷◌, map, ok, err,
  ◌>>=◌,
}
use sanmitra_backend.Base.Text.{is_empty, strip, take_text, append_text}
use sanmitra_backend.Base.Equality.{◌==◌, contains, string_eq}
use sanmitra_backend.Accounting.Errors.{
  Outcome, not_found, source_codes, validation, unmapped_codes,
}
use sanmitra_backend.Accounting.Decimal.{Amount}
use sanmitra_backend.Accounting.Lines.{LineIn, Line, validate_source_journal_lines}
use sanmitra_backend.Accounting.Entities.{
  Scope, scope_eq, SourceSystem, CoaSourceAccount, CoaMapping, active, JournalEntry, Tables,
}
use sanmitra_backend.Accounting.Store.{Database}
use sanmitra_backend.Accounting.Journal.{JournalPostRequest, truthy, post_journal_entry}
use sanmitra_backend.Accounting.Table.{find_last}
use sanmitra_backend.Accounting.Coa.Systems.{system_name, system_eq, status_eq}
use sanmitra_backend.Accounting.Coa.Rows.{has_code, maps_source}

-- `_source_idempotency_key`
pub source_idempotency_key : SourceSystem → Option String → Option String
source_idempotency_key system none = none
source_idempotency_key system (some key) = elim (is_empty key) [
  | true ↦ none
  | false ↦ some (take_text 120 (append_text (system_name system) (append_text ":" (strip key))))
]

pub record SourceJournalPostRequest : Type 0 where
  pub source_system : SourceSystem
  pub entry_date : ℕ
  pub description : Option String
  pub reference : Option String
  pub lines : List (LineIn String)

-- The source account of a line: `source_by_code`, of the accounts in use.
unfoldable pub line_source : Scope → SourceSystem → Tables → String → Option CoaSourceAccount
line_source scope system t code =
    find_last (λ r. has_code scope system code r && r.is_active) t.source_accounts

-- `mapping_by_source_id`, of the active mappings.
unfoldable pub line_mapping : Scope → Tables → ℕ → Option CoaMapping
line_mapping scope t source_id =
    find_last (λ m. maps_source scope source_id m && m.status == active) t.mappings

pub source_found : Option CoaSourceAccount → Outcome CoaSourceAccount
source_found none = err (not_found source_codes)
source_found (some r) = ok r

pub mapping_found : Option CoaMapping → Outcome CoaMapping
mapping_found none = err (validation unmapped_codes)
mapping_found (some m) = ok m

-- All source accounts, or the exception for the codes without one.
pub line_sources :
    Scope
    → SourceSystem
    → Tables
    → List (Line String)
    → Outcome (List (CoaSourceAccount × Line String))
unfolding source_found
line_sources scope system t [] = ok []
line_sources scope system t (l ∷ ls) = do
  r ← source_found (line_source scope system t l.key)
  rest ← line_sources scope system t ls
  ok ((r, l) ∷ rest)

-- An item of `resolved_lines`.
pub record Resolved : Type 0 where
  pub source_account_code : String
  pub canonical_account_id : ℕ
  pub debit : ℕ
  pub credit : ℕ

-- All mappings, or the exception for the accounts without an active one.
pub resolve_lines : Scope → Tables → List (CoaSourceAccount × Line String) → Outcome (List Resolved)
unfolding mapping_found
resolve_lines scope t [] = ok []
resolve_lines scope t ((r, l) ∷ pairs) = do
  m ← mapping_found (line_mapping scope t r.id)
  rest ← resolve_lines scope t pairs
  ok (
      record {
        source_account_code = l.key;
        canonical_account_id = m.canonical_account_id;
        debit = l.debit;
        credit = l.credit;
      }
      ∷ rest)

-- Hundredths as a `Decimal`.
abbrev pub cents : ℕ → Amount
cents n = record { units = n; places = 2 }

-- An item of `canonical_lines`.
abbrev pub canonical_line : Resolved → LineIn ℕ
canonical_line r = record {
  key = r.canonical_account_id;
  debit = cents r.debit;
  credit = cents r.credit;
}

abbrev pub canonical_payload : SourceJournalPostRequest → List Resolved → JournalPostRequest
canonical_payload payload resolved = record {
  entry_date = payload.entry_date;
  description = payload.description;
  reference = payload.reference;
  lines = map canonical_line resolved;
}

unfoldable pub post_source_journal_entry :
    Database
    → Scope
    → String
    → SourceJournalPostRequest
    → Option String
    → Tables
    → Outcome (JournalEntry × Bool × List Resolved × Tables)
unfolding source_idempotency_key line_sources resolve_lines
post_source_journal_entry db scope created_by payload key t = do
  (td, tc, normalized) ← validate_source_journal_lines payload.lines
  pairs ← line_sources scope payload.source_system t normalized
  resolved ← resolve_lines scope t pairs
  (e, created, t') ←
      post_journal_entry db scope created_by (canonical_payload payload resolved)
        (source_idempotency_key payload.source_system key) t
  ok (e, created, resolved, t')
