-- ===== src/Accounting/Reports/Ledger.antt =====
-- `get_ledger_lines` of app/accounting/service.py.
pub mod Running
use sanmitra_backend.Base.{
  ℕ, ◌+◌, String, Bool, true, ◌&&◌, Option, none, some, List, [], ◌∷◌, ◌++◌, map, ok, err, ◌>>=◌,
  keep, nat_beq,
}
use sanmitra_backend.Base.Int.{ℤ, pos, ◌+ℤ◌, sub_ℕ}
use sanmitra_backend.Base.Equality.{◌==◌}
use sanmitra_backend.Accounting.Errors.{Outcome, not_found, account}
use sanmitra_backend.Accounting.Entities.{
  Scope, scope_eq, Account, JournalEntry, JournalLine, Tables,
}
use sanmitra_backend.Accounting.Store.{Database, scalar_one_or_none}
use sanmitra_backend.Accounting.Reports.{joins}

pub record LedgerLine : Type 0 where
  pub journal_id : ℕ
  pub entry_date : ℕ
  pub reference : Option String
  pub description : Option String
  pub debit : ℕ
  pub credit : ℕ
  pub running_balance : ℤ

pub account_found : Option Account → Outcome Account
account_found none = err (not_found account)
account_found (some a) = ok a

-- The joined query, an entry's lines after another's.
abbrev pub entry_lines :
    Scope → Account → JournalEntry → List JournalLine → List (JournalEntry × JournalLine)
entry_lines scope a e ls = map (λ l. (e, l)) (keep (λ l. joins scope (λ date. true) e l a) ls)

abbrev pub ledger_rows :
    Scope → Account → List JournalLine → List JournalEntry → List (JournalEntry × JournalLine)
ledger_rows scope a ls [] = []
ledger_rows scope a ls (e ∷ es) = entry_lines scope a e ls ++ ledger_rows scope a ls es

-- The loop, from a running balance.
pub ledger_lines : ℤ → List (JournalEntry × JournalLine) → List LedgerLine
ledger_lines running [] = []
ledger_lines running ((e, l) ∷ rows) =
    let running' = running +ℤ sub_ℕ l.debit l.credit in
    record {
      journal_id = l.journal_id;
      entry_date = e.entry_date;
      reference = e.reference;
      description = e.description;
      debit = l.debit;
      credit = l.credit;
      running_balance = running';
    }
    ∷ ledger_lines running' rows

unfoldable pub get_ledger_lines :
    Database → Scope → ℕ → Tables → Outcome (Account × List LedgerLine)
unfolding account_found ledger_lines
get_ledger_lines db scope account_id t = do
  row ← scalar_one_or_none (keep (λ a. nat_beq a.id account_id && a.scope == scope) t.accounts)
  a ← account_found row
  ok (a, ledger_lines (pos 0) (db.order_ledger (ledger_rows scope a t.lines t.entries)))
