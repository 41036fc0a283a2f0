-- ===== src/Accounting/Journal/Invariant.antt =====
-- What holds of the accounting tables between requests: the primary keys of accounts and entries
-- are unique, an idempotency key occurs once in a scope, every entry is balanced by its own lines,
-- and every line stands in the scope of its entry and of its account.
use sanmitra_backend.Base.{
  ℕ, ◌≡◌, ◌<◌, ◌≤◌, String, true, false, ◌&&◌, Option, List, [], ◌∷◌, map, All, any, nat_beq,
  length,
}
use sanmitra_backend.Base.Sums.{sum_of, when}
use sanmitra_backend.Base.Equality.{◌==◌, contains, nat_eq}
use sanmitra_backend.Accounting.Entities.{
  Scope, scope_eq, Account, JournalEntry, JournalLine, Tables,
}
use sanmitra_backend.Accounting.Journal.{entries_with_key}

abbrev pub Distinct : List ℕ → Type 0
Distinct [] = Unit
Distinct (x ∷ xs) = (contains xs x ≡ false) × Distinct xs

-- The debits and the credits of the lines of one entry.
abbrev pub debits_of : ℕ → List JournalLine → ℕ
debits_of id ls = sum_of (λ l. when (nat_beq l.journal_id id) l.debit) ls

abbrev pub credits_of : ℕ → List JournalLine → ℕ
credits_of id ls = sum_of (λ l. when (nat_beq l.journal_id id) l.credit) ls

-- Double entry.
pub record Booked (ls : List JournalLine) (e : JournalEntry) : Type 0 where
  pub debits : debits_of e.id ls ≡ e.total_debit
  pub credits : credits_of e.id ls ≡ e.total_credit
  pub balanced : e.total_debit ≡ e.total_credit
  pub positive : 0 < e.total_debit

pub record Placed (es : List JournalEntry) (rows : List Account) (l : JournalLine) : Type 0 where
  pub entry : any (λ e. nat_beq e.id l.journal_id && e.scope == l.scope) es ≡ true
  pub account : any (λ a. nat_beq a.id l.account_id && a.scope == l.scope) rows ≡ true

pub record IsConsistent (t : Tables) : Type 0 where
  pub account_ids : Distinct (map (λ a. a.id) t.accounts)
  pub entry_ids : Distinct (map (λ e. e.id) t.entries)
  pub keys : (s : Scope) (k : Option String) → length (entries_with_key s k t) ≤ 1
  pub booked : All (Booked t.lines) t.entries
  pub placed : All (Placed t.entries t.accounts) t.lines
