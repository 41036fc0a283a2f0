-- ===== src/Accounting/Journal/Isolation.antt =====
-- A posting reaches no other scope.
use sanmitra_backend.Base.{
  ℕ, ◌≡◌, ◌≢◌, refl, ap, String, Bool, false, Option, List, [], ◌∷◌, ◌++◌, keep, ok, arith, inl,
  inr,
}
use sanmitra_backend.Base.Equality.{◌==◌}
use sanmitra_backend.Accounting.Lines.{Line}
use sanmitra_backend.Accounting.Entities.{Scope, scope_eq, JournalEntry, JournalLine, Tables}
use sanmitra_backend.Accounting.Store.{Database}
use sanmitra_backend.Accounting.Journal.{JournalPostRequest, post_journal_entry}
use sanmitra_backend.Accounting.Journal.Inserts.{AllStore}
use sanmitra_backend.Accounting.Journal.Posting.{post_journal_entry_sound}

-- The rows that a scope can read.
pub entries_of : Scope → Tables → List JournalEntry
entries_of s t = keep (λ e. e.scope == s) t.entries

pub lines_of : Scope → Tables → List JournalLine
lines_of s t = keep (λ l. l.scope == s) t.lines

keep-append_none :
    (s : Scope) (rows : List JournalLine) (new : List JournalLine) (e : JournalEntry)
    (ls : List (Line ℕ))
    → (e.scope == s) ≡ false
    → AllStore e new ls
    → keep (λ l. l.scope == s) (rows ++ new) ≡ keep (λ l. l.scope == s) rows
keep-append_none s [] [] e [] other st = refl
keep-append_none s [] (row ∷ new) e (l ∷ ls) other (st, sts) =
    ground (arith, keep-append_none s [] new e ls other sts, ap (λ x. x == s) st.scope)
keep-append_none s (r ∷ rows) new e ls other st =
    ground (arith, keep-append_none s rows new e ls other st)
keep-append_none s [] [] e (l ∷ ls) other st = absurd st
keep-append_none s [] (row ∷ new) e [] other st = absurd st

keep_entry-none :
    (s : Scope) (es : List JournalEntry) (e : JournalEntry)
    → (e.scope == s) ≡ false
    → keep (λ e. e.scope == s) (es ++ e ∷ []) ≡ keep (λ e. e.scope == s) es
keep_entry-none s [] e other = ground arith
keep_entry-none s (o ∷ es) e other = ground (arith, keep_entry-none s es e other)

-- Tenant isolation: a successful posting leaves what every other scope can read of the journal
-- (its entries and its lines) and the account and mapping tables as they are.
pub post_journal_entry-isolated :
    (db : Database) (scope : Scope) (created_by : String) (payload : JournalPostRequest)
    (key : Option String) (t : Tables) {e : JournalEntry} {created : Bool} {t' : Tables}
    → post_journal_entry db scope created_by payload key t ≡ ok (e, created, t')
    → (s : Scope) → s ≢ scope
    → (entries_of s t' ≡ entries_of s t)
      × (lines_of s t' ≡ lines_of s t)
      × (t'.accounts ≡ t.accounts)
      × (t'.source_accounts ≡ t.source_accounts)
      × (t'.mappings ≡ t.mappings)
unfolding entries_of lines_of
post_journal_entry-isolated db scope created_by payload key t {e} h s ne =
    elim (post_journal_entry_sound db scope created_by payload key t h) [
      | inl (old, same, found) ↦ rw same (refl, refl, refl, refl, refl)
      | inr p ↦
          let other : (e.scope == s) ≡ false =
            ground (arith, ap (λ x. x.scope) p.adds.row, scope_eq.equal_iff e.scope s) in
          rw p.result (
            keep_entry-none s t.entries e other,
            keep-append_none s t.lines p.new e p.ls other p.adds.stored,
            refl,
            refl,
            refl,
          )
    ]
