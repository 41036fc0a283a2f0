-- ===== src/Accounting/Listing.antt =====
-- `list_journal_entries` and `get_journal_entry_detail` of app/accounting/service.py.
pub mod Pages
pub mod Detail
use sanmitra_backend.Base.{
  ℕ, zero, suc, Bool, true, false, ◌&&◌, ◌||◌, Option, none, some, List, [], ◌∷◌, map, ok, err,
  ◌>>=◌, keep, ltb, leb, nat_beq, if◌then◌else◌,
}
use sanmitra_backend.Base.Equality.{◌==◌}
use sanmitra_backend.Accounting.Errors.{Outcome, not_found, journal}
use sanmitra_backend.Accounting.Entities.{Scope, scope_eq, JournalEntry, JournalLine, Tables}
use sanmitra_backend.Accounting.Store.{scalar_one_or_none}
use sanmitra_backend.Accounting.Reports.{within}

module _ {A : Type 0} where
  -- LIMIT
  abbrev pub take : ℕ → List A → List A
  take zero xs = []
  take (suc n) [] = []
  take (suc n) (x ∷ xs) = x ∷ take n xs

  -- OFFSET
  abbrev pub drop : ℕ → List A → List A
  drop zero xs = xs
  drop (suc n) [] = []
  drop (suc n) (x ∷ xs) = drop n xs

-- `ORDER BY entry_date DESC, id DESC`: whether the one entry comes before the other.
abbrev pub before : JournalEntry → JournalEntry → Bool
before a b = ltb b.entry_date a.entry_date || nat_beq b.entry_date a.entry_date && ltb b.id a.id

abbrev pub insert_ordered : JournalEntry → List JournalEntry → List JournalEntry
insert_ordered e [] = e ∷ []
insert_ordered e (x ∷ xs) = if before e x then e ∷ x ∷ xs else x ∷ insert_ordered e xs

abbrev pub order_by_recent : List JournalEntry → List JournalEntry
order_by_recent [] = []
order_by_recent (e ∷ es) = insert_ordered e (order_by_recent es)

-- `selectinload(JournalEntry.lines)`, in the table's order.
abbrev pub entry_with_lines : Tables → JournalEntry → JournalEntry × List JournalLine
entry_with_lines t e = (e, keep (λ l. nat_beq l.journal_id e.id) t.lines)

-- The entries of the scope between two optional days.
abbrev pub listed_between : Scope → Option ℕ → Option ℕ → JournalEntry → Bool
listed_between scope from_date to_date e =
    e.scope == scope
    && within from_date (λ d. leb d e.entry_date)
    && within to_date (λ d. leb e.entry_date d)

unfoldable pub list_journal_entries :
    Scope → Option ℕ → Option ℕ → ℕ → ℕ → Tables → List (JournalEntry × List JournalLine)
list_journal_entries scope from_date to_date limit offset t = map (entry_with_lines t) (
    take limit
      (drop offset (order_by_recent (keep (listed_between scope from_date to_date) t.entries))))

pub entry_found : Option JournalEntry → Outcome JournalEntry
entry_found none = err (not_found journal)
entry_found (some e) = ok e

unfoldable pub get_journal_entry_detail :
    Scope → ℕ → Tables → Outcome (JournalEntry × List JournalLine)
unfolding entry_found
get_journal_entry_detail scope journal_id t = do
  row ← scalar_one_or_none (keep (λ e. nat_beq e.id journal_id && e.scope == scope) t.entries)
  e ← entry_found row
  ok (entry_with_lines t e)
