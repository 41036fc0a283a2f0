-- ===== src/Accounting/Listing/Detail.antt =====
-- What the detail of an entry shows.
use sanmitra_backend.Base.{ℕ, ◌≡◌, refl, ◌∙◌, true, ◌&&◌, List, ok, keep, any, nat_beq}
use sanmitra_backend.Base.Sums.{sum_of, sum_of-keep}
use sanmitra_backend.Base.Equality.{◌==◌}
use sanmitra_backend.Accounting.Entities.{Scope, scope_eq, JournalEntry, JournalLine, Tables}
use sanmitra_backend.Accounting.Journal.Invariant.{IsConsistent, Booked}
use sanmitra_backend.Accounting.Table.Unique.{scalar_one_or_none_unique, scalar_one_or_none-All}
use sanmitra_backend.Accounting.Listing.{entry_found, get_journal_entry_detail}

-- On consistent tables, the detail of an entry of the scope is returned: it is that entry, with
-- lines whose debits and credits add up to its totals, which are equal.
pub get_journal_entry_detail_balanced :
    (scope : Scope) (journal_id : ℕ) (t : Tables)
    → IsConsistent t
    → any (λ e. nat_beq e.id journal_id && e.scope == scope) t.entries ≡ true
    → (e : JournalEntry) × (ls : List JournalLine) × (get_journal_entry_detail scope journal_id t
        ≡ ok (e, ls))
      × (e.id ≡ journal_id)
      × (e.scope ≡ scope)
      × (sum_of (λ l. l.debit) ls ≡ e.total_debit)
      × (sum_of (λ l. l.credit) ls ≡ e.total_credit)
      × (e.total_debit ≡ e.total_credit)
unfolding get_journal_entry_detail entry_found
get_journal_entry_detail_balanced scope journal_id t valid h =
    let (e, found, same_id, same_scope) =
      scalar_one_or_none_unique (λ e. e.id) journal_id (λ e. e.scope == scope) t.entries
        valid.entry_ids h in
    let booked =
      scalar_one_or_none-All (λ e. nat_beq e.id journal_id && e.scope == scope) (Booked t.lines)
        t.entries e valid.booked found in
    (
      e,
      keep (λ l. nat_beq l.journal_id e.id) t.lines,
      rw found refl,
      same_id,
      (scope_eq.equal_iff e.scope scope).0 same_scope,
      sum_of-keep _ (λ l. l.debit) t.lines ∙ booked.debits,
      sum_of-keep _ (λ l. l.credit) t.lines ∙ booked.credits,
      booked.balanced,
    )
