-- ===== src/Accounting/Journal/Idempotency.antt =====
-- A repeated request, and what an empty idempotency key does.
use sanmitra_backend.Base.{
  ℕ, ◌≡◌, refl, sym, ap, ◌∙◌, String, Bool, true, false, ◌&&◌, none, some, List, [], ◌∷◌, ◌++◌, any,
  keep, ok, err, arith, inl, inr, Bool-cases,
}
use sanmitra_backend.Base.Text.{is_empty}
use sanmitra_backend.Base.Equality.{◌==◌, nat_eq, string_eq, equal_self}
use sanmitra_backend.Accounting.Errors.{integrity}
use sanmitra_backend.Accounting.Lines.{Line}
use sanmitra_backend.Accounting.Lines.Spec.{IsPosting}
use sanmitra_backend.Accounting.Lines.Laws.{validate_journal_lines_iff}
use sanmitra_backend.Accounting.Entities.{Scope, scope_eq, JournalEntry, JournalLine, Tables}
use sanmitra_backend.Accounting.Store.{
  Database, same_key, scalar_one_or_none, insert_entry, entry_fits, entry_check,
}
use sanmitra_backend.Accounting.Journal.{
  JournalPostRequest, entries_with_key, find_posted, available_account_ids, has_missing, entry_row,
  post_journal_entry,
}
use sanmitra_backend.Accounting.Journal.Posting.{Adds, with_entry, post_journal_entry_sound}

module _ {ℓ} {A : Type ℓ} where
  scalar-none : (xs : List A) → scalar_one_or_none xs ≡ ok none → xs ≡ []
  unfolding scalar_one_or_none
  scalar-none [] h = refl
  scalar-none (x ∷ []) h = cc
  scalar-none (x ∷ y ∷ xs) h = cc

  keep-append_kept :
      (p : A → Bool) (xs : List A) (x : A)
      → keep p xs ≡ []
      → p x ≡ true
      → keep p (xs ++ x ∷ []) ≡ x ∷ []
  keep-append_kept p [] x none_kept h = ground arith
  keep-append_kept p (y ∷ xs) x none_kept h = ground (arith, keep-append_kept p xs x)

module _ (db : Database) (scope : Scope) (created_by : String) (payload : JournalPostRequest)
    (k : String) (given : is_empty k ≡ false) (t : Tables) where
  find_given :
      (u : Tables)
      → find_posted scope (some k) u ≡ scalar_one_or_none (entries_with_key scope (some k) u)
  unfolding find_posted
  find_given u = ground (arith, given)

  added_found :
      {td tc : ℕ} {ls : List (Line ℕ)} (e : JournalEntry) {new : List JournalLine}
      → Adds db scope created_by payload (some k) t td tc ls e new
      → find_posted scope (some k) t ≡ ok none
      → entries_with_key scope (some k) (with_entry t e new) ≡ e ∷ []
  unfolding entries_with_key
  added_found e adds unposted =
      keep-append_kept (λ o. o.scope == scope && same_key o.idempotency_key (some k)) t.entries e
        (scalar-none _ (sym (find_given t) ∙ unposted))
        (rw adds.row (ground (arith, equal_self scope, equal_self k)))

  -- After a success the search for the key finds the entry that was returned.
  found_again :
      {e : JournalEntry} {created : Bool} {t' : Tables}
      → post_journal_entry db scope created_by payload (some k) t ≡ ok (e, created, t')
      → find_posted scope (some k) t' ≡ ok (some e)
  unfolding scalar_one_or_none
  found_again {e} h = elim (post_journal_entry_sound db scope created_by payload (some k) t h) [
    | inl (old, same, found) ↦ rw same found
    | inr p ↦ rw p.result (find_given _ ∙ ap scalar_one_or_none (added_found e p.adds p.unposted))
  ]

  -- A request with a non-empty idempotency key can be repeated: after a success, any valid request
  -- of the same scope with the same key, whoever sends it and whatever else it holds, returns the
  -- same entry, reports that nothing was created, and changes nothing.
  pub post_journal_entry_replay :
      (created_by' : String) (payload' : JournalPostRequest) {e : JournalEntry} {created : Bool}
      {t' : Tables} {td tc : ℕ} {ls : List (Line ℕ)}
      → post_journal_entry db scope created_by payload (some k) t ≡ ok (e, created, t')
      → IsPosting (λ _. true) payload'.lines td tc ls
      → post_journal_entry db scope created_by' payload' (some k) t' ≡ ok (e, false, t')
  unfolding post_journal_entry
  post_journal_entry_replay created_by' payload' {td} {tc} {ls} h p =
      rw ((validate_journal_lines_iff payload'.lines td tc ls).1 p) (rw (found_again h))

insert_entry-taken :
    (db : Database) (row : JournalEntry) (t : Tables)
    → entry_fits row ≡ true
    → any (λ e. e.scope == row.scope && same_key e.idempotency_key row.idempotency_key) t.entries
      ≡ true
    → insert_entry db row t ≡ err integrity
unfolding insert_entry
insert_entry-taken db row t size taken =
    rw (size, taken) (elim (Bool-cases (entry_check row)) [ inl c ↦ rw c | inr c ↦ rw c ])

-- The empty key counts as no key in the search and as a key in the table: once a scope has an
-- entry with the empty key, a valid request of that scope with the empty key, on accounts of the
-- scope and within the columns' sizes, is refused by the UNIQUE constraint.
pub empty_key_conflict :
    (db : Database) (scope : Scope) (created_by : String) (payload : JournalPostRequest)
    (t : Tables) {td tc : ℕ} {ls : List (Line ℕ)}
    → any (λ o. o.scope == scope && same_key o.idempotency_key (some "")) t.entries ≡ true
    → IsPosting (λ _. true) payload.lines td tc ls
    → has_missing (available_account_ids scope t) ls ≡ false
    → entry_fits (entry_row scope created_by payload (some "") td tc) ≡ true
    → post_journal_entry db scope created_by payload (some "") t ≡ err integrity
unfolding post_journal_entry
empty_key_conflict db scope created_by payload t {td} {tc} {ls} taken p found size =
    rw ((validate_journal_lines_iff payload.lines td tc ls).1 p)
      (rw found (rw (insert_entry-taken db _ t size taken)))
