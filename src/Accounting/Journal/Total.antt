-- ===== src/Accounting/Journal/Total.antt =====
-- Which requests are posted: after the checks of the service no constraint of the line table can
-- fail any more.
use mathlib.Core.List.{map-append}
use sanmitra_backend.Base.{
  ℕ, ◌≡◌, refl, ap, ◌<◌, String, Bool, true, false, ◌&&◌, Option, none, some, List, [], ◌∷◌, ◌++◌,
  map, All, any, keep, ok, arith,
}
use sanmitra_backend.Base.Sums.{sum_of}
use sanmitra_backend.Base.Equality.{◌==◌, contains, nat_eq}
use sanmitra_backend.Accounting.Lines.{Line, LineIn}
use sanmitra_backend.Accounting.Lines.Spec.{IsPosting, AllFit}
use sanmitra_backend.Accounting.Lines.Laws.{validate_journal_lines_iff, IsPosting-positive}
use sanmitra_backend.Accounting.Entities.{Scope, scope_eq, Account, JournalEntry, Tables}
use sanmitra_backend.Accounting.Store.{
  Database, same_key, scalar_one_or_none, insert_entry, entry_fits, entry_check, numeric_limit,
}
use sanmitra_backend.Accounting.Journal.{
  JournalPostRequest, find_posted, available_account_ids, has_missing, entry_row,
  post_journal_entry,
}
use sanmitra_backend.Accounting.Journal.Inserts.{Insertable, insert_lines_complete}

contains-append_last : (xs : List ℕ) (x : ℕ) → contains (xs ++ x ∷ []) x ≡ true
contains-append_last [] x = ground arith
contains-append_last (y ∷ xs) x = ground (arith, contains-append_last xs x)

keep-nil_of_any {ℓ} : {A : Type ℓ} (p : A → Bool) (xs : List A) → any p xs ≡ false → keep p xs ≡ []
keep-nil_of_any p [] h = refl
keep-nil_of_any p (x ∷ xs) h = ground (arith, keep-nil_of_any p xs)

contains-kept :
    (scope : Scope) (rows : List Account) (k : ℕ)
    → contains (map (λ a. a.id) (keep (λ a. a.scope == scope) rows)) k ≡ true
    → contains (map (λ a. a.id) rows) k ≡ true
contains-kept scope [] k h = h
contains-kept scope (a ∷ rows) k h = ground (arith, contains-kept scope rows k)

module _ (db : Database) (scope : Scope) (e : JournalEntry) where
  lines-Insertable :
      (t u : Tables) (lines : List (LineIn ℕ)) (ls : List (Line ℕ))
      → u.accounts ≡ t.accounts
      → AllFit (λ _. true) lines ls
      → sum_of (λ l. l.debit) ls < numeric_limit
      → sum_of (λ l. l.credit) ls < numeric_limit
      → has_missing (available_account_ids scope t) ls ≡ false
      → All (Insertable db e u) ls
  unfolding has_missing available_account_ids
  lines-Insertable t u [] [] same f d c h = tt
  lines-Insertable t u (line ∷ lines) (l ∷ ls) same (f, fs) d c h = (
    (
      f.one_sided,
      omega arith,
      omega arith,
      rw same (contains-kept scope t.accounts l.key (ground arith)),
    ),
    lines-Insertable t u lines ls same fs (omega arith) (omega arith) (ground arith),
  )
  lines-Insertable t u [] (l ∷ ls) same f d c h = absurd f
  lines-Insertable t u (line ∷ lines) [] same f d c h = absurd f

insert_entry_complete :
    (db : Database) (row : JournalEntry) (t : Tables)
    → entry_fits row ≡ true
    → entry_check row ≡ true
    → any (λ e. e.scope == row.scope && same_key e.idempotency_key row.idempotency_key) t.entries
      ≡ false
    → let e = record row { id = db.next_id (map (λ e. e.id) t.entries) } in
      insert_entry db row t ≡ ok (e, record t { entries = t.entries ++ e ∷ [] })
unfolding insert_entry
insert_entry_complete db row t size check free = rw (size, check, free)

find_posted-none :
    (scope : Scope) (key : Option String) (t : Tables)
    → any (λ o. o.scope == scope && same_key o.idempotency_key key) t.entries ≡ false
    → find_posted scope key t ≡ ok none
unfolding find_posted scalar_one_or_none
find_posted-none scope none t free = refl
find_posted-none scope (some k) t free =
    let unused =
      keep-nil_of_any (λ o. o.scope == scope && same_key o.idempotency_key (some k)) t.entries
        free in
    ground (arith, ap scalar_one_or_none unused)

-- A valid request is posted as a new entry if its accounts are all accounts of its scope, its
-- idempotency key is not yet used in the scope, and its texts and totals fit their columns: no
-- other test and no constraint of the tables stands in its way.
pub post_journal_entry_accepts :
    (db : Database) (scope : Scope) (created_by : String) (payload : JournalPostRequest)
    (key : Option String) (t : Tables) {td tc : ℕ} {ls : List (Line ℕ)}
    → IsPosting (λ _. true) payload.lines td tc ls
    → has_missing (available_account_ids scope t) ls ≡ false
    → any (λ o. o.scope == scope && same_key o.idempotency_key key) t.entries ≡ false
    → entry_fits (entry_row scope created_by payload key td tc) ≡ true
    → (e : JournalEntry) × (t' : Tables) × (post_journal_entry db scope created_by payload key t
        ≡ ok (e, true, t'))
unfolding post_journal_entry entry_fits entry_check
post_journal_entry_accepts db scope created_by payload key t {td} {tc} {ls} p found free size =
    let row = entry_row scope created_by payload key td tc in
    let e = record row { id = db.next_id (map (λ e. e.id) t.entries) } in
    let t₁ = record t { entries = t.entries ++ e ∷ [] } in
    let check : entry_check row ≡ true = ground (arith, IsPosting-positive p, p.balanced) in
    let (t', lined) =
      insert_lines_complete db e ls t₁ size
        (rw (map-append (λ o. o.id) t.entries (e ∷ []))
          (contains-append_last (map (λ o. o.id) t.entries) e.id))
        (lines-Insertable db scope e t t₁ payload.lines ls refl p.fit (ground (arith, p.debits))
          (ground (arith, p.credits)) found) in
    (
      e,
      t',
      rw ((validate_journal_lines_iff payload.lines td tc ls).1 p) (
          rw (find_posted-none scope key t free)
            (rw found (rw (insert_entry_complete db row t size check free) (rw lined)))),
    )
