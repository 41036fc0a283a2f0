-- ===== src/Accounting/Journal/Posting.antt =====
-- The two ways in which `post_journal_entry` succeeds, and when it does.
use sanmitra_backend.Base.{
  ℕ, ◌≡◌, subst, ◌⊎◌, inl, inr, String, Bool, true, false, ◌&&◌, Option, none, some, List, [], ◌∷◌,
  ◌++◌, map, any, ok, arith, >>=-eq-ok, raise_if-eq-ok,
}
use sanmitra_backend.Base.Equality.{◌==◌, nat_eq}
use sanmitra_backend.Accounting.Errors.{Outcome}
use sanmitra_backend.Accounting.Lines.{Line, validate_journal_lines}
use sanmitra_backend.Accounting.Lines.Spec.{IsPosting}
use sanmitra_backend.Accounting.Lines.Laws.{validate_journal_lines_iff}
use sanmitra_backend.Accounting.Entities.{Scope, scope_eq, JournalEntry, JournalLine, Tables}
use sanmitra_backend.Accounting.Store.{Database, insert_entry, entry_fits, entry_check, same_key}
use sanmitra_backend.Accounting.Journal.{
  JournalPostRequest, find_posted, available_account_ids, has_missing, insert_lines, entry_row,
  add_entry, post_journal_entry,
}
use sanmitra_backend.Accounting.Journal.Inserts.{AllStore, insert_lines_sound}

abbrev pub with_entry : Tables → JournalEntry → List JournalLine → Tables
with_entry t e new = record t { entries = t.entries ++ e ∷ []; lines = t.lines ++ new }

module _ (db : Database) (scope : Scope) (created_by : String) (payload : JournalPostRequest)
    (key : Option String) (t : Tables) where
  -- A new entry `e` with the stored lines `new` for the validated lines `ls`.
  pub record Adds (td tc : ℕ) (ls : List (Line ℕ)) (e : JournalEntry) (new : List JournalLine)
      : Type 0 where
    pub row : e ≡ record (entry_row scope created_by payload key td tc) {
      id = db.next_id (map (λ e. e.id) t.entries);
    }
    pub stored : AllStore e new ls
    pub found : has_missing (available_account_ids scope t) ls ≡ false
    pub fits : entry_fits e ≡ true
    pub check : entry_check e ≡ true
    pub new_key : any (λ o. o.scope == scope && same_key o.idempotency_key key) t.entries ≡ false

  insert_entry_sound :
      (td tc : ℕ) (e : JournalEntry) (t' : Tables)
      → insert_entry db (entry_row scope created_by payload key td tc) t ≡ ok (e, t')
      → (e ≡ record (entry_row scope created_by payload key td tc) {
        id = db.next_id (map (λ e. e.id) t.entries);
      })
        × (t' ≡ record t { entries = t.entries ++ e ∷ [] })
        × (entry_fits e ≡ true)
        × (entry_check e ≡ true)
        × (any (λ o. o.scope == scope && same_key o.idempotency_key key) t.entries ≡ false)
  unfolding insert_entry
  insert_entry_sound td tc e t' h = ground arith

  Adds-insert_entry :
      (td tc : ℕ) (ls : List (Line ℕ)) (e e₁ : JournalEntry) (created : Bool) (t₁ t₂ t' : Tables)
      → has_missing (available_account_ids scope t) ls ≡ false
      → insert_entry db (entry_row scope created_by payload key td tc) t ≡ ok (e₁, t₁)
      → insert_lines db e₁ ls t₁ ≡ ok t₂
      → ◌≡◌ {A = Outcome (JournalEntry × Bool × Tables)} (ok (e₁, true, t₂)) (ok (e, created, t'))
      → (new : List JournalLine) × (created ≡ true)
        × (t' ≡ with_entry t e new)
        × Adds td tc ls e new
  Adds-insert_entry td tc ls e e₁ created t₁ t₂ t' found inserted lined h =
      let (row, entries, passes, check, fresh) = insert_entry_sound td tc e₁ t₁ inserted in
      let (new, lines, stored) = insert_lines_sound db e₁ ls t₁ t₂ lined in
      let same : e₁ ≡ e = ground arith in
      (
        new,
        ground arith,
        ground (arith, lines, entries, same),
        subst (λ x. Adds td tc ls x new) same
            (record {
              row = row;
              stored = stored;
              found = found;
              fits = passes;
              check = check;
              new_key = fresh;
            }),
      )

  add_entry_sound :
      (td tc : ℕ) (ls : List (Line ℕ)) {e : JournalEntry} {created : Bool} {t' : Tables}
      → add_entry db scope created_by payload key td tc ls t ≡ ok (e, created, t')
      → (new : List JournalLine) × (created ≡ true)
        × (t' ≡ with_entry t e new)
        × Adds td tc ls e new
  unfolding add_entry
  add_entry_sound td tc ls h =
      let (found, h₁) = raise_if-eq-ok (has_missing (available_account_ids scope t) ls) _ _ h in
      let ((e₁, t₁), inserted, h₂) = >>=-eq-ok (insert_entry db _ t) _ h₁ in
      let (t₂, lined, h₃) = >>=-eq-ok (insert_lines db e₁ ls t₁) _ h₂ in
      Adds-insert_entry td tc ls _ e₁ _ t₁ t₂ _ found inserted lined h₃

  -- What a success did: it found the entry of an earlier request, or it added one.
  abbrev pub Replays : JournalEntry → Bool → Tables → Type 0
  Replays e created t' = (created ≡ false) × (t' ≡ t) × (find_posted scope key t ≡ ok (some e))

  pub record Posts (e : JournalEntry) (created : Bool) (t' : Tables) : Type 0 where
    pub td : ℕ
    pub tc : ℕ
    pub ls : List (Line ℕ)
    pub new : List JournalLine
    pub valid : IsPosting (λ _. true) payload.lines td tc ls
    pub unposted : find_posted scope key t ≡ ok none
    pub adds : Adds td tc ls e new
    pub is_created : created ≡ true
    pub result : t' ≡ with_entry t e new

  post_after_search :
      (td tc : ℕ) (ls : List (Line ℕ)) (found : Option JournalEntry) {e : JournalEntry}
      {created : Bool} {t' : Tables}
      → find_posted scope key t ≡ ok found
      → IsPosting (λ _. true) payload.lines td tc ls
      → elim found [
        | some old ↦ ok (old, false, t)
        | none ↦ add_entry db scope created_by payload key td tc ls t
      ]
        ≡ ok (e, created, t')
      → Replays e created t' ⊎ Posts e created t'
  post_after_search td tc ls none searched valid h =
      let (new, made, result, adds) = add_entry_sound td tc ls h in
      inr (record {
        td = td;
        tc = tc;
        ls = ls;
        new = new;
        valid = valid;
        unposted = searched;
        adds = adds;
        is_created = made;
        result = result;
      })
  post_after_search td tc ls (some old) searched valid h = inl (ground (arith, searched))

  -- A successful posting either returns the stored entry of the scope with the same non-empty key
  -- and changes nothing, or the request is valid, no entry was found for its key, and the tables
  -- get one new entry with a fresh id and the request's data and totals, and one line for each line
  -- of the request, in order, and nothing else.
  pub post_journal_entry_sound :
      {e : JournalEntry} {created : Bool} {t' : Tables}
      → post_journal_entry db scope created_by payload key t ≡ ok (e, created, t')
      → Replays e created t' ⊎ Posts e created t'
  unfolding post_journal_entry
  post_journal_entry_sound h =
      let ((td, tc, ls), valid, h₁) = >>=-eq-ok (validate_journal_lines payload.lines) _ h in
      let (found, searched, h₂) = >>=-eq-ok (find_posted scope key t) _ h₁ in
      post_after_search td tc ls found searched
        ((validate_journal_lines_iff payload.lines td tc ls).0 valid) h₂
