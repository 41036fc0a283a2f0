-- ===== src/Accounting/Journal/Inserts.antt =====
-- What the inserts of a posting do to the tables, and that after the entry no line can fail.
use mathlib.Core.List.{append_assoc, append-nil}
use sanmitra_backend.Base.{
  ℕ, ◌≡◌, refl, sym, ap, ◌∙◌, ◌<◌, true, List, [], ◌∷◌, ◌++◌, map, All, ok, arith, >>=-eq-ok,
}
use sanmitra_backend.Base.Equality.{contains, nat_eq}
use sanmitra_backend.Accounting.Lines.{Line}
use sanmitra_backend.Accounting.Lines.Spec.{OneSided}
use sanmitra_backend.Accounting.Entities.{scope_eq, JournalEntry, JournalLine, Tables}
use sanmitra_backend.Accounting.Store.{Database, insert_line, entry_fits, numeric_limit}
use sanmitra_backend.Accounting.Journal.{insert_lines, line_row}

-- A stored line and the validated line that it stores.
pub record Stores (e : JournalEntry) (row : JournalLine) (l : Line ℕ) : Type 0 where
  pub journal : row.journal_id ≡ e.id
  pub scope : row.scope ≡ e.scope
  pub account : row.account_id ≡ l.key
  pub debit : row.debit ≡ l.debit
  pub credit : row.credit ≡ l.credit

abbrev pub AllStore : JournalEntry → List JournalLine → List (Line ℕ) → Type 0
AllStore e [] [] = Unit
AllStore e (row ∷ rows) (l ∷ ls) = Stores e row l × AllStore e rows ls
AllStore e _ _ = ⊥

abbrev pub with_lines : Tables → List JournalLine → Tables
with_lines t new = record t { lines = t.lines ++ new }

insert_line_sound :
    (db : Database) (row : JournalLine) (t t' : Tables)
    → insert_line db row t ≡ ok t'
    → (id : ℕ) × (t' ≡ with_lines t (record row { id = id } ∷ []))
unfolding insert_line
insert_line_sound db row t t' h = (db.next_id (map (λ l. l.id) t.lines), ground arith)

pub insert_lines_sound :
    (db : Database) (e : JournalEntry) (ls : List (Line ℕ)) (t t' : Tables)
    → insert_lines db e ls t ≡ ok t'
    → (new : List JournalLine) × (t' ≡ with_lines t new) × AllStore e new ls
unfolding insert_lines
insert_lines_sound db e [] t t' h =
    ([], (cc) ∙ ap (λ rows. record t { lines = rows }) (sym (append-nil t.lines)), tt)
insert_lines_sound db e (l ∷ ls) t t' h =
    let (t₁, first, later) = >>=-eq-ok (insert_line db (line_row e l) t) _ h in
    let (id, one) = insert_line_sound db (line_row e l) t t₁ first in
    let (new, more, stored) = insert_lines_sound db e ls t₁ t' later in
    let row = record (line_row e l) { id = id } in
    (
      row ∷ new,
      more
          ∙ ap (λ u. with_lines u new) one
          ∙ ap (λ rows. record t { lines = rows }) (append_assoc t.lines (row ∷ []) new),
      (
        record { journal = refl; scope = refl; account = refl; debit = refl; credit = refl },
        stored,
      ),
    )

-- Rows that pass the constraints of a line.
module _ (db : Database) (e : JournalEntry) where
  abbrev pub Insertable : Tables → Line ℕ → Type 0
  Insertable t l =
      OneSided l
      × (l.debit < numeric_limit)
      × (l.credit < numeric_limit)
      × (contains (map (λ a. a.id) t.accounts) l.key ≡ true)

  insert_line_complete :
      (l : Line ℕ) (t : Tables)
      → entry_fits e ≡ true
      → contains (map (λ e. e.id) t.entries) e.id ≡ true
      → Insertable t l
      → (id : ℕ) × (insert_line db (line_row e l) t
          ≡ ok (with_lines t (record (line_row e l) { id = id } ∷ [])))
  unfolding insert_line entry_fits
  insert_line_complete l t f c i = (db.next_id (map (λ l. l.id) t.lines), ground arith)

  -- Once the entry is stored, its lines are stored too.
  pub insert_lines_complete :
      (ls : List (Line ℕ)) (t : Tables)
      → entry_fits e ≡ true
      → contains (map (λ e. e.id) t.entries) e.id ≡ true
      → All (Insertable t) ls
      → (t' : Tables) × (insert_lines db e ls t ≡ ok t')
  unfolding insert_lines
  insert_lines_complete [] t f c h = (t, refl)
  insert_lines_complete (l ∷ ls) t f c (i, h) =
      let (id, one) = insert_line_complete l t f c i in
      let (t', more) =
        insert_lines_complete ls (with_lines t (record (line_row e l) { id = id } ∷ [])) f c h in
      (t', rw one more)
