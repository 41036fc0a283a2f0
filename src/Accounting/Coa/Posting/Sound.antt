-- ===== src/Accounting/Coa/Posting/Sound.antt =====
-- A source posting is a posting of the canonical accounts that its codes stand for.
use sanmitra_backend.Base.{
  ℕ, ◌≡◌, refl, subst, ap, String, Bool, true, ◌&&◌, Option, some, List, [], ◌∷◌, map, ok, any,
  nat_beq, arith, >>=-eq-ok,
}
use sanmitra_backend.Base.Equality.{◌==◌, string_eq}
use sanmitra_backend.Accounting.Errors.{Outcome}
use sanmitra_backend.Accounting.Lines.{LineIn, Line, validate_source_journal_lines}
use sanmitra_backend.Accounting.Entities.{
  Scope, scope_eq, SourceSystem, CoaSourceAccount, CoaMapping, active, JournalEntry, Tables,
}
use sanmitra_backend.Accounting.Store.{Database}
use sanmitra_backend.Accounting.Journal.{JournalPostRequest, post_journal_entry}
use sanmitra_backend.Accounting.Journal.Invariant.{IsConsistent}
use sanmitra_backend.Accounting.Journal.Preserves.{post_journal_entry-IsConsistent}
use sanmitra_backend.Accounting.Table.Laws.{find_last-holds, found_any}
use sanmitra_backend.Accounting.Coa.Systems.{system_eq, status_eq}
use sanmitra_backend.Accounting.Coa.Rows.{has_code, maps_source}
use sanmitra_backend.Accounting.Coa.Posting.{
  source_idempotency_key, SourceJournalPostRequest, line_source, line_mapping, source_found,
  mapping_found, line_sources, Resolved, resolve_lines, cents, canonical_line, canonical_payload,
  post_source_journal_entry,
}

-- Whether the code of a product belongs to a source account in use that has an active mapping to
-- the canonical account, as the tables say it.
abbrev pub leads_to : Scope → SourceSystem → Tables → String → ℕ → Bool
leads_to scope system t code account =
    any
      (λ r.
        r.scope == scope
        && r.source_system == system
        && r.source_account_code == code
        && r.is_active
        && any
            (λ m.
              m.scope == scope
              && nat_beq m.source_account_id r.id
              && m.status == active
              && nat_beq m.canonical_account_id account)
            t.mappings)
      t.source_accounts

-- What a line becomes: an item of the answer, and a line of the journal request.
pub record Translates (scope : Scope) (system : SourceSystem) (t : Tables) (l : Line String)
    (r : Resolved) (j : LineIn ℕ) : Type 0 where
  pub code : r.source_account_code ≡ l.key
  pub account : leads_to scope system t l.key r.canonical_account_id ≡ true
  pub debit : r.debit ≡ l.debit
  pub credit : r.credit ≡ l.credit
  pub posted_account : j.key ≡ r.canonical_account_id
  pub posted_debit : j.debit ≡ record { units = l.debit; places = 2 }
  pub posted_credit : j.credit ≡ record { units = l.credit; places = 2 }

abbrev pub AllTranslate :
    Scope → SourceSystem → Tables → List (Line String) → List Resolved → List (LineIn ℕ) → Type 0
AllTranslate scope system t [] [] [] = Unit
AllTranslate scope system t (l ∷ ls) (r ∷ rs) (j ∷ js) =
    Translates scope system t l r j × AllTranslate scope system t ls rs js
AllTranslate scope system t _ _ _ = ⊥

-- The journal request that a source request with the lines `ls` stands for.
pub record StandsFor (scope : Scope) (t : Tables) (payload : SourceJournalPostRequest)
    (ls : List (Line String)) (rs : List Resolved) (request : JournalPostRequest) : Type 0 where
  pub entry_date : request.entry_date ≡ payload.entry_date
  pub description : request.description ≡ payload.description
  pub reference : request.reference ≡ payload.reference
  pub lines : AllTranslate scope payload.source_system t ls rs request.lines

found_source :
    (o : Option CoaSourceAccount) (r : CoaSourceAccount) → source_found o ≡ ok r → o ≡ some r
unfolding source_found
found_source o r h = ground arith

found_mapping : (o : Option CoaMapping) (m : CoaMapping) → mapping_found o ≡ ok m → o ≡ some m
unfolding mapping_found
found_mapping o m h = ground arith

ok-injective : {A : Type 0} {a b : A} → ◌≡◌ {A = Outcome A} (ok a) (ok b) → a ≡ b
ok-injective h = cc

-- Lines with their sources, in the order of the lines.
abbrev AllSourced :
    Scope
    → SourceSystem
    → Tables
    → List (Line String)
    → List (CoaSourceAccount × Line String)
    → Type 0
AllSourced scope system t [] [] = Unit
AllSourced scope system t (l ∷ ls) ((r, l') ∷ ps) =
    ((l' ≡ l) × (line_source scope system t l.key ≡ some r)) × AllSourced scope system t ls ps
AllSourced scope system t _ _ = ⊥

module _ (scope : Scope) (system : SourceSystem) (t : Tables) where
  line_sources_sound :
      (ls : List (Line String)) (ps : List (CoaSourceAccount × Line String))
      → line_sources scope system t ls ≡ ok ps
      → AllSourced scope system t ls ps
  unfolding line_sources
  line_sources_sound [] ps h = subst (AllSourced scope system t []) (ok-injective h) tt
  line_sources_sound (l ∷ ls) ps h =
      let (r, at_r, h₁) = >>=-eq-ok (source_found (line_source scope system t l.key)) _ h in
      let (rest, later, h₂) = >>=-eq-ok (line_sources scope system t ls) _ h₁ in
      subst (AllSourced scope system t (l ∷ ls)) (ok-injective h₂)
        ((refl, found_source _ r at_r), line_sources_sound ls rest later)

  -- The rows that the searches found are those that the tables' description asks for.
  leads_there :
      (code : String) (r : CoaSourceAccount) (m : CoaMapping)
      → line_source scope system t code ≡ some r
      → line_mapping scope t r.id ≡ some m
      → leads_to scope system t code m.canonical_account_id ≡ true
  unfolding line_source line_mapping
  leads_there code r m at_r at_m =
      let used = find_last-holds (λ r. has_code scope system code r && r.is_active) _ r at_r in
      let live = find_last-holds (λ m. maps_source scope r.id m && m.status == active) _ m at_m in
      let mapped =
        found_any (λ m. maps_source scope r.id m && m.status == active)
          (λ n.
            n.scope == scope
            && nat_beq n.source_account_id r.id
            && n.status == active
            && nat_beq n.canonical_account_id m.canonical_account_id)
          t.mappings m at_m (ground arith) in
      found_any (λ r. has_code scope system code r && r.is_active) _ t.source_accounts r at_r
        (ground arith)

  resolve_lines_sound :
      (ls : List (Line String)) (ps : List (CoaSourceAccount × Line String)) (rs : List Resolved)
      → AllSourced scope system t ls ps
      → resolve_lines scope t ps ≡ ok rs
      → AllTranslate scope system t ls rs (map canonical_line rs)
  unfolding resolve_lines
  resolve_lines_sound [] [] rs s h =
      subst (λ rs. AllTranslate scope system t [] rs (map canonical_line rs)) (ok-injective h) tt
  resolve_lines_sound (l ∷ ls) ((r, l') ∷ ps) rs ((same, at_r), s) h =
      let (m, at_m, h₁) = >>=-eq-ok (mapping_found (line_mapping scope t r.id)) _ h in
      let (rest, later, h₂) = >>=-eq-ok (resolve_lines scope t ps) _ h₁ in
      subst (λ rs. AllTranslate scope system t (l ∷ ls) rs (map canonical_line rs))
        (ok-injective h₂)
        (
          record {
            code = ap (λ l. l.key) same;
            account = leads_there l.key r m at_r (found_mapping _ m at_m);
            debit = ap (λ l. l.debit) same;
            credit = ap (λ l. l.credit) same;
            posted_account = refl;
            posted_debit = ap (λ l. cents l.debit) same;
            posted_credit = ap (λ l. cents l.credit) same;
          },
          resolve_lines_sound ls ps rest s later,
        )
  resolve_lines_sound [] (p ∷ ps) rs s h = absurd s
  resolve_lines_sound (l ∷ ls) [] rs s h = absurd s

module _ (db : Database) (scope : Scope) (created_by : String) (payload : SourceJournalPostRequest)
    (key : Option String) (t : Tables) where
  -- What a source posting of the lines `ls` comes to.
  abbrev Comes : List (Line String) → JournalEntry × Bool × List Resolved × Tables → Type 0
  Comes ls (e, created, resolved, t') =
      (request : JournalPostRequest) × StandsFor scope t payload ls resolved request
      × (post_journal_entry db scope created_by request
            (source_idempotency_key payload.source_system key) t
          ≡ ok (e, created, t'))
      × IsConsistent t'

  -- A source posting that succeeds is, on the same tables and under the product's form of the key,
  -- the posting of a journal request with the same date, description and reference, whose lines
  -- are its validated lines with the same amounts and with each code replaced by a canonical
  -- account, to which the tables have an active mapping from the product's account in use with
  -- that code. The lines returned say the same. On consistent tables the tables stay consistent.
  pub post_source_journal_entry-refines :
      {e : JournalEntry} {created : Bool} {resolved : List Resolved} {t' : Tables}
      → IsConsistent t
      → post_source_journal_entry db scope created_by payload key t ≡ ok (e, created, resolved, t')
      → (td : ℕ) × (tc : ℕ) × (ls : List (Line String)) × (validate_source_journal_lines
            payload.lines
          ≡ ok (td, tc, ls))
        × (request : JournalPostRequest) × StandsFor scope t payload ls resolved request
        × (post_journal_entry db scope created_by request
              (source_idempotency_key payload.source_system key)
              t
            ≡ ok (e, created, t'))
        × IsConsistent t'
  unfolding post_source_journal_entry
  post_source_journal_entry-refines {e} {created} {resolved} {t'} valid h =
      let ((td, tc, ls), checked, h₁) =
        >>=-eq-ok (validate_source_journal_lines payload.lines) _ h in
      let (ps, sourced, h₂) = >>=-eq-ok (line_sources scope payload.source_system t ls) _ h₁ in
      let (rs, mapped, h₃) = >>=-eq-ok (resolve_lines scope t ps) _ h₂ in
      let ((e₁, made, t₁), posted, h₄) =
        >>=-eq-ok
          (post_journal_entry db scope created_by (canonical_payload payload rs)
            (source_idempotency_key payload.source_system key) t)
          _ h₃ in
      let (request, stands, entry, after) = subst (Comes ls) (ok-injective h₄) (
        canonical_payload payload rs,
        record {
          entry_date = refl;
          description = refl;
          reference = refl;
          lines =
              resolve_lines_sound scope payload.source_system t ls ps rs
                (line_sources_sound scope payload.source_system t ls ps sourced) mapped;
        },
        posted,
        post_journal_entry-IsConsistent db scope created_by (canonical_payload payload rs)
            (source_idempotency_key payload.source_system key) t valid posted,
      ) in
      (td, tc, ls, checked, request, stands, entry, after)
