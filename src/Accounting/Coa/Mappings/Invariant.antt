-- ===== src/Accounting/Coa/Mappings/Invariant.antt =====
-- Mappings never leave their scope.
use mathlib.Core.List.{map-append}
use sanmitra_backend.Base.{
  ℕ, ◌≡◌, refl, sym, subst, ◌∙◌, String, true, false, ◌&&◌, Option, none, some, List, [], ◌∷◌, ◌++◌,
  map, ok, any, All, All-append, All-weaken, nat_beq, arith, Option-cases, inl, inr, >>=-eq-ok,
  raise_if-eq-ok,
}
use sanmitra_backend.Base.Equality.{◌==◌, contains, nat_eq, string_eq}
use sanmitra_backend.Accounting.Errors.{Outcome, not_found, account_id}
use sanmitra_backend.Accounting.Entities.{
  Scope, scope_eq, CoaSourceAccount, CoaMapping, SourceSystem, Tables,
}
use sanmitra_backend.Accounting.Store.{Database}
use sanmitra_backend.Accounting.Journal.{available_account_ids}
use sanmitra_backend.Accounting.Journal.Invariant.{Distinct}
use sanmitra_backend.Accounting.Journal.Preserves.{Distinct-append_one, any-account}
use sanmitra_backend.Accounting.Table.{find_last, update_row}
use sanmitra_backend.Accounting.Table.Laws.{
  find_last-holds, found_any, ids-update_row, All-update_row,
}
use sanmitra_backend.Accounting.Coa.Systems.{system_eq}
use sanmitra_backend.Accounting.Coa.Rows.{has_code, maps_source, insert_mapping, save_mapping}
use sanmitra_backend.Accounting.Coa.Sources.{find_source}
use sanmitra_backend.Accounting.Coa.Mappings.{
  CoaMappingIn, Keyed, collect_items, source_or_raise, look_up_sources, mapping_row, remap,
  put_mapping, put_mappings, Joined, lacks_account, upsert_coa_mappings,
}

-- A mapping whose source account and canonical account stand in its own scope.
pub record Linked (t : Tables) (m : CoaMapping) : Type 0 where
  pub source :
      any (λ s. nat_beq s.id m.source_account_id && s.scope == m.scope) t.source_accounts ≡ true
  pub canonical :
      any (λ a. nat_beq a.id m.canonical_account_id && a.scope == m.scope) t.accounts ≡ true

maps_source-parts :
    (scope : Scope) (k : ℕ) (m : CoaMapping)
    → maps_source scope k m ≡ true
    → (m.scope ≡ scope) × (m.source_account_id ≡ k)
maps_source-parts scope k m h = ground (arith, scope_eq.equal_iff m.scope scope)

pub record IsMapped (t : Tables) : Type 0 where
  pub ids : Distinct (map (λ m. m.id) t.mappings)
  pub linked : All (Linked t) t.mappings

-- A pair of the second loop: both ends are in the scope.
pub record Usable (scope : Scope) (t : Tables) (s : CoaSourceAccount) (i : CoaMappingIn)
    : Type 0 where
  pub source : any (λ r. nat_beq r.id s.id && r.scope == scope) t.source_accounts ≡ true
  pub canonical :
      any (λ a. nat_beq a.id i.canonical_account_id && a.scope == scope) t.accounts ≡ true

abbrev pub with_mappings : Tables → List CoaMapping → Tables
with_mappings t ms = record t { mappings = ms }

module _ (db : Database) (scope : Scope) (mapped_by : String) (now : ℕ) (s : CoaSourceAccount)
    (i : CoaMappingIn) (t : Tables) where
  abbrev fresh_mapping : CoaMapping
  fresh_mapping = record (mapping_row scope mapped_by now s i) {
    id = db.next_id (map (λ m. m.id) t.mappings);
  }

  put_mapping-added :
      (id : ℕ) (t' : Tables)
      → put_mapping db scope mapped_by now s i none t ≡ ok (id, t')
      → t' ≡ with_mappings t (t.mappings ++ fresh_mapping ∷ [])
  unfolding put_mapping insert_mapping
  put_mapping-added id t' h = ground arith

  put_mapping-saved :
      (m : CoaMapping) (id : ℕ) (t' : Tables)
      → put_mapping db scope mapped_by now s i (some m) t ≡ ok (id, t')
      → t' ≡ with_mappings t (update_row (λ m. m.id) m.id (remap mapped_by now i) t.mappings)
  unfolding put_mapping save_mapping
  put_mapping-saved m id t' h = ground arith

  module _ (v : IsMapped t) (u : Usable scope t s i) where
    added-IsMapped : IsMapped (with_mappings t (t.mappings ++ fresh_mapping ∷ []))
    added-IsMapped = record {
      ids = rw (map-append (λ m. m.id) t.mappings (fresh_mapping ∷ [])) (
          Distinct-append_one (map (λ m. m.id) t.mappings) fresh_mapping.id v.ids
            (db.next_id_fresh (map (λ m. m.id) t.mappings)));
      linked =
          All-append _ t.mappings (fresh_mapping ∷ [])
            (All-weaken (λ m l. record { source = l.source; canonical = l.canonical }) t.mappings
              v.linked)
            (record { source = u.source; canonical = u.canonical }, tt);
    }

    saved-IsMapped :
        (m : CoaMapping)
        → find_last (maps_source scope s.id) t.mappings ≡ some m
        → IsMapped
            (with_mappings t (update_row (λ m. m.id) m.id (remap mapped_by now i) t.mappings))
    saved-IsMapped m found =
        let (own, at_s) = maps_source-parts scope s.id m (find_last-holds _ t.mappings m found) in
        record {
          ids =
              subst Distinct
                (sym
                  (ids-update_row (λ m. m.id) m.id (remap mapped_by now i) (λ m. refl) t.mappings))
                v.ids;
          linked =
              All-update_row (λ m. m.id) _ (maps_source scope s.id) (remap mapped_by now i)
                t.mappings m v.ids found
                (record { source = rw (own, at_s) u.source; canonical = rw own u.canonical })
                (All-weaken (λ m l. record { source = l.source; canonical = l.canonical })
                  t.mappings v.linked);
        }

    -- One round of the second loop.
    put_mapping-IsMapped :
        (id : ℕ) (t' : Tables)
        → put_mapping db scope mapped_by now s i (find_last (maps_source scope s.id) t.mappings) t
          ≡ ok (id, t')
        → (ms : List CoaMapping) × (t' ≡ with_mappings t ms) × IsMapped (with_mappings t ms)
    put_mapping-IsMapped id t' h =
        elim (Option-cases (find_last (maps_source scope s.id) t.mappings)) [
          | inl missing ↦ (_, put_mapping-added id t' (rw missing at h), added-IsMapped)
          | inr (m, found) ↦ (_, put_mapping-saved m id t' (rw found at h), saved-IsMapped m found)
        ]

last_tables :
    {A : Type 0} {a b : A} {t t' : Tables}
    → ◌≡◌ {A = Outcome (A × Tables)} (ok (a, t)) (ok (b, t'))
    → t' ≡ t
last_tables h = cc

kept :
    (t : Tables) (ms : List CoaMapping) (t' : Tables)
    → t' ≡ with_mappings t ms
    → IsMapped (with_mappings t ms)
    → IsMapped t' × (t' ≡ with_mappings t t'.mappings)
kept t ms t' e v = rw e (v, refl)

abbrev AllUsable : Scope → Tables → List (CoaSourceAccount × CoaMappingIn) → Type 0
AllUsable scope t pairs = All (λ (s, i). Usable scope t s i) pairs

put_mappings-IsMapped :
    (db : Database) (scope : Scope) (mapped_by : String) (now : ℕ)
    (pairs : List (CoaSourceAccount × CoaMappingIn)) (t : Tables) (ids : List ℕ) (t' : Tables)
    → IsMapped t
    → AllUsable scope t pairs
    → put_mappings db scope mapped_by now pairs t ≡ ok (ids, t')
    → (ms : List CoaMapping) × (t' ≡ with_mappings t ms) × IsMapped (with_mappings t ms)
unfolding put_mappings
put_mappings-IsMapped db scope mapped_by now [] t ids t' v u h = (t.mappings, (cc), v)
put_mappings-IsMapped db scope mapped_by now ((s, i) ∷ pairs) t ids t' v (p, u) h =
    let ((id, t₁), first, h₁) =
      >>=-eq-ok
        (put_mapping db scope mapped_by now s i (find_last (maps_source scope s.id) t.mappings) t) _
        h in
    let ((ids₁, t₂), later, h₂) = >>=-eq-ok (put_mappings db scope mapped_by now pairs t₁) _ h₁ in
    let (ms, e, v₁) = put_mapping-IsMapped db scope mapped_by now s i t v p id t₁ first in
    let (ns, g, v₂) =
      put_mappings-IsMapped db scope mapped_by now pairs (with_mappings t ms) ids₁ t₂ v₁
        (All-weaken (λ (s, i) q. record { source = q.source; canonical = q.canonical }) pairs u)
        (subst (λ x. put_mappings db scope mapped_by now pairs x ≡ ok (ids₁, t₂)) e later) in
    (ns, last_tables h₂ ∙ g, v₂)

source_or_raise-some :
    (o : Option CoaSourceAccount) (r : CoaSourceAccount) → source_or_raise o ≡ ok r → o ≡ some r
unfolding source_or_raise
source_or_raise-some o r h = ground arith

ok-injective : {A : Type 0} {a b : A} → ◌≡◌ {A = Outcome A} (ok a) (ok b) → a ≡ b
ok-injective h = cc

found-Usable :
    (scope : Scope) (system : SourceSystem) (code : String) (t : Tables) (r : CoaSourceAccount)
    (i : CoaMappingIn)
    → find_source scope system code t ≡ some r
    → contains (available_account_ids scope t) i.canonical_account_id ≡ true
    → Usable scope t r i
unfolding find_source available_account_ids
found-Usable scope system code t r i h g = record {
  source =
      found_any (has_code scope system code) (λ s. nat_beq s.id r.id && s.scope == scope)
        t.source_accounts r h
        (ground (arith, find_last-holds (has_code scope system code) t.source_accounts r h));
  canonical = any-account scope t.accounts i.canonical_account_id g;
}

AllUsable-found :
    (scope : Scope) (keyed : List Keyed) (t : Tables)
    (pairs : List (CoaSourceAccount × CoaMappingIn))
    → look_up_sources scope keyed t ≡ ok pairs
    → lacks_account (available_account_ids scope t) pairs ≡ false
    → AllUsable scope t pairs
unfolding look_up_sources
AllUsable-found scope [] t pairs h g = subst (AllUsable scope t) (ok-injective h) tt
AllUsable-found scope (k ∷ keyed) t pairs h g =
    let (r, at_r, h₁) = >>=-eq-ok (source_or_raise (find_source scope k.system k.code t)) _ h in
    let (rest, later, h₂) = >>=-eq-ok (look_up_sources scope keyed t) _ h₁ in
    let e = ok-injective h₂ in
    let (there, others) =
      all_listed (available_account_ids scope t) r k.item rest
        (subst (λ ps. lacks_account (available_account_ids scope t) ps ≡ false) (sym e) g) in
    subst (AllUsable scope t) e (
      found-Usable scope k.system k.code t r k.item
          (source_or_raise-some (find_source scope k.system k.code t) r at_r) there,
      AllUsable-found scope keyed t rest later others,
    )
  where
    all_listed :
        (available : List ℕ) (r : CoaSourceAccount) (i : CoaMappingIn)
        (rest : List (CoaSourceAccount × CoaMappingIn))
        → lacks_account available ((r, i) ∷ rest) ≡ false
        → (contains available i.canonical_account_id ≡ true)
          × (lacks_account available rest ≡ false)
    all_listed available r i rest h = ground arith

-- Whatever is asked for, `upsert_coa_mappings` keeps every mapping within one scope: its source
-- account and its canonical account are stored, in the scope of the mapping. It changes no other
-- table, and ids stay distinct.
pub upsert_coa_mappings-IsMapped :
    (db : Database) (scope : Scope) (mapped_by : String) (now : ℕ) (items : List CoaMappingIn)
    (t t' : Tables) (rows : List Joined)
    → IsMapped t
    → upsert_coa_mappings db scope mapped_by now items t ≡ ok (rows, t')
    → IsMapped t' × (t' ≡ with_mappings t t'.mappings)
unfolding upsert_coa_mappings
upsert_coa_mappings-IsMapped db scope mapped_by now items t t' rows v h =
    let (keyed, collected, h₁) = >>=-eq-ok (collect_items items []) _ h in
    let (pairs, found, h₂) = >>=-eq-ok (look_up_sources scope keyed t) _ h₁ in
    let (all_there, h₃) =
      raise_if-eq-ok (lacks_account (available_account_ids scope t) pairs) (not_found account_id) _
        h₂ in
    let ((ids, t₁), put, h₄) = >>=-eq-ok (put_mappings db scope mapped_by now pairs t) _ h₃ in
    let (ms, e, v') =
      put_mappings-IsMapped db scope mapped_by now pairs t ids t₁ v
        (AllUsable-found scope keyed t pairs found all_there) put in
    kept t ms t' (last_tables h₄ ∙ e) v'
