-- ===== src/Accounting/Coa/Sources/Refinement.antt =====
-- The source accounts as a map from keys to what is known of them, and the upsert as writes to it.
use mathlib.Core.List.{map-append}
use sanmitra_backend.Base.{
  ℕ, ◌≡◌, refl, sym, ap, subst, ◌∙◌, String, Bool, true, false, ◌&&◌, Option, none, some, List, [],
  ◌∷◌, ◌++◌, map, ok, All, if◌then◌else◌, arith, Bool-cases, Option-cases, inl, inr,
}
use sanmitra_backend.Base.Text.{is_empty, strip}
use sanmitra_backend.Base.Equality.{◌==◌, nat_eq, string_eq}
use sanmitra_backend.Accounting.Entities.{
  Scope, scope_eq, AccountType, SourceSystem, CoaSourceAccount, Tables,
}
use sanmitra_backend.Accounting.Store.{Database, fits}
use sanmitra_backend.Accounting.Journal.Invariant.{Distinct}
use sanmitra_backend.Accounting.Journal.Preserves.{Distinct-append_one}
use sanmitra_backend.Accounting.Table.{find_last, update_row}
use sanmitra_backend.Accounting.Table.Laws.{
  find_last-append_one, find_last-holds, find_last-none, ids-update_row, update_row_self,
  update_row_other,
}
use sanmitra_backend.Accounting.Coa.Systems.{system_eq}
use sanmitra_backend.Accounting.Coa.Rows.{scope_fits, has_code, insert_source, save_source}
use sanmitra_backend.Accounting.Coa.Sources.{
  CoaSourceAccountIn, normalize_source, normalize_sources, find_source, source_row, rename_source,
  put_source, put_sources, SourceView, source_view, refreshed, upsert_source_accounts,
}

-- What is known of the accounts of a scope and a product: name, type and whether it is in use.
abbrev pub Listing : Type 0
Listing = Scope → SourceSystem → String → Option (String × Option AccountType × Bool)

abbrev known : Option CoaSourceAccount → Option (String × Option AccountType × Bool)
known none = none
known (some r) = some (r.source_account_name, r.source_account_type, r.is_active)

unfoldable pub listing : Tables → Listing
unfolding find_source
listing t s k c = known (find_source s k c t)

-- One write.
abbrev pub assign : Scope → CoaSourceAccountIn → Listing → Listing
assign scope item m s k c =
    if has_code s k c (source_row scope item)
    then some (item.source_account_name, item.source_account_type, true)
    else m s k c

-- The writes of a batch, in its order.
abbrev pub assign_all : Scope → List CoaSourceAccountIn → Listing → Listing
assign_all scope [] m = m
assign_all scope (i ∷ items) m = assign_all scope items (assign scope i m)

-- The new tables: the same but for the source accounts, whose ids stay distinct.
pub record Holds (t t' : Tables) (m : Listing) : Type 0 where
  pub listed : (s : Scope) (k : SourceSystem) (c : String) → listing t' s k c ≡ m s k c
  pub ids : Distinct (map (λ r. r.id) t'.source_accounts)
  pub rest : t' ≡ record t { source_accounts = t'.source_accounts }

has_code-parts :
    (s : Scope) (k : SourceSystem) (c : String) (r : CoaSourceAccount)
    → has_code s k c r ≡ true
    → (r.scope ≡ s) × (r.source_system ≡ k) × (r.source_account_code ≡ c)
has_code-parts s k c r h = ground (
  arith,
  scope_eq.equal_iff r.scope s,
  system_eq.equal_iff r.source_system k,
  string_eq.equal_iff r.source_account_code c,
)

-- A search by another key looks at the same three columns.
has_code-at :
    (s' s : Scope) (k' k : SourceSystem) (c' c : String) (r : CoaSourceAccount)
    → has_code s' k' c' r ≡ true
    → has_code s k c r ≡ (s' == s && k' == k && c' == c)
has_code-at s' s k' k c' c r h =
    let (a, b, d) = has_code-parts s' k' c' r h in rw (← a, ← b, ← d) refl

known-rename :
    (item : CoaSourceAccountIn) (o : Option CoaSourceAccount) (r : CoaSourceAccount)
    → o ≡ some (rename_source item r)
    → known o ≡ some (item.source_account_name, item.source_account_type, true)
known-rename item o r h = rw h refl

abbrev Fitting : Scope → CoaSourceAccountIn → Type 0
Fitting scope item =
    (scope_fits scope ≡ true)
    × (fits 50 item.source_account_code ≡ true)
    × (fits 200 item.source_account_name ≡ true)

module _ (db : Database) (scope : Scope) (item : CoaSourceAccountIn) (t : Tables)
    (d : Distinct (map (λ r. r.id) t.source_accounts)) (f : Fitting scope item) where
  abbrev key : CoaSourceAccount → Bool
  key = has_code scope item.source_system item.source_account_code

  abbrev added : CoaSourceAccount
  added = record (source_row scope item) { id = db.next_id (map (λ r. r.id) t.source_accounts) }

  insert-Holds :
      find_last key t.source_accounts ≡ none
      → (t' : Tables) × (insert_source db (source_row scope item) t ≡ ok (added, t'))
        × Holds t t' (assign scope item (listing t))
  unfolding insert_source listing
  insert-Holds missing = (
    record t { source_accounts = t.source_accounts ++ added ∷ [] },
    ground (arith, find_last-none key t.source_accounts missing),
    record {
      listed = λ s k c.
          rw (find_last-append_one (has_code s k c) t.source_accounts added) (ground arith);
      ids = rw (map-append (λ r. r.id) t.source_accounts (added ∷ [])) (
          Distinct-append_one (map (λ r. r.id) t.source_accounts) added.id d
            (db.next_id_fresh (map (λ r. r.id) t.source_accounts)));
      rest = refl;
    },
  )

  fits_still :
      (r : CoaSourceAccount)
      → (r.scope ≡ scope)
        × (r.source_system ≡ item.source_system)
        × (r.source_account_code ≡ item.source_account_code)
      → save_source r (rename_source item) t
        ≡ ok (record t {
          source_accounts = update_row (λ r. r.id) r.id (rename_source item) t.source_accounts;
        })
  unfolding save_source
  fits_still r (a, b, c) = ground (arith, ap scope_fits a, ap (fits 50) c)

  save-Holds :
      (r : CoaSourceAccount)
      → find_last key t.source_accounts ≡ some r
      → (t' : Tables) × (save_source r (rename_source item) t ≡ ok t')
        × Holds t t' (assign scope item (listing t))
  unfolding save_source listing
  save-Holds r found = (
    record t {
      source_accounts = update_row (λ r. r.id) r.id (rename_source item) t.source_accounts;
    },
    fits_still r (has_code-parts _ _ _ r (find_last-holds key t.source_accounts r found)),
    record {
      listed = λ s k c. elim (Bool-cases (has_code s k c (source_row scope item))) [
        | inl same ↦
            let (a, b, e) = has_code-parts s k c (source_row scope item) same in
            rw same (
              rw (← a, ← b, ← e)
                (known-rename item _ r (
                  update_row_self (λ r. r.id) key (rename_source item) t.source_accounts r d found
                    (λ y. refl))))
        | inr other ↦ rw other (
            ap known (
              update_row_other (λ r. r.id) key (rename_source item) t.source_accounts r d found
                (has_code s k c) (λ y. refl)
                (λ y h.
                  has_code-at scope s item.source_system k item.source_account_code c y h ∙ other)))
      ];
      ids =
          subst Distinct
            (sym
              (ids-update_row (λ r. r.id) r.id (rename_source item) (λ x. refl) t.source_accounts))
            d;
      rest = refl;
    },
  )

  put_source-Holds :
      (id : ℕ) × (t' : Tables) × (put_source db scope item
          (find_source scope item.source_system item.source_account_code t)
          t
        ≡ ok (id, t'))
      × Holds t t' (assign scope item (listing t))
  unfolding put_source find_source
  put_source-Holds = elim (Option-cases (find_last key t.source_accounts)) [
    | inl missing ↦
        let (t', done, h) = insert-Holds missing in
        (added.id, t', rw (missing, put_source) (rw done refl), h)
    | inr (r, found) ↦
        let (t', done, h) = save-Holds r found in
        (r.id, t', rw (found, put_source) (rw done refl), h)
  ]

assign_all-eq :
    (scope : Scope) (items : List CoaSourceAccountIn) (m n : Listing)
    → ((s : Scope) (k : SourceSystem) (c : String) → m s k c ≡ n s k c)
    → (s : Scope) (k : SourceSystem) (c : String)
    → assign_all scope items m s k c ≡ assign_all scope items n s k c
assign_all-eq scope [] m n h = h
assign_all-eq scope (i ∷ items) m n h =
    assign_all-eq scope items (assign scope i m) (assign scope i n)
      (λ s k c. ground (arith, h s k c))

abbrev with_sources : List CoaSourceAccount → Tables → Tables
with_sources rows t = record t { source_accounts = rows }

put_sources-Holds :
    (db : Database) (scope : Scope) (items : List CoaSourceAccountIn) (t : Tables)
    → Distinct (map (λ r. r.id) t.source_accounts)
    → All (Fitting scope) items
    → (ids : List ℕ) × (t' : Tables) × (put_sources db scope items t ≡ ok (ids, t'))
      × Holds t t' (assign_all scope items (listing t))
unfolding put_sources
put_sources-Holds db scope [] t d f =
    ([], t, refl, record { listed = λ s k c. refl; ids = d; rest = refl })
put_sources-Holds db scope (i ∷ items) t d (p, f) =
    let (id, t₁, first, h) = put_source-Holds db scope i t d p in
    let (ids, t₂, later, g) = put_sources-Holds db scope items t₁ h.ids f in
    (
      id ∷ ids,
      t₂,
      rw first (rw later refl),
      record {
        listed = λ s k c.
            g.listed s k c
            ∙ assign_all-eq scope items (listing t₁) (assign scope i (listing t)) h.listed s k c;
        ids = g.ids;
        rest = g.rest ∙ ap (with_sources t₂.source_accounts) h.rest;
      },
    )

-- What pydantic and the columns' sizes leave of a request.
abbrev pub stripped : CoaSourceAccountIn → CoaSourceAccountIn
stripped item = record item {
  source_account_code = strip item.source_account_code;
  source_account_name = strip item.source_account_name;
}

abbrev pub Acceptable : Scope → CoaSourceAccountIn → Type 0
Acceptable scope item =
    (is_empty (strip item.source_account_code) ≡ false)
    × (is_empty (strip item.source_account_name) ≡ false)
    × (scope_fits scope ≡ true)
    × (fits 50 (strip item.source_account_code) ≡ true)
    × (fits 200 (strip item.source_account_name) ≡ true)

normalize_sources-ok :
    (scope : Scope) (items : List CoaSourceAccountIn)
    → All (Acceptable scope) items
    → (normalize_sources items ≡ ok (map stripped items)) × All (Fitting scope) (map stripped items)
unfolding normalize_sources normalize_source
normalize_sources-ok scope [] h = (refl, tt)
normalize_sources-ok scope (i ∷ items) ((a, b, c, d, e), h) =
    let (done, f) = normalize_sources-ok scope items h in (rw (a, b, done) refl, ((c, d, e), f))

-- For a batch of acceptable items, on tables whose source accounts have distinct ids,
-- `upsert_source_accounts` succeeds, and is the sequence of writes of its stripped items to the
-- map from scope, product and code to name, type and use: all other keys and all other tables
-- are as before, and ids stay distinct.
pub upsert_source_accounts-refines :
    (db : Database) (scope : Scope) (items : List CoaSourceAccountIn) (t : Tables)
    → Distinct (map (λ r. r.id) t.source_accounts)
    → All (Acceptable scope) items
    → (views : List SourceView) × (t' : Tables) × (upsert_source_accounts db scope items t
        ≡ ok (views, t'))
      × Holds t t' (assign_all scope (map stripped items) (listing t))
unfolding upsert_source_accounts
upsert_source_accounts-refines db scope items t d h =
    let (done, f) = normalize_sources-ok scope items h in
    let (ids, t', put, g) = put_sources-Holds db scope (map stripped items) t d f in
    (map (source_view scope t') (refreshed t' ids), t', rw done (rw put refl), g)
