-- ===== src/Accounting/Coa/Mappings.antt =====
-- `upsert_coa_mappings`, `list_coa_mappings`, `approve_coa_mappings` and
-- `get_coa_onboarding_status` of app/accounting/service.py. `now` is `datetime.now`, read once in
-- a call.
pub mod Invariant
pub mod Approval
pub mod Counts
use sanmitra_backend.Base.{
  ℕ, ◌+◌, ◌-◌, ◌≡◌, String, Bool, true, false, not, ◌&&◌, Option, none, some, List, [], ◌∷◌, ◌++◌,
  map, ok, err, ◌>>=◌, ◌>>◌, raise_if, keep, any, all, nat_beq, length, if◌then◌else◌,
}
use sanmitra_backend.Base.Text.{is_empty, strip}
use sanmitra_backend.Base.Equality.{◌==◌, contains, add, nat_eq, string_eq}
use sanmitra_backend.Accounting.Errors.{
  Outcome, validation, empty_source_code, empty_codes, no_mappings, not_found, source_keys,
  source_codes, account_id, no_source_accounts,
}
use sanmitra_backend.Accounting.Entities.{
  Scope, scope_eq, Account, SourceSystem, CoaSourceAccount, CoaMapping, MappingStatus, active,
  draft, Tables,
}
use sanmitra_backend.Accounting.Store.{Database}
use sanmitra_backend.Accounting.Journal.{available_account_ids}
use sanmitra_backend.Accounting.Table.{find_last, update_row}
use sanmitra_backend.Accounting.Coa.Systems.{system_eq, status_eq}
use sanmitra_backend.Accounting.Coa.Rows.{maps_source, insert_mapping, save_mapping}
use sanmitra_backend.Accounting.Coa.Sources.{find_source, of_system}

pub record CoaMappingIn : Type 0 where
  pub source_system : SourceSystem
  pub source_account_code : String
  pub canonical_account_id : ℕ
  pub status : MappingStatus
  pub notes : Option String

-- An entry of `key_to_item`.
pub record Keyed : Type 0 where
  pub system : SourceSystem
  pub code : String
  pub item : CoaMappingIn

-- `key_to_item[key] = item`: a key keeps its place and takes the new item.
abbrev pub put_item : Keyed → List Keyed → List Keyed
put_item k [] = k ∷ []
put_item k (j ∷ js) = if j.system == k.system && j.code == k.code then k ∷ js else j ∷ put_item k js

-- The first loop.
pub collect_items : List CoaMappingIn → List Keyed → Outcome (List Keyed)
collect_items [] keyed = ok keyed
collect_items (i ∷ items) keyed = do
  let code = strip i.source_account_code
  raise_if (is_empty code) (validation empty_source_code)
  collect_items items (put_item (record { system = i.source_system; code = code; item = i }) keyed)

-- `source_lookup[key]`
pub source_or_raise : Option CoaSourceAccount → Outcome CoaSourceAccount
source_or_raise none = err (not_found source_keys)
source_or_raise (some r) = ok r

-- The sources of all keys, or the exception for those that are missing.
pub look_up_sources : Scope → List Keyed → Tables → Outcome (List (CoaSourceAccount × CoaMappingIn))
unfolding source_or_raise
look_up_sources scope [] t = ok []
look_up_sources scope (k ∷ keyed) t = do
  r ← source_or_raise (find_source scope k.system k.code t)
  rest ← look_up_sources scope keyed t
  ok ((r, k.item) ∷ rest)

abbrev pub mapping_row : Scope → String → ℕ → CoaSourceAccount → CoaMappingIn → CoaMapping
mapping_row scope mapped_by now source item = record {
  id = 0;
  scope = scope;
  source_account_id = source.id;
  canonical_account_id = item.canonical_account_id;
  status = item.status;
  notes = item.notes;
  mapped_by = mapped_by;
  mapped_at = now;
}

abbrev pub remap : String → ℕ → CoaMappingIn → CoaMapping → CoaMapping
remap mapped_by now item m = record m {
  canonical_account_id = item.canonical_account_id;
  status = item.status;
  notes = item.notes;
  mapped_by = mapped_by;
  mapped_at = now;
}

-- The `if existing is None` of the second loop; the touched mapping's id.
pub put_mapping :
    Database
    → Scope
    → String
    → ℕ
    → CoaSourceAccount
    → CoaMappingIn
    → Option CoaMapping
    → Tables
    → Outcome (ℕ × Tables)
put_mapping db scope mapped_by now source item none t = do
  (m, t') ← insert_mapping db (mapping_row scope mapped_by now source item) t
  ok (m.id, t')
put_mapping db scope mapped_by now source item (some m) t = do
  t' ← save_mapping m (remap mapped_by now item) t
  ok (m.id, t')

-- The second loop. `existing_by_source_id` holds the stored mappings and those that are added.
pub put_mappings :
    Database
    → Scope
    → String
    → ℕ
    → List (CoaSourceAccount × CoaMappingIn)
    → Tables
    → Outcome (List ℕ × Tables)
unfolding put_mapping
put_mappings db scope mapped_by now [] t = ok ([], t)
put_mappings db scope mapped_by now ((source, item) ∷ pairs) t = do
  (id, t') ←
      put_mapping db scope mapped_by now source item
        (find_last (maps_source scope source.id) t.mappings) t
  (ids, t'') ← put_mappings db scope mapped_by now pairs t'
  ok (id ∷ ids, t'')

-- A row of the joined queries: the mapping, its source and its canonical account.
abbrev pub Joined : Type 0
Joined = CoaMapping × CoaSourceAccount × Account

-- The inner joins on the two foreign keys.
abbrev pub with_accounts : Tables → CoaMapping → CoaSourceAccount → List Joined
with_accounts t m s =
    map (λ a. (m, s, a)) (keep (λ a. nat_beq a.id m.canonical_account_id) t.accounts)

abbrev pub join_sources : Tables → CoaMapping → List CoaSourceAccount → List Joined
join_sources t m [] = []
join_sources t m (s ∷ ss) = with_accounts t m s ++ join_sources t m ss

abbrev pub join_mappings : Tables → List CoaMapping → List Joined
join_mappings t [] = []
join_mappings t (m ∷ ms) =
    join_sources t m (keep (λ s. nat_beq s.id m.source_account_id) t.source_accounts)
    ++ join_mappings t ms

abbrev pub lacks_account : List ℕ → List (CoaSourceAccount × CoaMappingIn) → Bool
lacks_account available pairs =
    any (λ (s, i). not (contains available i.canonical_account_id)) pairs

unfoldable pub upsert_coa_mappings :
    Database → Scope → String → ℕ → List CoaMappingIn → Tables → Outcome (List Joined × Tables)
unfolding collect_items look_up_sources put_mappings
upsert_coa_mappings db scope mapped_by now items t = do
  keyed ← collect_items items []
  pairs ← look_up_sources scope keyed t
  raise_if (lacks_account (available_account_ids scope t) pairs) (not_found account_id)
  (ids, t') ← put_mappings db scope mapped_by now pairs t
  ok (
    db.order_joined
        (join_mappings t' (keep (λ m. contains ids m.id && m.scope == scope) t'.mappings)),
    t',
  )

-- `if status:`
abbrev pub of_status : Option MappingStatus → MappingStatus → Bool
of_status none s = true
of_status (some k) s = s == k

unfoldable pub list_coa_mappings :
    Database → Scope → Option SourceSystem → Option MappingStatus → Tables → List Joined
list_coa_mappings db scope system status t = db.order_joined (
    keep (λ (m, s, a). of_system system s.source_system && of_status status m.status)
      (join_mappings t (keep (λ m. m.scope == scope) t.mappings)))

-- The active source accounts of a product.
abbrev pub in_use : Scope → SourceSystem → CoaSourceAccount → Bool
in_use scope system r = r.scope == scope && r.source_system == system && r.is_active

-- `{code.strip() for code in source_account_codes if code.strip()}`
abbrev pub stripped_codes : List String → List String
stripped_codes [] = []
stripped_codes (c ∷ cs) =
    let rest = stripped_codes cs in if is_empty (strip c) then rest else add rest (strip c)

-- `source_account_codes`, where an empty list counts as none given.
pub codes_given : Option (List String) → Outcome (Option (List String))
codes_given none = ok none
codes_given (some []) = ok none
codes_given (some (c ∷ cs)) = do
  raise_if (nat_beq (length (stripped_codes (c ∷ cs))) 0) (validation empty_codes)
  ok (some (stripped_codes (c ∷ cs)))

abbrev pub code_in : Option (List String) → String → Bool
code_in none c = true
code_in (some codes) c = contains codes c

-- `missing_codes`
abbrev pub lacks_code : Option (List String) → List CoaSourceAccount → Bool
lacks_code none sources = false
lacks_code (some codes) sources =
    any (λ c. not (any (λ r. r.source_account_code == c) sources)) codes

abbrev pub approve_row : String → ℕ → CoaMapping → CoaMapping
approve_row approved_by now m = record m {
  status = active;
  mapped_by = approved_by;
  mapped_at = now;
}

-- The loop over the mappings.
pub approve_rows : String → ℕ → List CoaMapping → Tables → Outcome (ℕ × Tables)
approve_rows approved_by now [] t = ok (0, t)
approve_rows approved_by now (m ∷ ms) t = elim (m.status == active) [
  | true ↦ approve_rows approved_by now ms t
  | false ↦ do
    t' ← save_mapping m (approve_row approved_by now) t
    (n, t'') ← approve_rows approved_by now ms t'
    ok (n + 1, t'')
]

-- The mappings in the scope of some of the sources.
abbrev pub mappings_of : Scope → List CoaSourceAccount → Tables → List CoaMapping
mappings_of scope sources t =
    keep (λ m. m.scope == scope && contains (map (λ r. r.id) sources) m.source_account_id)
      t.mappings

unfoldable pub approve_coa_mappings :
    Scope → SourceSystem → String → Option (List String) → ℕ → Tables → Outcome (ℕ × Tables)
unfolding codes_given approve_rows
approve_coa_mappings scope system approved_by source_account_codes now t = do
  codes ← codes_given source_account_codes
  let sources =
      keep (λ r. in_use scope system r && code_in codes r.source_account_code) t.source_accounts
  raise_if (nat_beq (length sources) 0) (not_found no_source_accounts)
  raise_if (lacks_code codes sources) (not_found source_codes)
  raise_if (nat_beq (length (mappings_of scope sources t)) 0) (validation no_mappings)
  approve_rows approved_by now (mappings_of scope sources t) t

pub record OnboardingStatus : Type 0 where
  pub total_source_accounts : ℕ
  pub mapped_active : ℕ
  pub mapped_draft : ℕ
  pub unmapped : ℕ

-- `{row.source_account_id for row in mapping_rows if row.status == status}`
abbrev pub ids_with : MappingStatus → List CoaMapping → List ℕ
ids_with status [] = []
ids_with status (m ∷ ms) =
    let rest = ids_with status ms in
    if m.status == status then add rest m.source_account_id else rest

unfoldable pub get_coa_onboarding_status : Scope → SourceSystem → Tables → OnboardingStatus
get_coa_onboarding_status scope system t =
    let sources = keep (in_use scope system) t.source_accounts in
    let rows = mappings_of scope sources t in
    let active_ids = ids_with active rows in
    let draft_ids = ids_with draft rows in
    let mapped_active = length active_ids in
    let mapped_draft = length (keep (λ i. not (contains active_ids i)) draft_ids) in
    record {
      total_source_accounts = length sources;
      mapped_active = mapped_active;
      mapped_draft = mapped_draft;
      unmapped = length sources - mapped_active - mapped_draft;
    }
