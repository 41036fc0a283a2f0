-- ===== src/Tenants/Lifecycle.antt =====
-- app/core/tenants/service.py: the tenants' documents, and the cache of their statuses. A clock
-- reading is a number of nanoseconds, and stands still during one call; `wall` is
-- `datetime.now`. `none` for the contents is a server that is not configured, for which
-- `get_collection` raises RuntimeError. Creating the indexes changes no document.
pub mod Blocking
pub mod Requests
pub mod Lockout
use sanmitra_backend.Base.{
  ℕ, ◌+◌, ◌*◌, ◌^◌, String, Bool, true, false, not, ◌||◌, Option, none, some, List, [], ◌∷◌, Result,
  ok, err, ltb, if◌then◌else◌,
}
use sanmitra_backend.Base.Text.{is_empty, strip, Casing, or_empty, or_default}
use sanmitra_backend.Base.Equality.{◌==◌, contains, string_eq}
use sanmitra_backend.Base.Collection.{Collection}

-- A document of core_tenants; a field may be missing.
pub record Tenant : Type 0 where
  pub tenant_id : String
  pub display_name : Option String
  pub status : Option String
  pub created_at : Option ℕ
  pub updated_at : Option ℕ
  pub updated_by : Option String

-- ValueError, KeyError, HTTPException(403) and RuntimeError.
pub data TenantError : Type 0 where
  id_required invalid_status not_found inactive_403 no_database : TenantError

-- What `_serialize_tenant` returns.
pub record TenantView : Type 0 where
  pub tenant_id : String
  pub display_name : Option String
  pub status : String
  pub created_at : Option ℕ
  pub updated_at : Option ℕ
  pub updated_by : Option String

abbrev pub status_or_active : Option String → String
status_or_active none = "active"
status_or_active (some s) = s

abbrev pub serialize_tenant : Tenant → TenantView
serialize_tenant d = record {
  tenant_id = d.tenant_id;
  display_name = d.display_name;
  status = status_or_active d.status;
  created_at = d.created_at;
  updated_at = d.updated_at;
  updated_by = d.updated_by;
}

-- `_ACTIVE_TENANT_CACHE`
abbrev pub Cache : Type 0
Cache = String → Option (ℕ × String)

-- `_ACTIVE_TENANT_CACHE_TTL_SECONDS`
abbrev pub active_tenant_cache_ttl : ℕ
active_tenant_cache_ttl = 10 * 10 ^ 9

abbrev pub put : String → Option (ℕ × String) → Cache → Cache
put k entry cache = λ j. if j == k then entry else cache j

pub record State (Docs : Type 0) : Type 0 where
  pub docs : Option Docs
  pub cache : Cache

-- `VALID_TENANT_STATUSES`
abbrev pub valid_tenant_statuses : List String
valid_tenant_statuses = "active" ∷ "inactive" ∷ []

-- `str(tenant_id or "").strip()`
abbrev pub normalize_tenant_id : Option String → String
normalize_tenant_id tenant_id = strip (or_empty tenant_id)

-- The documents' `$set`s.
abbrev pub set_name : Option String → Tenant → Tenant
set_name none d = d
set_name (some name) d = if is_empty name then d else record d { display_name = some (strip name) }

abbrev pub touch : ℕ → String → Option String → Tenant → Tenant
touch wall by display_name d =
    set_name display_name (record d { updated_at = some wall; updated_by = some by })

abbrev pub set_status : ℕ → String → String → Tenant → Tenant
set_status wall by status d = record d {
  status = some status;
  updated_at = some wall;
  updated_by = some by;
}

-- `$setOnInsert`
abbrev pub new_tenant : String → ℕ → Tenant
new_tenant tenant_id wall = record {
  tenant_id = tenant_id;
  display_name = none;
  status = some "active";
  created_at = some wall;
  updated_at = none;
  updated_by = none;
}

-- `doc or {"tenant_id": normalized_tenant_id, "status": "active"}`
abbrev pub doc_or_active : String → Option Tenant → Tenant
doc_or_active k (some d) = d
doc_or_active k none = record {
  tenant_id = k;
  display_name = none;
  status = some "active";
  created_at = none;
  updated_at = none;
  updated_by = none;
}

module _ {Docs : Type 0} (python : Casing) (tenants : Collection Docs Tenant) where
  abbrev pub Call : Type 0 → Type 0
  Call A = Result TenantError A × State Docs

  -- `_set_tenant_status_cache`
  abbrev pub set_tenant_status_cache : String → String → ℕ → State Docs → State Docs
  set_tenant_status_cache k status now s = record s { cache = put k (some (now, status)) s.cache }

  -- `_get_tenant_status_cache`
  pub get_tenant_status_cache : String → ℕ → State Docs → Option String × State Docs
  get_tenant_status_cache k now s = elim (s.cache k) [
    | none ↦ (none, s)
    | some (ts, status) ↦
        if ltb (ts + active_tenant_cache_ttl) now
        then (none, record s { cache = put k none s.cache })
        else (some status, s)
  ]

  unfoldable pub ensure_tenant_exists :
      String → Option String → String → ℕ → ℕ → State Docs → Call TenantView
  ensure_tenant_exists tenant_id display_name created_by wall now s =
      let k = strip tenant_id in
      if is_empty k then (err id_required, s) else elim s.docs [
        | none ↦ (err no_database, s)
        | some docs ↦
            let docs' =
              tenants.upsert_one k (new_tenant k wall) (touch wall created_by display_name) docs in
            (
              ok (serialize_tenant (doc_or_active k (tenants.find_one k docs'))),
              set_tenant_status_cache k "active" now (record s { docs = some docs' }),
            )
      ]

  unfoldable pub get_tenant : String → State Docs → Call (Option TenantView)
  get_tenant tenant_id s =
      let k = strip tenant_id in
      if is_empty k then (ok none, s) else elim s.docs [
        | none ↦ (err no_database, s)
        | some docs ↦ elim (tenants.find_one k docs) [
          | none ↦ (ok none, s)
          | some d ↦ (ok (some (serialize_tenant d)), s)
        ]
      ]

  -- After `update_one`.
  pub after_update : String → String → ℕ → State Docs → Docs × Bool → Call TenantView
  after_update k status now s (docs, false) = (err not_found, record s { docs = some docs })
  after_update k status now s (docs, true) = elim (tenants.find_one k docs) [
    | none ↦ (err not_found, record s { docs = some docs })
    | some d ↦ (
      ok (serialize_tenant d),
      set_tenant_status_cache k status now (record s { docs = some docs }),
    )
  ]

  -- After the two tests.
  pub store_status : String → String → String → ℕ → ℕ → State Docs → Call TenantView
  unfolding after_update
  store_status k status updated_by wall now s = elim s.docs [
    | none ↦ (err no_database, s)
    | some docs ↦
        after_update k status now s (tenants.update_one k (set_status wall updated_by status) docs)
  ]

  unfoldable pub set_tenant_status : String → String → String → ℕ → ℕ → State Docs → Call TenantView
  unfolding store_status
  set_tenant_status tenant_id status updated_by wall now s =
      let k = strip tenant_id in
      let normalized_status = python.lower (strip status) in
      if is_empty k
      then (err id_required, s)
      else if not (contains valid_tenant_statuses normalized_status)
      then (err invalid_status, s)
      else store_status k normalized_status updated_by wall now s

  -- `if status != "active": raise`
  abbrev pub require_active : String → Result TenantError (Unit {0})
  require_active status = if status == "active" then ok tt else err inactive_403

  abbrev pub without_result : {A : Type 0} → Call A → Call (Unit {0})
  without_result (ok a, s) = (ok tt, s)
  without_result (err e, s) = (err e, s)

  -- `str(doc.get("status") or "active").strip().lower()`
  abbrev pub stored_status : Tenant → String
  stored_status d = python.lower (strip (or_default (or_empty d.status) "active"))

  -- Past the cache.
  pub look_up : String → ℕ → ℕ → State Docs → Call (Unit {0})
  unfolding ensure_tenant_exists
  look_up k wall now s = elim s.docs [
    | none ↦ (ok tt, s)
    | some docs ↦ elim (tenants.find_one k docs) [
      | none ↦ without_result (ensure_tenant_exists k none "system" wall now s)
      | some d ↦
          (require_active (stored_status d), set_tenant_status_cache k (stored_status d) now s)
    ]
  ]

  pub after_cache : String → ℕ → ℕ → Option String × State Docs → Call (Unit {0})
  unfolding look_up
  after_cache k wall now (some status, s) = (require_active status, s)
  after_cache k wall now (none, s) = look_up k wall now s

  unfoldable pub ensure_tenant_is_active : Option String → ℕ → ℕ → State Docs → Call (Unit {0})
  unfolding get_tenant_status_cache after_cache
  ensure_tenant_is_active tenant_id wall now s =
      let k = normalize_tenant_id tenant_id in
      if is_empty k then (ok tt, s) else after_cache k wall now (get_tenant_status_cache k now s)
