-- ===== src/Tenants/Lifecycle/Lockout.antt =====
-- When a tenant is kept out, and how long.
use sanmitra_backend.Base.{
  ℕ, ◌+◌, ◌≤◌, ◌≡◌, refl, String, true, false, Option, none, some, List, All, Result, ok, err,
  Bool-cases, Option-cases, inl, inr, arith, ltb,
}
use sanmitra_backend.Base.Text.{is_empty, strip, Casing}
use sanmitra_backend.Base.Equality.{string_eq, equal_self}
use sanmitra_backend.Base.Collection.{Collection}
use sanmitra_backend.Tenants.Lifecycle.{
  Tenant, TenantView, TenantError, State, inactive_403, active_tenant_cache_ttl, set_status,
  after_update, store_status, set_tenant_status, ensure_tenant_exists, ensure_tenant_is_active,
  get_tenant_status_cache, after_cache, put, touch, new_tenant,
}
use sanmitra_backend.Tenants.Lifecycle.Blocking.{Blocked, is_active-Blocked}
use sanmitra_backend.Tenants.Lifecycle.Requests.{Request, serve_all, lets_in, serve_all-Blocked}

refused :
    {e : TenantError} {v : TenantView} → ◌≡◌ {A = Result TenantError TenantView} (err e) (ok v) → ⊥
refused h = cc

module _ {Docs : Type 0} (python : Casing) (tenants : Collection Docs Tenant) where
  after_update-done :
      (k : String) (now : ℕ) (s : State Docs) (d : Tenant) (docs : Docs)
      → tenants.find_one k docs ≡ some d
      → d.status ≡ some "inactive"
      → Blocked python tenants k (after_update python tenants k "inactive" now s (docs, true)).1
  unfolding after_update
  after_update-done k now s d docs f i =
      rw (after_update, f)
        (record {
          contents = docs;
          connected = refl;
          doc = d;
          found = f;
          inactive = i;
          cached = rw (equal_self k) refl;
        })

  -- A status change that succeeds found the document.
  store_status-Blocked :
      (k by : String) (wall now : ℕ) (s : State Docs) (v : TenantView)
      → (store_status python tenants k "inactive" by wall now s).0 ≡ ok v
      → Blocked python tenants k (store_status python tenants k "inactive" by wall now s).1
  unfolding store_status after_update
  store_status-Blocked k by wall now s v h = elim (Option-cases s.docs) [
    | inl e ↦ absurd (refused (rw (store_status, e) at h))
    | inr (contents, e) ↦ elim (Option-cases (tenants.find_one k contents)) [
      | inl missing ↦
          absurd (refused (rw (store_status, e, tenants.update_missing k _ contents missing) at h))
      | inr (d, found) ↦
          let (docs, step, now_found) =
            tenants.update_found k (set_status wall by "inactive") contents d found in
          rw (store_status, e, step) (after_update-done k now s _ docs now_found refl)
    ]
  ]

  -- After `set_tenant_status` has set a tenant inactive, `ensure_tenant_is_active` refuses the
  -- tenant with status 403 at every later time, whatever calls for whatever tenants come between,
  -- unless one of them sets the tenant active or is `ensure_tenant_exists` for it.
  pub set_tenant_status_blocks :
      (tenant_id status by : String) (wall now : ℕ) (s : State Docs) (v : TenantView)
      (rs : List Request) (wall' now' : ℕ)
      → python.lower (strip status) ≡ "inactive"
      → (set_tenant_status python tenants tenant_id status by wall now s).0 ≡ ok v
      → All (λ r. lets_in python tenants (strip tenant_id) r ≡ false) rs
      → let s' =
          serve_all python tenants rs
            (set_tenant_status python tenants tenant_id status by wall now s).1 in
        (ensure_tenant_is_active python tenants (some tenant_id) wall' now' s').0 ≡ err inactive_403
  unfolding set_tenant_status
  set_tenant_status_blocks tenant_id status by wall now s v rs wall' now' low done spared =
      elim (Bool-cases (is_empty (strip tenant_id))) [
        | inl e ↦ absurd (refused (rw (set_tenant_status, e) at done))
        | inr e ↦
            (is_active-Blocked python tenants (strip tenant_id) (some tenant_id) wall' now' _ e refl
              (serve_all-Blocked python tenants (strip tenant_id) rs _ e spared (
                rw (set_tenant_status, e, low)
                  (store_status-Blocked (strip tenant_id) by wall now s v
                    (rw (set_tenant_status, e, low) at done))))).0
      ]

  touch-status :
      (wall : ℕ) (by : String) (name : Option String) (d : Tenant)
      → (touch wall by name d).status ≡ d.status
  touch-status wall by none d = refl
  touch-status wall by (some name) d = elim (Bool-cases (is_empty name)) [
    | inl e ↦ rw e refl
    | inr e ↦ rw e refl
  ]

  -- Within the lifetime of a cache entry.
  check_cached :
      (k : String) (wall now now' : ℕ) (docs : Option Docs) (cache : String → Option (ℕ × String))
      → now' ≤ now + active_tenant_cache_ttl
      → (after_cache python tenants k wall now' (
          get_tenant_status_cache python tenants k now'
            (record { docs = docs; cache = put k (some (now, "active")) cache }))).0
        ≡ ok tt
  unfolding get_tenant_status_cache after_cache
  check_cached k wall now now' docs cache h =
      let fresh : ltb (now + active_tenant_cache_ttl) now' ≡ false = ground (arith, h) in
      rw (get_tenant_status_cache, equal_self k, fresh) refl

  -- `ensure_tenant_exists` for a tenant that is stored keeps its status, whatever it is, and for the
  -- ten seconds of a cache entry `ensure_tenant_is_active` then lets the tenant in: also a tenant
  -- that is stored as inactive.
  pub ensure_tenant_exists_lets_in :
      (tenant_id : String) (name : Option String) (by : String) (wall now : ℕ) (s : State Docs)
      (contents : Docs) (d : Tenant) (wall' now' : ℕ)
      → is_empty (strip tenant_id) ≡ false
      → s.docs ≡ some contents
      → tenants.find_one (strip tenant_id) contents ≡ some d
      → now' ≤ now + active_tenant_cache_ttl
      → let s' = (ensure_tenant_exists python tenants tenant_id name by wall now s).1 in
        ((ensure_tenant_is_active python tenants (some tenant_id) wall' now' s').0 ≡ ok tt)
        × (docs' : Docs) × (s'.docs ≡ some docs')
        × (d' : Tenant) × (tenants.find_one (strip tenant_id) docs' ≡ some d')
        × (d'.status ≡ d.status)
  unfolding ensure_tenant_exists ensure_tenant_is_active
  ensure_tenant_exists_lets_in tenant_id name by wall now s contents d wall' now' full there found
        h =
      rw (ensure_tenant_exists, full, there)
        (
          check_cached (strip tenant_id) wall' now now' _ s.cache h,
          _,
          refl,
          touch wall by name d,
          tenants.upsert_found (strip tenant_id) (new_tenant (strip tenant_id) wall)
              (touch wall by name) contents d found,
          touch-status wall by name d,
        )
