-- ===== src/Tenants/Lifecycle/Blocking.antt =====
-- A tenant that was set inactive stays out.
use sanmitra_backend.Base.{
  ℕ, ◌≡◌, refl, ap, ◌∙◌, ◌+◌, String, Bool, true, false, Option, none, some, Result, err,
  Bool-cases, Option-cases, inl, inr, arith, ltb,
}
use sanmitra_backend.Base.Text.{is_empty, strip, Casing}
use sanmitra_backend.Base.Equality.{◌==◌, string_eq}
use sanmitra_backend.Base.Collection.{Collection}
use sanmitra_backend.Tenants.Lifecycle.{
  Tenant, State, Cache, put, active_tenant_cache_ttl, inactive_403, stored_status,
  normalize_tenant_id, get_tenant_status_cache, ensure_tenant_exists, look_up, after_cache,
  ensure_tenant_is_active, TenantError,
}

-- What a cache entry says.
abbrev pub allows : Option (ℕ × String) → Bool
allows none = false
allows (some (ts, status)) = status == "active"

module _ {Docs : Type 0} (python : Casing) (tenants : Collection Docs Tenant) where
  -- The stored status is inactive and no cache entry lets the tenant in.
  pub record Blocked (k : String) (s : State Docs) : Type 0 where
    pub contents : Docs
    pub connected : s.docs ≡ some contents
    pub doc : Tenant
    pub found : tenants.find_one k contents ≡ some doc
    pub inactive : doc.status ≡ some "inactive"
    pub cached : allows (s.cache k) ≡ false

  abbrev connect : Cache → Option Docs → Result TenantError (Unit {0}) × State Docs
  connect cache docs = (err inactive_403, record { docs = docs; cache = cache })

  inactive_status :
      (d : Tenant) → d.status ≡ some "inactive" → stored_status python tenants d ≡ "inactive"
  unfolding strip
  inactive_status d h = rw h (python.lower_plain "inactive" refl)

  module _ (k : String) where
    pub reconnect-Blocked :
        (s : State Docs) (b : Blocked k s) → Blocked k (record s { docs = some b.contents })
    reconnect-Blocked s b = record {
      contents = b.contents;
      connected = refl;
      doc = b.doc;
      found = b.found;
      inactive = b.inactive;
      cached = b.cached;
    }

    pub put-Blocked :
        (s : State Docs) (j : String) (entry : Option (ℕ × String))
        → Blocked k s
        → ((k == j) ≡ true → allows entry ≡ false)
        → Blocked k (record s { cache = put j entry s.cache })
    put-Blocked s j entry b h = record {
      contents = b.contents;
      connected = b.connected;
      doc = b.doc;
      found = b.found;
      inactive = b.inactive;
      cached = ground (arith, b.cached);
    }

    -- The read of the cache.
    pub cache-Blocked :
        (j : String) (now : ℕ) (s : State Docs)
        → Blocked k s
        → Blocked k (get_tenant_status_cache python tenants j now s).1
    unfolding get_tenant_status_cache
    cache-Blocked j now s b = elim (Option-cases (s.cache j)) [
      | inl h ↦ rw (get_tenant_status_cache, h) b
      | inr ((ts, status), h) ↦ elim (Bool-cases (ltb (ts + active_tenant_cache_ttl) now)) [
        | inl old ↦ rw (get_tenant_status_cache, h, old) (put-Blocked s j none b (λ _. refl))
        | inr new ↦ rw (get_tenant_status_cache, h, new) b
      ]
    ]

    look_up-Blocked :
        (wall now : ℕ) (s : State Docs)
        → Blocked k s
        → look_up python tenants k wall now s
          ≡ (err inactive_403, record s { cache = put k (some (now, "inactive")) s.cache })
    unfolding look_up
    look_up-Blocked wall now s b =
        rw (look_up, b.connected, b.found, inactive_status b.doc b.inactive)
          (ap (connect (put k (some (now, "inactive")) s.cache)) b.connected)

    -- What the cache gives lets nobody in.
    cache-denies :
        (now : ℕ) (s : State Docs) (status : String)
        → allows (s.cache k) ≡ false
        → (get_tenant_status_cache python tenants k now s).0 ≡ some status
        → (status == "active") ≡ false
    unfolding get_tenant_status_cache
    cache-denies now s status a h = elim (Option-cases (s.cache k)) [
      | inl e ↦ ground (arith, e, h)
      | inr ((ts, st), e) ↦ ground (arith, e, h, a)
    ]

    after_cache-Blocked :
        (wall now : ℕ) (r : Option String) (s : State Docs)
        → Blocked k s
        → ((status : String) → r ≡ some status → (status == "active") ≡ false)
        → ((after_cache python tenants k wall now (r, s)).0 ≡ err inactive_403)
          × Blocked k (after_cache python tenants k wall now (r, s)).1
    unfolding after_cache
    after_cache-Blocked wall now none s b h =
        rw (look_up-Blocked wall now s b) (refl, put-Blocked s k _ b (λ _. refl))
    after_cache-Blocked wall now (some status) s b h = (ground (arith, h status refl), b)

    pub is_active-Blocked :
        (tenant_id : Option String) (wall now : ℕ) (s : State Docs)
        → is_empty k ≡ false
        → normalize_tenant_id tenant_id ≡ k
        → Blocked k s
        → ((ensure_tenant_is_active python tenants tenant_id wall now s).0 ≡ err inactive_403)
          × Blocked k (ensure_tenant_is_active python tenants tenant_id wall now s).1
    unfolding ensure_tenant_is_active
    is_active-Blocked tenant_id wall now s full same b =
        rw (same, full)
          (after_cache-Blocked wall now (get_tenant_status_cache python tenants k now s).0
            (get_tenant_status_cache python tenants k now s).1 (cache-Blocked k now s b)
            (λ status h. cache-denies now s status b.cached h))

    -- A check of another tenant.
    pub exists-Blocked :
        (tenant_id : String) (name : Option String) (by : String) (wall now : ℕ) (s : State Docs)
        → (k == strip tenant_id) ≡ false
        → Blocked k s
        → Blocked k (ensure_tenant_exists python tenants tenant_id name by wall now s).1
    unfolding ensure_tenant_exists
    exists-Blocked tenant_id name by wall now s other b =
        elim (Bool-cases (is_empty (strip tenant_id))) [
          | inl e ↦ rw e b
          | inr e ↦
              rw (ensure_tenant_exists, e, b.connected)
                (record {
                  contents = _;
                  connected = refl;
                  doc = b.doc;
                  found = tenants.upsert_other (strip tenant_id) k _ _ b.contents other ∙ b.found;
                  inactive = b.inactive;
                  cached = ground (arith, other, b.cached);
                })
        ]
