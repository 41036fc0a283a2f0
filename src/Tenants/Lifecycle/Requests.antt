-- ===== src/Tenants/Lifecycle/Requests.antt =====
-- Sequences of calls of app/core/tenants/service.py, and a tenant that stays out through them.
use sanmitra_backend.Base.{
  ℕ, ◌≡◌, refl, sym, subst, ap, ◌∙◌, String, Bool, true, false, ◌&&◌, Option, none, some, List, [],
  ◌∷◌, All, ok, err, Bool-cases, Option-cases, inl, inr, arith,
}
use sanmitra_backend.Base.Text.{is_empty, strip, Casing, or_empty}
use sanmitra_backend.Base.Text.Strip.{strip-strip}
use sanmitra_backend.Base.Equality.{◌==◌, contains, string_eq}
use sanmitra_backend.Base.Collection.{Collection}
use sanmitra_backend.Tenants.Lifecycle.{
  Tenant, State, normalize_tenant_id, Call, get_tenant_status_cache, ensure_tenant_exists,
  get_tenant, after_update, store_status, valid_tenant_statuses, set_tenant_status, look_up,
  without_result, after_cache, ensure_tenant_is_active, set_status,
}
use sanmitra_backend.Tenants.Lifecycle.Blocking.{
  Blocked, put-Blocked, cache-Blocked, is_active-Blocked, exists-Blocked,
}

-- A call, with `datetime.now` and the clock.
pub data Request : Type 0 where
  check : Option String → ℕ → ℕ → Request
  ensure : String → Option String → String → ℕ → ℕ → Request
  change : String → String → String → ℕ → ℕ → Request
  read : String → Request

only_inactive :
    (status : String)
    → contains valid_tenant_statuses status ≡ true
    → (status == "active") ≡ false
    → status ≡ "inactive"
only_inactive status h g = ground (arith, string_eq.equal_iff status "inactive")

module _ {Docs : Type 0} (python : Casing) (tenants : Collection Docs Tenant) where
  unfoldable pub serve : Request → State Docs → State Docs
  serve (check tenant_id wall now) s =
      (ensure_tenant_is_active python tenants tenant_id wall now s).1
  serve (ensure tenant_id name by wall now) s =
      (ensure_tenant_exists python tenants tenant_id name by wall now s).1
  serve (change tenant_id status by wall now) s =
      (set_tenant_status python tenants tenant_id status by wall now s).1
  serve (read tenant_id) s = (get_tenant python tenants tenant_id s).1

  unfoldable pub serve_all : List Request → State Docs → State Docs
  unfolding serve
  serve_all [] s = s
  serve_all (r ∷ rs) s = serve_all rs (serve r s)

  -- The calls that may let a tenant in again: a reactivation, and `ensure_tenant_exists`.
  abbrev pub lets_in : String → Request → Bool
  lets_in k (check tenant_id wall now) = false
  lets_in k (ensure tenant_id name by wall now) = k == strip tenant_id
  lets_in k (change tenant_id status by wall now) =
      k == strip tenant_id && python.lower (strip status) == "active"
  lets_in k (read tenant_id) = false

  without_result-state :
      {A : Type 0} (c : Call python tenants A) → (without_result python tenants c).1 ≡ c.1
  without_result-state (ok a, s) = refl
  without_result-state (err e, s) = refl

  module _ (k : String) where
    abbrev Safe : State Docs → Type 0
    Safe s = Blocked python tenants k s

    look_up-other :
        (tenant_id : String) (wall now : ℕ) (s : State Docs)
        → (k == strip tenant_id) ≡ false
        → Safe s
        → Safe (look_up python tenants (strip tenant_id) wall now s).1
    unfolding look_up
    look_up-other tenant_id wall now s other b =
        elim (Option-cases (tenants.find_one (strip tenant_id) b.contents)) [
          | inl e ↦
              rw (look_up, b.connected, e)
                (rw
                  (without_result-state (
                    ensure_tenant_exists python tenants (strip tenant_id) none "system" wall now s))
                  (exists-Blocked python tenants k (strip tenant_id) none "system" wall now _
                    (rw (strip-strip tenant_id) other) b))
          | inr (d, e) ↦
              rw (look_up, b.connected, e)
                (put-Blocked python tenants k s (strip tenant_id) _ b
                  (λ same. ground (arith, same, other)))
        ]

    after_cache-other :
        (tenant_id : String) (wall now : ℕ) (r : Option String) (s : State Docs)
        → (k == strip tenant_id) ≡ false
        → Safe s
        → Safe (after_cache python tenants (strip tenant_id) wall now (r, s)).1
    unfolding after_cache
    after_cache-other tenant_id wall now none s other b = look_up-other tenant_id wall now s other b
    after_cache-other tenant_id wall now (some status) s other b = b

    after_update-Blocked :
        (j status : String) (now : ℕ) (s : State Docs) (r : Docs × Bool)
        → Safe (record s { docs = some r.0 })
        → ((k == j) ≡ true → (status == "active") ≡ false)
        → Safe (after_update python tenants j status now s r).1
    unfolding after_update
    after_update-Blocked j status now s (docs, false) b h = b
    after_update-Blocked j status now s (docs, true) b h =
        elim (Option-cases (tenants.find_one j docs)) [
          | inl e ↦ rw (after_update, e) b
          | inr (d, e) ↦
              rw (after_update, e)
                (put-Blocked python tenants k (record s { docs = some docs }) j (some (now, status))
                  b h)
        ]

    updated-Blocked :
        (tenant_id status by : String) (wall : ℕ) (s : State Docs)
        → ((k == tenant_id) ≡ true → status ≡ "inactive")
        → (b : Safe s)
        → Safe (record s {
          docs = some (tenants.update_one tenant_id (set_status wall by status) b.contents).0;
        })
    updated-Blocked tenant_id status by wall s h b = elim (Bool-cases (k == tenant_id)) [
      | inl e ↦
          let same = (string_eq.equal_iff k tenant_id).0 e in
          let (docs, step, now_found) =
            tenants.update_found tenant_id (set_status wall by status) b.contents b.doc
              (subst (λ j. tenants.find_one j b.contents ≡ some b.doc) same b.found) in
          record {
            contents = _;
            connected = refl;
            doc = set_status wall by status b.doc;
            found = rw (same, step) now_found;
            inactive = ap some (h e);
            cached = b.cached;
          }
      | inr e ↦ record {
        contents = _;
        connected = refl;
        doc = b.doc;
        found = tenants.update_other tenant_id k _ b.contents e ∙ b.found;
        inactive = b.inactive;
        cached = b.cached;
      }
    ]

    store_status-Blocked :
        (tenant_id status by : String) (wall now : ℕ) (s : State Docs)
        → ((k == tenant_id) ≡ true → status ≡ "inactive")
        → Safe s
        → Safe (store_status python tenants tenant_id status by wall now s).1
    unfolding store_status
    store_status-Blocked tenant_id status by wall now s h b =
        rw (store_status, b.connected)
          (after_update-Blocked tenant_id status now s _
            (updated-Blocked tenant_id status by wall s h b) (λ e. rw (h e) refl))

    check-Blocked :
        (tenant_id : Option String) (wall now : ℕ) (s : State Docs)
        → is_empty k ≡ false
        → Safe s
        → Safe (ensure_tenant_is_active python tenants tenant_id wall now s).1
    unfolding ensure_tenant_is_active
    check-Blocked tenant_id wall now s full b =
        elim (Bool-cases (is_empty (normalize_tenant_id tenant_id))) [
          | inl e ↦ rw (ensure_tenant_is_active, e) b
          | inr e ↦ elim (Bool-cases (k == normalize_tenant_id tenant_id)) [
            | inl same ↦
                (is_active-Blocked python tenants k tenant_id wall now s full
                  (sym ((string_eq.equal_iff k (normalize_tenant_id tenant_id)).0 same)) b).1
            | inr other ↦
                rw (ensure_tenant_is_active, e)
                  (after_cache-other (or_empty tenant_id) wall now
                    (get_tenant_status_cache python tenants (normalize_tenant_id tenant_id) now s).0
                    (get_tenant_status_cache python tenants (normalize_tenant_id tenant_id) now s).1
                    other (cache-Blocked python tenants k (normalize_tenant_id tenant_id) now s b))
          ]
        ]

    change-Blocked :
        (tenant_id status by : String) (wall now : ℕ) (s : State Docs)
        → lets_in k (change tenant_id status by wall now) ≡ false
        → Safe s
        → Safe (set_tenant_status python tenants tenant_id status by wall now s).1
    unfolding set_tenant_status
    change-Blocked tenant_id status by wall now s h b =
        elim (Bool-cases (is_empty (strip tenant_id))) [
          | inl e ↦ rw (set_tenant_status, e) b
          | inr e ↦
              elim (Bool-cases (contains valid_tenant_statuses (python.lower (strip status)))) [
                | inl valid ↦
                    rw (set_tenant_status, e, valid)
                      (store_status-Blocked (strip tenant_id) (python.lower (strip status)) by wall
                        now s (λ same. only_inactive _ valid (ground (arith, same, h))) b)
                | inr other ↦ rw (set_tenant_status, e, other) b
              ]
        ]

    get_tenant-Blocked :
        (tenant_id : String) (s : State Docs)
        → Safe s
        → Safe (get_tenant python tenants tenant_id s).1
    unfolding get_tenant
    get_tenant-Blocked tenant_id s b = elim (Bool-cases (is_empty (strip tenant_id))) [
      | inl e ↦ rw (get_tenant, e) b
      | inr e ↦ elim (Option-cases (tenants.find_one (strip tenant_id) b.contents)) [
        | inl missing ↦ rw (get_tenant, e, b.connected, missing) b
        | inr (d, found) ↦ rw (get_tenant, e, b.connected, found) b
      ]
    ]

    serve-Blocked :
        (r : Request) (s : State Docs)
        → is_empty k ≡ false
        → lets_in k r ≡ false
        → Safe s
        → Safe (serve r s)
    unfolding serve
    serve-Blocked (check tenant_id wall now) s full h b = check-Blocked tenant_id wall now s full b
    serve-Blocked (ensure tenant_id name by wall now) s full h b =
        exists-Blocked python tenants k tenant_id name by wall now s h b
    serve-Blocked (change tenant_id status by wall now) s full h b =
        change-Blocked tenant_id status by wall now s h b
    serve-Blocked (read tenant_id) s full h b = get_tenant-Blocked tenant_id s b

    pub serve_all-Blocked :
        (rs : List Request) (s : State Docs)
        → is_empty k ≡ false
        → All (λ r. lets_in k r ≡ false) rs
        → Safe s
        → Safe (serve_all rs s)
    unfolding serve_all
    serve_all-Blocked [] s full h b = b
    serve_all-Blocked (r ∷ rs) s full (p, h) b =
        serve_all-Blocked rs (serve r s) full h (serve-Blocked r s full p b)
