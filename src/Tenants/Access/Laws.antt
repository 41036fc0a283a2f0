-- ===== src/Tenants/Access/Laws.antt =====
-- Whose tenant a request may act for.
use sanmitra_backend.Base.{
  ◌≡◌, refl, subst, ◌↔◌, ◌⊎◌, String, Bool, true, false, not, Option, Result, ok, inl, inr,
  >>=-eq-ok, raise_if-eq-ok, arith,
}
use sanmitra_backend.Base.Text.{is_empty, Casing}
use sanmitra_backend.Base.Equality.{contains, string_eq}
use sanmitra_backend.Tenants.Access.{
  Denied, not_enabled_403, missing_401, entity_missing_400, shared_tenant_403, User, Settings,
  token_tenant, header_tenant, is_super_admin, choose_tenant, resolve_tenant_id, AccountingContext,
  accounting_app_keys, shared_accounting_tenants, resolve_accounting_context, admit,
  request_app_key, request_entity, user_id_of,
}

own_tenant :
    (token header t : String)
    → (choose_tenant false token header ≡ ok t)
      ↔ ((t ≡ token) × (is_empty t ≡ false) × ((is_empty header ≡ true) ⊎ (header ≡ token)))
unfolding choose_tenant
own_tenant token header t = ground (arith, string_eq.equal_iff header token)

-- A user who is no super admin acts for a tenant exactly when it is the tenant of the access token,
-- it is not blank, and the header, or else the context, names no other tenant.
pub resolve_tenant_id_iff :
    (user : User) (x_tenant_id context : Option String) (t : String)
    → is_super_admin user ≡ false
    → (resolve_tenant_id user x_tenant_id context ≡ ok t) ↔ (
        (t ≡ token_tenant user)
        × (is_empty t ≡ false)
        × ((is_empty (header_tenant x_tenant_id context) ≡ true)
            ⊎ (header_tenant x_tenant_id context ≡ token_tenant user)))
unfolding resolve_tenant_id
resolve_tenant_id_iff user x_tenant_id context t h = rw h (own_tenant _ _ t)

-- What holds of the context of an accounting request.
pub record Admitted (user : User) (c : AccountingContext) : Type 0 where
  pub product : contains accounting_app_keys c.app_key ≡ true
  pub apart : contains shared_accounting_tenants c.tenant_id ≡ false
  pub tenant : is_empty c.tenant_id ≡ false
  pub entity : is_empty c.accounting_entity_id ≡ false
  pub own : (is_super_admin user ≡ true) ⊎ (c.tenant_id ≡ token_tenant user)

own_or_super :
    (super : Bool) (token header t : String)
    → choose_tenant super token header ≡ ok t
    → (super ≡ true) ⊎ (t ≡ token)
own_or_super true token header t h = inl refl
own_or_super false token header t h = inr ((own_tenant token header t).0 h).0

ok-injective :
    {a b : AccountingContext} → ◌≡◌ {A = Result Denied AccountingContext} (ok a) (ok b) → a ≡ b
ok-injective h = cc

admit-Admitted :
    (user : User) (app_key tenant entity user_id : String) (c : AccountingContext)
    → (is_super_admin user ≡ true) ⊎ (tenant ≡ token_tenant user)
    → admit app_key tenant entity user_id ≡ ok c
    → Admitted user c
unfolding admit
admit-Admitted user app_key tenant entity user_id c own h =
    let (a, h₁) = raise_if-eq-ok (not (contains accounting_app_keys app_key)) not_enabled_403 _ h in
    let (b, h₂) = raise_if-eq-ok (is_empty tenant) missing_401 _ h₁ in
    let (d, h₃) = raise_if-eq-ok (is_empty entity) entity_missing_400 _ h₂ in
    let (e, h₄) =
      raise_if-eq-ok (contains shared_accounting_tenants tenant) shared_tenant_403 _ h₃ in
    let built : Admitted user (record {
      app_key = app_key;
      tenant_id = tenant;
      accounting_entity_id = entity;
      user_id = user_id;
    }) =
      record { product = ground (arith, a); apart = e; tenant = b; entity = d; own = own } in
    subst (Admitted user) (ok-injective h₄) built

module _ (python : Casing) (settings : Settings) (user : User)
    (x_tenant_id x_app_key x_entity context : Option String) (context_app_key : String) where
  -- An accounting request that passes `resolve_accounting_context` acts for one of the three
  -- accounting products, in a tenant and an entity that are not blank, never in a shared tenant,
  -- and, unless the user is a super admin, in the tenant of the access token.
  pub resolve_accounting_context_sound :
      (c : AccountingContext)
      → resolve_accounting_context python settings user x_tenant_id x_app_key x_entity context
          context_app_key
        ≡ ok c
      → Admitted user c
  unfolding resolve_accounting_context resolve_tenant_id
  resolve_accounting_context_sound c h =
      let (t, resolved, rest) = >>=-eq-ok (resolve_tenant_id user x_tenant_id context) _ h in
      admit-Admitted user (request_app_key python settings user x_app_key context_app_key) t
        (request_entity x_entity) (user_id_of user) c (own_or_super _ _ _ t resolved) rest
