-- ===== src/Tenants/Access.antt =====
-- `resolve_tenant_id` and `resolve_app_key` of app/core/tenants/context.py, and
-- `resolve_accounting_context` of app/accounting/context.py, which every accounting request passes.
-- The context variables that the middleware sets are arguments.
pub mod Laws
use sanmitra_backend.Base.{
  String, Bool, true, false, not, ◌&&◌, Option, none, some, List, [], ◌∷◌, map, Result, ok, err,
  ◌>>=◌, ◌>>◌, raise_if, if◌then◌else◌, keep,
}
use sanmitra_backend.Base.Text.{is_empty, strip, Casing, or_empty, or_else, or_default}
use sanmitra_backend.Base.Equality.{◌==◌, contains, string_eq}

-- The `HTTPException`s, with their status.
pub data Denied : Type 0 where
  override_not_allowed_403 missing_in_token_401 missing_401 : Denied
  not_enabled_403 entity_missing_400 shared_tenant_403 : Denied

-- The claims of the access token.
pub record User : Type 0 where
  pub tenant_id : Option String
  pub role : Option String
  pub app_key : Option String
  pub sub : Option String
  pub email : Option String

pub record Settings : Type 0 where
  pub allowed_app_keys : List String
  pub default_app_key : String

abbrev pub token_tenant : User → String
token_tenant user = strip (or_empty user.tenant_id)

-- `x_tenant_id or get_tenant_id() or ""`
abbrev pub header_tenant : Option String → Option String → String
header_tenant x_tenant_id context = strip (or_empty (or_else x_tenant_id context))

abbrev pub is_super_admin : User → Bool
is_super_admin user = elim user.role [ none ↦ false | some r ↦ r == "super_admin" ]

-- From the two texts on.
pub choose_tenant : Bool → String → String → Result Denied String
choose_tenant super token header =
    if not (is_empty token)
    then (if not (is_empty header) && not (header == token) && not super
        then err override_not_allowed_403
        else if super && not (is_empty header)
        then ok header
        else ok token)
    else if not (is_empty header)
    then (if super then ok header else err missing_in_token_401)
    else err missing_401

unfoldable pub resolve_tenant_id : User → Option String → Option String → Result Denied String
unfolding choose_tenant
resolve_tenant_id user x_tenant_id context =
    choose_tenant (is_super_admin user) (token_tenant user) (header_tenant x_tenant_id context)

abbrev pub accounting_app_keys : List String
accounting_app_keys = "gruhamitra" ∷ "mandirmitra" ∷ "mitrabooks" ∷ []

abbrev pub shared_accounting_tenants : List String
shared_accounting_tenants = "default" ∷ "demo_tenant" ∷ "seed-tenant-1" ∷ []

pub record AccountingContext : Type 0 where
  pub app_key : String
  pub tenant_id : String
  pub accounting_entity_id : String
  pub user_id : String

-- `str(current_user.get("sub") or current_user.get("email") or "system").strip() or "system"`
abbrev pub user_id_of : User → String
user_id_of user =
    or_default (strip (or_empty (or_else user.sub (or_else user.email (some "system"))))) "system"

-- `str(x_accounting_entity_id or DEFAULT_ACCOUNTING_ENTITY_ID).strip()`
abbrev pub request_entity : Option String → String
request_entity x_entity = strip (or_empty (or_else x_entity (some "primary")))

-- The four tests, and the context.
unfoldable pub admit : String → String → String → String → Result Denied AccountingContext
admit app_key tenant entity user_id = do
  raise_if (not (contains accounting_app_keys app_key)) not_enabled_403
  raise_if (is_empty tenant) missing_401
  raise_if (is_empty entity) entity_missing_400
  raise_if (contains shared_accounting_tenants tenant) shared_tenant_403
  ok (record {
    app_key = app_key;
    tenant_id = tenant;
    accounting_entity_id = entity;
    user_id = user_id;
  })

module _ (python : Casing) (settings : Settings) where
  -- `str(settings.DEFAULT_APP_KEY or "mandirmitra").strip().lower()`
  abbrev pub default_setting : String
  default_setting = python.lower (strip (or_default settings.default_app_key "mandirmitra"))

  abbrev pub default_key : String
  default_key = or_default default_setting "mandirmitra"

  unfoldable pub allowed_app_keys : List String
  allowed_app_keys =
      let keys =
        map (λ k. python.lower (strip k))
          (keep (λ k. not (is_empty (strip k))) settings.allowed_app_keys) in
      if is_empty default_setting then keys else default_setting ∷ keys

  abbrev pub alias_of : String → String
  alias_of raw =
      if contains ("gharmitra" ∷ "ghar-mitra" ∷ "gruha-mitra" ∷ []) raw then "gruhamitra" else raw

  unfoldable pub resolve_app_key : Option String → String
  unfolding allowed_app_keys
  resolve_app_key value =
      let raw = alias_of (python.lower (strip (or_empty value))) in
      if is_empty raw
      then default_key
      else if contains allowed_app_keys raw
      then raw
      else default_key

  -- `resolve_app_key(x_app_key or current_user.get("app_key") or get_app_key())`
  abbrev pub request_app_key : User → Option String → String → String
  request_app_key user x_app_key context_app_key =
      resolve_app_key
        (or_else x_app_key (or_else user.app_key (some (resolve_app_key (some context_app_key)))))

  -- `context` and `context_app_key` are the middleware's context variables.
  unfoldable pub resolve_accounting_context :
      User
      → Option String
      → Option String
      → Option String
      → Option String
      → String
      → Result Denied AccountingContext
  unfolding resolve_tenant_id resolve_app_key admit
  resolve_accounting_context user x_tenant_id x_app_key x_entity context context_app_key = do
    tenant ← resolve_tenant_id user x_tenant_id context
    admit (request_app_key user x_app_key context_app_key) tenant (request_entity x_entity)
        (user_id_of user)
