-- ===== src/Auth/Tokens.antt =====
-- `_token_payload_from_user`, `_store_refresh_token`, `_issue_tokens_for_user`,
-- `rotate_refresh_token` and `logout_refresh_token` of app/core/auth/service.py, with
-- `create_access_token`, `create_refresh_token` and `decode_token` of app/core/auth/security.py.
-- `wall` is `datetime.now` in microseconds, read once in a call, and `now` the clock of the
-- tenants' cache. `none` for the tokens is a server that is not configured. The claims of a token
-- and the fields of its record may be missing. The server's deletion of records past their
-- `expires_at` is not modelled.
pub mod Steps
pub mod Revocation
pub mod Live
use sanmitra_backend.Base.{
  ℕ, suc, ◌+◌, ◌*◌, ◌/◌, ◌^◌, ◌≤◌, ◌≡◌, String, Bool, true, false, not, ◌&&◌, ◌||◌, Option, none,
  some, List, [], ◌∷◌, ◌++◌, map, Result, ok, err, leb, nat_beq, any, find, if◌then◌else◌,
}
use sanmitra_backend.Base.Text.{is_empty, strip, Casing, or_empty, or_else}
use sanmitra_backend.Base.Equality.{◌==◌, contains, string_eq, nat_eq}
use sanmitra_backend.Base.Collection.{Collection}
use sanmitra_backend.Accounting.Table.{update_row}
use sanmitra_backend.Tenants.Access.{Settings, resolve_app_key}
use sanmitra_backend.Tenants.Lifecycle.{Tenant, TenantError, State, ensure_tenant_is_active}

-- `exp` is in seconds; a text of digits counts as its number.
pub record Claims : Type 0 where
  pub sub : Option String
  pub email : Option String
  pub role : Option String
  pub tenant_id : Option String
  pub app_key : Option String
  pub exp : Option ℕ
  pub type : Option String
  pub jti : Option String

-- The HTTPExceptions, the driver's DuplicateKeyError and the errors of the tenants service.
pub data AuthError : Type 0 where
  invalid_token invalid_refresh_token invalid_payload token_expired app_key_mismatch : AuthError
  no_database duplicate_key : AuthError
  tenant_error : TenantError → AuthError

-- A document of core_auth_refresh_tokens.
pub record RefreshToken : Type 0 where
  pub id : ℕ
  pub jti : String
  pub token_hash : String
  pub user_id : Option String
  pub tenant_id : Option String
  pub role : Option String
  pub email : Option String
  pub app_key : Option String
  pub issued_at : ℕ
  pub expires_at : ℕ
  pub revoked : Bool
  pub revoked_at : Option ℕ
  pub replaced_by : Option String

abbrev pub microseconds : ℕ
microseconds = 10 ^ 6

-- What the code relies on of python-jose with the application's secret, of sha256, and of
-- MongoDB's `_id`s. `decode` takes the time in seconds, since it fails on a token past its `exp`;
-- the claims of a token do not change with the time.
pub record Site : Type 0 where
  pub encode : Claims → String
  pub decode : ℕ → String → Option Claims
  pub decode_same :
      (token : String) (a b : ℕ) (c d : Claims)
      → decode a token ≡ some c
      → decode b token ≡ some d
      → c ≡ d
  pub sha256 : String → String
  pub next_id : List ℕ → ℕ
  pub next_id_fresh : (ids : List ℕ) → contains ids (next_id ids) ≡ false
  pub access_token_expire_minutes : ℕ
  pub refresh_token_expire_days : ℕ

-- The user's document, as far as tokens are made of it.
pub record TokenUser : Type 0 where
  pub user_id : String
  pub email : String
  pub role : String
  pub tenant_id : Option String
  pub app_key : Option String

pub record AuthState (Docs : Type 0) : Type 0 where
  pub tokens : Option (List RefreshToken)
  pub tenants : State Docs

abbrev pub is_named : Option String → String → Bool
is_named none k = false
is_named (some s) k = s == k

-- `not value`
abbrev pub missing : Option String → Bool
missing none = true
missing (some s) = is_empty s

-- The arguments of a call that do not come from the client: the two clocks, the `uuid4` that it
-- would draw, and the middleware's context
-- variable for the application key.
pub record Moment : Type 0 where
  pub wall : ℕ
  pub now : ℕ
  pub uuid : String
  pub context_app_key : String

-- A find_one by `jti` and hash.
abbrev pub is_record : String → String → RefreshToken → Bool
is_record jti hash r = r.jti == jti && r.token_hash == hash

abbrev pub revoke : ℕ → Option String → RefreshToken → RefreshToken
revoke wall replaced_by r = record r {
  revoked = true;
  revoked_at = some wall;
  replaced_by = replaced_by;
}

abbrev pub revoked_now : ℕ → RefreshToken → RefreshToken
revoked_now wall r = record r { revoked = true; revoked_at = some wall }

module _ {Docs : Type 0} (python : Casing) (tenants : Collection Docs Tenant) (settings : Settings)
    (site : Site) where
  abbrev pub Answer : Type 0 → Type 0
  Answer A = Result AuthError A × AuthState Docs

  -- `decode_token`
  abbrev pub decode_token : String → ℕ → Option Claims
  decode_token token wall = site.decode (wall / microseconds) token

  abbrev pub create_access_token : Claims → ℕ → String
  create_access_token claims wall = site.encode (record claims {
    exp = some ((wall + site.access_token_expire_minutes * 60 * microseconds) / microseconds);
    type = some "access";
  })

  abbrev pub refresh_claims : Claims → String → ℕ → Claims
  refresh_claims claims uuid wall = record claims {
    exp = some ((wall + site.refresh_token_expire_days * 86400 * microseconds) / microseconds);
    type = some "refresh";
    jti = some uuid;
  }

  abbrev pub create_refresh_token : Claims → String → ℕ → String
  create_refresh_token claims uuid wall = site.encode (refresh_claims claims uuid wall)

  abbrev pub token_row : String → Claims → String → ℕ → ℕ → List RefreshToken → RefreshToken
  token_row token claims jti exp wall rows = record {
    id = site.next_id (map (λ r. r.id) rows);
    jti = jti;
    token_hash = site.sha256 token;
    user_id = claims.sub;
    tenant_id = claims.tenant_id;
    role = claims.role;
    email = claims.email;
    app_key = claims.app_key;
    issued_at = wall;
    expires_at = exp * microseconds;
    revoked = false;
    revoked_at = none;
    replaced_by = none;
  }

  -- `insert_one`, with the two unique indexes.
  abbrev pub insert_token : RefreshToken → List RefreshToken → Result AuthError (List RefreshToken)
  insert_token row rows =
      if any (λ r. r.jti == row.jti || r.token_hash == row.token_hash) rows
      then err duplicate_key
      else ok (rows ++ row ∷ [])

  -- `_store_refresh_token`: the records afterwards.
  pub store_refresh_token :
      String → Claims → ℕ → Option (List RefreshToken) → Result AuthError (List RefreshToken)
  store_refresh_token token claims wall tokens =
      if not (is_named claims.type "refresh") || missing claims.jti
      then err invalid_payload
      else elim tokens [
        | none ↦ err no_database
        | some rows ↦ elim claims.exp [
          | none ↦ err invalid_payload
          | some exp ↦
              insert_token (token_row token claims (or_empty claims.jti) exp wall rows) rows
        ]
      ]

  -- Both tokens are made, and the refresh token's record is stored: the tokens, the new token's
  -- `jti` and the records afterwards.
  pub make_tokens :
      Claims
      → Moment
      → Option (List RefreshToken)
      → Result AuthError (String × String × Option String × List RefreshToken)
  unfolding store_refresh_token
  make_tokens claims m tokens =
      let token = create_refresh_token claims m.uuid m.wall in
      elim (decode_token token m.wall) [
        | none ↦ err invalid_token
        | some c ↦ elim (store_refresh_token token c m.wall tokens) [
          | err e ↦ err e
          | ok rows ↦ ok (create_access_token claims m.wall, token, c.jti, rows)
        ]
      ]

  -- `if role != "super_admin": await ensure_tenant_is_active(tenant_id)`
  abbrev pub is_super : Option String → Bool
  is_super role = strip (or_empty role) == "super_admin"

  abbrev pub tenant_check :
      Option String
      → Option String
      → Moment
      → State Docs
      → Result TenantError (Unit {0}) × State Docs
  tenant_check role tenant_id m s =
      if is_super role
      then (ok tt, s)
      else ensure_tenant_is_active python tenants tenant_id m.wall m.now s

  -- `_token_payload_from_user`
  pub token_payload_from_user : TokenUser → Option String → Moment → Result AuthError Claims
  token_payload_from_user user app_key m =
      let user_app_key = strip (or_empty user.app_key) in
      let context = resolve_app_key python settings (some m.context_app_key) in
      let requested = resolve_app_key python settings (or_else app_key (some context)) in
      let resolved =
        resolve_app_key python settings (or_else (some user_app_key) (some requested)) in
      if not (is_empty user_app_key)
        && not (requested == resolved)
        && not (strip user.role == "super_admin")
      then err app_key_mismatch
      else ok (record {
        sub = some user.user_id;
        email = some user.email;
        role = some user.role;
        tenant_id = user.tenant_id;
        app_key = some resolved;
        exp = none;
        type = none;
        jti = none;
      })

  -- After the tenant's check.
  pub issue_checked :
      TokenUser
      → Option String
      → Moment
      → Option (List RefreshToken)
      → Result TenantError (Unit {0}) × State Docs
      → Answer (String × String)
  unfolding token_payload_from_user make_tokens
  issue_checked user app_key m tokens (err e, ts) =
      (err (tenant_error e), record { tokens = tokens; tenants = ts })
  issue_checked user app_key m tokens (ok _, ts) = elim (token_payload_from_user user app_key m) [
    | err e ↦ (err e, record { tokens = tokens; tenants = ts })
    | ok claims ↦ elim (make_tokens claims m tokens) [
      | err e ↦ (err e, record { tokens = tokens; tenants = ts })
      | ok (access, refresh, jti, rows) ↦
          (ok (access, refresh), record { tokens = some rows; tenants = ts })
    ]
  ]

  -- `_issue_tokens_for_user`
  unfoldable pub issue_tokens_for_user :
      TokenUser → Option String → Moment → AuthState Docs → Answer (String × String)
  unfolding issue_checked
  issue_tokens_for_user user app_key m s =
      issue_checked user app_key m s.tokens
        (tenant_check (some user.role) user.tenant_id m s.tenants)

  -- The claims of the tokens that replace a record's.
  abbrev pub renewed_app_key : RefreshToken → Claims → Option String → String
  renewed_app_key r p app_key =
      resolve_app_key python settings (or_else r.app_key (or_else p.app_key app_key))

  abbrev pub renewed_claims : RefreshToken → Claims → Option String → Claims
  renewed_claims r p app_key = record {
    sub = or_else r.user_id p.sub;
    email = or_else r.email p.email;
    role = or_else r.role p.role;
    tenant_id = or_else r.tenant_id p.tenant_id;
    app_key = some (renewed_app_key r p app_key);
    exp = none;
    type = none;
    jti = none;
  }

  -- `requested_app_key and requested_app_key != resolved_app_key and …`
  abbrev pub wrong_app_key : RefreshToken → Claims → Option String → Bool
  wrong_app_key r p app_key =
      let requested = resolve_app_key python settings app_key in
      not (missing app_key)
      && not (is_empty requested)
      && not (requested == renewed_app_key r p app_key)
      && not (is_super (or_else r.role p.role))

  -- After the tenant's check: the new tokens, and the old record revoked.
  pub rotate_checked :
      RefreshToken
      → Claims
      → Option String
      → Moment
      → List RefreshToken
      → Result TenantError (Unit {0}) × State Docs
      → Answer (String × String)
  unfolding make_tokens
  rotate_checked r p app_key m rows (err e, ts) =
      (err (tenant_error e), record { tokens = some rows; tenants = ts })
  rotate_checked r p app_key m rows (ok _, ts) =
      elim (make_tokens (renewed_claims r p app_key) m (some rows)) [
        | err e ↦ (err e, record { tokens = some rows; tenants = ts })
        | ok (access, refresh, jti, rows') ↦ (
          ok (access, refresh),
          record {
            tokens = some (update_row (λ x. x.id) r.id (revoke m.wall jti) rows');
            tenants = ts;
          },
        )
      ]

  -- From the record that was found on.
  pub rotate_record :
      RefreshToken
      → Claims
      → Option String
      → Moment
      → List RefreshToken
      → State Docs
      → Answer (String × String)
  unfolding rotate_checked
  rotate_record r p app_key m rows ts =
      if r.revoked
      then (err invalid_refresh_token, record { tokens = some rows; tenants = ts })
      else if leb r.expires_at m.wall
      then (
        err token_expired,
        record {
          tokens = some (update_row (λ x. x.id) r.id (revoked_now m.wall) rows);
          tenants = ts;
        },
      )
      else if wrong_app_key r p app_key
      then (err app_key_mismatch, record { tokens = some rows; tenants = ts })
      else rotate_checked r p app_key m rows (
          tenant_check (renewed_claims r p app_key).role (renewed_claims r p app_key).tenant_id m
            ts)

  -- With the claims of the token.
  pub rotate_claims :
      String → Claims → Option String → Moment → AuthState Docs → Answer (String × String)
  unfolding rotate_record
  rotate_claims token p app_key m s =
      if not (is_named p.type "refresh") || missing p.jti
      then (err invalid_refresh_token, s)
      else elim s.tokens [
        | none ↦ (err no_database, s)
        | some rows ↦ elim (find (is_record (or_empty p.jti) (site.sha256 token)) rows) [
          | none ↦ (err invalid_refresh_token, s)
          | some r ↦ rotate_record r p app_key m rows s.tenants
        ]
      ]

  unfoldable pub rotate_refresh_token :
      String → Option String → Moment → AuthState Docs → Answer (String × String)
  unfolding rotate_claims
  rotate_refresh_token token app_key m s = elim (decode_token token m.wall) [
    | none ↦ (err invalid_token, s)
    | some p ↦ rotate_claims token p app_key m s
  ]

  -- `update_one` of the first record with the `jti` and the hash.
  pub revoke_found : ℕ → List RefreshToken → Option RefreshToken → List RefreshToken
  revoke_found wall rows none = rows
  revoke_found wall rows (some r) = update_row (λ x. x.id) r.id (revoked_now wall) rows

  unfoldable pub logout_refresh_token : String → Moment → AuthState Docs → AuthState Docs
  unfolding revoke_found
  logout_refresh_token token m s = elim (decode_token token m.wall) [
    | none ↦ s
    | some p ↦ if not (is_named p.type "refresh") || missing p.jti then s else elim s.tokens [
      | none ↦ s
      | some rows ↦ record s {
        tokens =
            some (
              revoke_found m.wall rows
                (find (is_record (or_empty p.jti) (site.sha256 token)) rows));
      }
    ]
  ]
