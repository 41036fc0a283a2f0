-- ===== src/Auth/Otp/Login.antt =====
-- What follows the test of a one-time password: `get_user_by_mobile` and `create_user_from_mobile`
-- of app/core/users/service.py, and the tokens.
pub mod Frame
use sanmitra_backend.Base.{
  String, Bool, true, false, not, ◌&&◌, ◌||◌, Option, none, some, List, [], ◌∷◌, ◌++◌, Result, ok,
  err, nat_beq, any, find, if◌then◌else◌,
}
use sanmitra_backend.Base.Text.{is_empty, strip, Casing, or_empty, or_else, or_default, append_text}
use sanmitra_backend.Base.Equality.{◌==◌, string_eq, nat_eq}
use sanmitra_backend.Base.Collection.{Collection}
use sanmitra_backend.Tenants.Access.{Settings, resolve_app_key}
use sanmitra_backend.Tenants.Lifecycle.{
  Tenant, TenantError, TenantView, State, ensure_tenant_exists, ensure_tenant_is_active,
}
use sanmitra_backend.Auth.Tokens.{
  Site, TokenUser, AuthState, AuthError, Moment, issue_tokens_for_user,
}
use sanmitra_backend.Auth.Mobile.{keep_text}
use sanmitra_backend.Auth.Otp.{
  UserDoc, OtpState, OtpAnswer, last_text, no_otp_database, tenant_mismatch, user_exists,
  tenant_failed, auth_failed,
}

module _ {Docs : Type 0} (python : Casing) (tenants : Collection Docs Tenant) (settings : Settings)
    (site : Site) where
  abbrev pub lift :
      {A : Type 0} → OtpState Docs → Result AuthError A × AuthState Docs → OtpAnswer Docs A
  lift s (ok a, auth) = (ok a, record s { auth = auth })
  lift s (err e, auth) = (err (auth_failed e), record s { auth = auth })

  abbrev pub token_user : UserDoc → TokenUser
  token_user u = record {
    user_id = u.user_id;
    email = u.email;
    role = u.role;
    tenant_id = some u.tenant_id;
    app_key = some u.app_key;
  }

  abbrev pub issue_tokens :
      UserDoc → Option String → Moment → OtpState Docs → OtpAnswer Docs (String × String)
  issue_tokens u app_key m s =
      lift s (issue_tokens_for_user python tenants settings site (token_user u) app_key m s.auth)

  -- `get_user_by_mobile`
  abbrev pub get_user_by_mobile : String → List UserDoc → Option UserDoc
  get_user_by_mobile mobile users =
      find (λ u. elim u.mobile [ none ↦ false | some n ↦ n == strip mobile ] && u.is_active) users

  abbrev pub mobile_email : String → String
  mobile_email mobile = append_text "mobile." (
      append_text
        (keep_text (λ c. not (nat_beq c 43 || nat_beq c 32 || nat_beq c 45)) (strip mobile))
        "@sanmitra.local")

  abbrev pub mobile_user : String → String → String → Option String → Moment → UserDoc
  mobile_user mobile full_name tenant_id app_key m = record {
    user_id = m.uuid;
    email = mobile_email mobile;
    mobile = some (strip mobile);
    full_name = strip full_name;
    tenant_id = strip tenant_id;
    app_key =
        resolve_app_key python settings
          (or_else app_key (some (resolve_app_key python settings (some m.context_app_key))));
    role = "operator";
    auth_provider = "mobile_otp";
    provider_subject = append_text "mobile:" (strip mobile);
    is_active = true;
  }

  -- The unique indexes of core_users.
  abbrev pub same_user : UserDoc → UserDoc → Bool
  same_user u v =
      u.email == v.email
      || u.auth_provider == v.auth_provider && u.provider_subject == v.provider_subject
      || elim u.mobile [ none ↦ false | some a ↦ elim v.mobile [ none ↦ false | some b ↦ a == b ] ]

  -- After `ensure_tenant_exists`.
  unfoldable pub insert_user :
      UserDoc
      → List UserDoc
      → Option String
      → Moment
      → OtpState Docs
      → Result TenantError TenantView × State Docs
      → OtpAnswer Docs (String × String)
  insert_user u users app_key m s (err e, ts) =
      (err (tenant_failed e), record s { auth = record s.auth { tenants = ts } })
  insert_user u users app_key m s (ok v, ts) =
      let s' = record s { auth = record s.auth { tenants = ts } } in
      if any (same_user u) users
      then (err user_exists, s')
      else issue_tokens u app_key m (record s' { users = some (users ++ u ∷ []) })

  -- After `ensure_tenant_is_active`: `create_user_from_mobile`.
  unfoldable pub create_and_issue :
      UserDoc
      → List UserDoc
      → Option String
      → Moment
      → OtpState Docs
      → Result TenantError (Unit {0}) × State Docs
      → OtpAnswer Docs (String × String)
  unfolding insert_user
  create_and_issue u users app_key m s (err e, ts) =
      (err (tenant_failed e), record s { auth = record s.auth { tenants = ts } })
  create_and_issue u users app_key m s (ok _, ts) =
      insert_user u users app_key m (record s { auth = record s.auth { tenants = ts } })
        (ensure_tenant_exists python tenants u.tenant_id none "system" m.wall m.now ts)

  -- From `get_user_by_mobile` on.
  unfoldable pub log_in :
      String
      → Option String
      → Option String
      → Option String
      → Moment
      → OtpState Docs
      → OtpAnswer Docs (String × String)
  unfolding create_and_issue
  log_in mobile tenant_id full_name app_key m s = elim s.users [
    | none ↦ (err no_otp_database, s)
    | some users ↦
        let requested = strip (or_empty tenant_id) in
        elim (get_user_by_mobile mobile users) [
          | some u ↦
              if not (is_empty requested) && not (requested == u.tenant_id)
              then (err tenant_mismatch, s)
              else issue_tokens u app_key m s
          | none ↦
              let tenant = or_default requested "seed-tenant-1" in
              let name =
                or_default (strip (or_empty full_name))
                  (append_text "Mobile User " (last_text 4 mobile)) in
              create_and_issue (mobile_user mobile name tenant app_key m) users app_key m s
                (ensure_tenant_is_active python tenants (some tenant) m.wall m.now s.auth.tenants)
        ]
  ]
