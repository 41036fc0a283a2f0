-- ===== src/Auth/Otp/Login/Frame.antt =====
-- What follows a right code leaves the one-time passwords alone, and does not answer that a code
-- is wrong.
use sanmitra_backend.Base.{
  ◌≡◌, refl, String, not, ◌&&◌, Option, some, List, [], ◌∷◌, ◌++◌, Result, ok, err, any, Bool-cases,
  Bool, true, false, Option-cases, inl, inr,
}
use sanmitra_backend.Base.Text.{Casing, or_default, append_text, or_empty, is_empty, strip}
use sanmitra_backend.Base.Equality.{◌==◌, nat_eq, string_eq}
use sanmitra_backend.Base.Collection.{Collection}
use sanmitra_backend.Tenants.Access.{Settings}
use sanmitra_backend.Tenants.Lifecycle.{
  Tenant, TenantError, TenantView, State, ensure_tenant_is_active,
}
use sanmitra_backend.Auth.Tokens.{Site, AuthState, AuthError, Moment}
use sanmitra_backend.Auth.Otp.{UserDoc, OtpState, OtpError, OtpAnswer, otp_invalid, last_text}
use sanmitra_backend.Auth.Otp.Login.{
  lift, insert_user, create_and_issue, log_in, issue_tokens, get_user_by_mobile, same_user,
  mobile_user,
}

-- The answer that a code is wrong.
abbrev pub is_refusal : {A : Type 0} → Result OtpError A → Bool
is_refusal (err otp_invalid) = true
is_refusal _ = false

abbrev pub Calm : {Docs A : Type 0} → OtpState Docs → OtpAnswer Docs A → Type 0
Calm s r = (r.1.otps ≡ s.otps) × (is_refusal r.0 ≡ false)

module _ {Docs : Type 0} (python : Casing) (tenants : Collection Docs Tenant) (settings : Settings)
    (site : Site) where
  lift-Calm :
      {A : Type 0} (s : OtpState Docs) (r : Result AuthError A × AuthState Docs)
      → Calm s (lift python tenants settings site s r)
  lift-Calm s (ok a, auth) = (refl, refl)
  lift-Calm s (err e, auth) = (refl, refl)

  issue_tokens-Calm :
      (u : UserDoc) (app_key : Option String) (m : Moment) (s : OtpState Docs)
      → Calm s (issue_tokens python tenants settings site u app_key m s)
  issue_tokens-Calm u app_key m s = lift-Calm s _

  insert_user-Calm :
      (u : UserDoc) (users : List UserDoc) (app_key : Option String) (m : Moment)
      (s : OtpState Docs) (r : Result TenantError TenantView × State Docs)
      → Calm s (insert_user python tenants settings site u users app_key m s r)
  unfolding insert_user
  insert_user-Calm u users app_key m s (err e, ts) = (refl, refl)
  insert_user-Calm u users app_key m s (ok v, ts) =
      elim (Bool-cases (any (same_user python tenants settings site u) users)) [
        | inl taken ↦ rw taken (refl, refl)
        | inr free ↦ rw free (
            issue_tokens-Calm u app_key m
              (record s { users = some (users ++ u ∷ []); auth = record s.auth { tenants = ts } }))
      ]

  create_and_issue-Calm :
      (u : UserDoc) (users : List UserDoc) (app_key : Option String) (m : Moment)
      (s : OtpState Docs) (r : Result TenantError (Unit {0}) × State Docs)
      → Calm s (create_and_issue python tenants settings site u users app_key m s r)
  unfolding create_and_issue
  create_and_issue-Calm u users app_key m s (err e, ts) = (refl, refl)
  create_and_issue-Calm u users app_key m s (ok v, ts) =
      insert_user-Calm u users app_key m (record s { auth = record s.auth { tenants = ts } }) _

  pub log_in-Calm :
      (number : String) (tenant_id full_name app_key : Option String) (m : Moment)
      (s : OtpState Docs)
      → Calm s (log_in python tenants settings site number tenant_id full_name app_key m s)
  unfolding log_in
  log_in-Calm number tenant_id full_name app_key m s = elim (Option-cases s.users) [
    | inl e ↦ rw (log_in, e) (refl, refl)
    | inr (users, e) ↦
        elim (Option-cases (get_user_by_mobile python tenants settings site number users)) [
          | inl new ↦
              let tenant = or_default (strip (or_empty tenant_id)) "seed-tenant-1" in
              let name =
                or_default (strip (or_empty full_name))
                  (append_text "Mobile User " (last_text 4 number)) in
              rw (log_in, e, new)
                (create_and_issue-Calm
                  (mobile_user python tenants settings site number name tenant app_key m) users
                  app_key m s
                  (ensure_tenant_is_active python tenants (some tenant) m.wall m.now
                    s.auth.tenants))
          | inr (u, known) ↦
              let requested = strip (or_empty tenant_id) in
              elim (Bool-cases (not (is_empty requested) && not (requested == u.tenant_id))) [
                | inl wrong ↦ rw (log_in, e, known, wrong) (refl, refl)
                | inr right ↦ rw (log_in, e, known, right) (issue_tokens-Calm u app_key m s)
              ]
        ]
  ]
