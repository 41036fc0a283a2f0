-- ===== src/Auth/Otp/Codes.antt =====
-- `_otp_hash`, `send_mobile_otp` and `verify_mobile_otp` of app/core/auth/service.py. The delivery
-- of a code is an argument of the call: nothing for an exception, or what the provider answers.
use Prim.Native.Char.{code}
use sanmitra_backend.Base.{
  ℕ, ◌+◌, ◌-◌, ◌*◌, ◌/◌, String, false, not, ◌&&◌, Option, none, some, List, [], ◌∷◌, ◌++◌, map, ok,
  err, ltb, leb, keep, if◌then◌else◌,
}
use sanmitra_backend.Base.Text.{strip, Casing, or_empty, or_default, text_length, append_text}
use sanmitra_backend.Base.Equality.{◌==◌, string_eq, nat_eq}
use sanmitra_backend.Base.Collection.{Collection}
use sanmitra_backend.Accounting.Table.{update_row}
use sanmitra_backend.Tenants.Access.{Settings}
use sanmitra_backend.Tenants.Lifecycle.{Tenant}
use sanmitra_backend.Auth.Tokens.{microseconds, Site, Moment}
use sanmitra_backend.Auth.Mobile.{Digits, digits_only, normalize_mobile}
use sanmitra_backend.Auth.Otp.{
  Otp, OtpSettings, OtpState, OtpAnswer, Sent, Delivery, Newest, at_least, at_most, number_or,
  expire, count_failure, verify, otp_disabled, invalid_mobile, otp_not_delivered, no_otp_database,
  invalid_otp_format, otp_not_found, otp_expired, otp_invalid, please_wait,
}
use sanmitra_backend.Auth.Otp.Login.{log_in}

module _ {Docs : Type 0} (python : Casing) (tenants : Collection Docs Tenant) (settings : Settings)
    (site : Site) (unicode : Digits) (order : Newest) (otp_settings : OtpSettings) where
  -- `_otp_hash`
  abbrev pub otp_hash : String → String → String
  otp_hash mobile otp =
      let pepper =
        or_default (or_default otp_settings.otp_pepper otp_settings.jwt_secret)
          "sanmitra-dev-pepper" in
      site.sha256 (append_text mobile (append_text "|" (append_text otp (append_text "|" pepper))))

  -- The pending documents of a number.
  abbrev pub pending : String → List Otp → Option Otp
  pending mobile rows = order.newest (keep (λ x. x.mobile == mobile && not x.consumed) rows)

  -- `wait_seconds`
  abbrev pub wait_seconds : ℕ → Option Otp → ℕ
  wait_seconds wall none = 0
  wait_seconds wall (some x) =
      otp_settings.mobile_otp_resend_cooldown_seconds - (wall - x.created_at) / microseconds

  abbrev pub new_otp : String → String → ℕ → List Otp → Otp
  new_otp mobile code wall rows = record {
    id = site.next_id (map (λ x. x.id) rows);
    mobile = mobile;
    otp_hash = otp_hash mobile code;
    expires_at = wall + at_least 60 otp_settings.mobile_otp_ttl_seconds * microseconds;
    attempts = 0;
    max_attempts = at_least 1 otp_settings.mobile_otp_max_attempts;
    consumed = false;
    created_at = wall;
    updated_at = wall;
    failed_reason = none;
    verified_at = none;
  }

  -- With the delivery's outcome.
  unfoldable pub after_delivery :
      String → String → ℕ → List Otp → Option Delivery → OtpState Docs → OtpAnswer Docs Sent
  after_delivery mobile code wall rows none s = (err otp_not_delivered, s)
  after_delivery mobile code wall rows (some d) s = (
    ok (record {
      expires_in_seconds = at_least 60 otp_settings.mobile_otp_ttl_seconds;
      resend_after_seconds = otp_settings.mobile_otp_resend_cooldown_seconds;
      otp_debug = if otp_settings.mobile_otp_debug_return_code then some code else none;
      provider = strip d.provider;
      delivery_id = strip d.delivery_id;
    }),
    record s { otps = some (rows ++ new_otp mobile code wall rows ∷ []) },
  )

  -- `draw` is `_otp_digits`.
  unfoldable pub send_mobile_otp :
      String → (ℕ → String) → Option Delivery → Moment → OtpState Docs → OtpAnswer Docs Sent
  unfolding after_delivery
  send_mobile_otp mobile draw delivery m s =
      if not otp_settings.mobile_otp_enabled
      then (err otp_disabled, s)
      else elim (normalize_mobile unicode mobile) [
        | none ↦ (err invalid_mobile, s)
        | some number ↦ elim s.otps [
          | none ↦ (err no_otp_database, s)
          | some rows ↦
              let wait = wait_seconds m.wall (pending number rows) in
              if ltb 0 wait
              then (err (please_wait wait), s)
              else after_delivery number
                  (draw (at_most 8 (at_least 4 otp_settings.mobile_otp_length))) m.wall rows
                  delivery s
        ]
      ]

  abbrev pub store : (Otp → Otp) → Otp → List Otp → Option (List Otp)
  store set x rows = some (update_row (λ y. y.id) x.id set rows)

  -- With the pending document.
  unfoldable pub verify_record :
      String
      → String
      → Option String
      → Option String
      → Option String
      → Moment
      → Otp
      → List Otp
      → OtpState Docs
      → OtpAnswer Docs (String × String)
  unfolding log_in
  verify_record mobile otp tenant_id full_name app_key m x rows s =
      let max_attempts =
        number_or x.max_attempts (number_or otp_settings.mobile_otp_max_attempts 5) in
      if leb x.expires_at m.wall
      then (err otp_expired, record s { otps = store (expire m.wall) x rows })
      else if not (otp_hash mobile otp == x.otp_hash)
      then (
        err otp_invalid,
        record s { otps = store (count_failure m.wall (x.attempts + 1) max_attempts) x rows },
      )
      else log_in python tenants settings site mobile tenant_id full_name app_key m
          (record s { otps = store (verify m.wall) x rows })

  unfoldable pub verify_mobile_otp :
      String
      → Option String
      → Option String
      → Option String
      → Option String
      → Moment
      → OtpState Docs
      → OtpAnswer Docs (String × String)
  unfolding verify_record
  verify_mobile_otp mobile otp tenant_id full_name app_key m s =
      if not otp_settings.mobile_otp_enabled
      then (err otp_disabled, s)
      else elim (normalize_mobile unicode mobile) [
        | none ↦ (err invalid_mobile, s)
        | some number ↦
            let otp_value = digits_only unicode (or_empty otp) in
            if ltb (text_length otp_value) 4 then (err invalid_otp_format, s) else elim s.otps [
              | none ↦ (err no_otp_database, s)
              | some rows ↦ elim (pending number rows) [
                | none ↦ (err otp_not_found, s)
                | some x ↦ verify_record number otp_value tenant_id full_name app_key m x rows s
              ]
            ]
      ]
