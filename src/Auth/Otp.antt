-- ===== src/Auth/Otp.antt =====
-- One-time passwords of app/core/auth/service.py. Times are in microseconds, on a clock that does
-- not run backwards. The server's deletion of documents past their `expires_at` is not modelled.
pub mod Login
pub mod Codes
pub mod Guard
pub mod Counter
pub mod Attempts
pub mod Guesses
use Prim.Native.Char.{Char, code}
use Prim.Native.String.{[] as nil, ◌∷◌ as cons}
use sanmitra_backend.Base.{
  ℕ, suc, ◌+◌, ◌-◌, ◌*◌, ◌/◌, ◌≤◌, ◌≡◌, String, Bool, true, false, not, ◌&&◌, ◌||◌, Option, none,
  some, List, [], ◌∷◌, ◌++◌, map, Result, ok, err, ltb, leb, nat_beq, any, all, find, keep,
  if◌then◌else◌,
}
use sanmitra_backend.Base.Text.{
  is_empty, strip, Casing, or_empty, or_else, or_default, text_length, append_text, take_text,
  is_space,
}
use sanmitra_backend.Base.Equality.{◌==◌, contains, string_eq, nat_eq}
use sanmitra_backend.Base.Collection.{Collection}
use sanmitra_backend.Accounting.Table.{update_row}
use sanmitra_backend.Tenants.Access.{Settings, resolve_app_key}
use sanmitra_backend.Tenants.Lifecycle.{
  Tenant, TenantError, TenantView, State, ensure_tenant_exists, ensure_tenant_is_active,
}
use sanmitra_backend.Auth.Tokens.{
  microseconds, Site, TokenUser, AuthState, AuthError, Moment, issue_tokens_for_user,
}

-- A document of core_auth_mobile_otp.
pub record Otp : Type 0 where
  pub id : ℕ
  pub mobile : String
  pub otp_hash : String
  pub expires_at : ℕ
  pub attempts : ℕ
  pub max_attempts : ℕ
  pub consumed : Bool
  pub created_at : ℕ
  pub updated_at : ℕ
  pub failed_reason : Option String
  pub verified_at : Option ℕ

-- A document of core_users, as far as the logins read it.
pub record UserDoc : Type 0 where
  pub user_id : String
  pub email : String
  pub mobile : Option String
  pub full_name : String
  pub tenant_id : String
  pub app_key : String
  pub role : String
  pub auth_provider : String
  pub provider_subject : String
  pub is_active : Bool

-- The settings; a negative number is none of the values that `max` leaves, and is taken as 0.
pub record OtpSettings : Type 0 where
  pub mobile_otp_enabled : Bool
  pub mobile_otp_length : ℕ
  pub mobile_otp_ttl_seconds : ℕ
  pub mobile_otp_max_attempts : ℕ
  pub mobile_otp_resend_cooldown_seconds : ℕ
  pub mobile_otp_debug_return_code : Bool
  pub otp_pepper : String
  pub jwt_secret : String

pub data OtpError : Type 0 where
  otp_disabled invalid_mobile otp_not_delivered no_otp_database : OtpError
  invalid_otp_format otp_not_found otp_expired otp_invalid : OtpError
  tenant_mismatch user_exists : OtpError
  please_wait : ℕ → OtpError
  tenant_failed : TenantError → OtpError
  auth_failed : AuthError → OtpError

pub record OtpState (Docs : Type 0) : Type 0 where
  pub otps : Option (List Otp)
  pub users : Option (List UserDoc)
  pub auth : AuthState Docs

-- What `send_mobile_otp` returns.
pub record Sent : Type 0 where
  pub expires_in_seconds : ℕ
  pub resend_after_seconds : ℕ
  pub otp_debug : Option String
  pub provider : String
  pub delivery_id : String

-- What a provider answers.
pub record Delivery : Type 0 where
  pub provider : String
  pub delivery_id : String

-- `find_one` with `sort=[("created_at", -1)]`: one of the documents, if there is one.
pub record Newest : Type 0 where
  pub newest : List Otp → Option Otp
  pub newest_in :
      (p : Otp → Bool) (rows : List Otp) (x : Otp)
      → newest rows ≡ some x
      → all p rows ≡ true
      → p x ≡ true

abbrev pub at_least : ℕ → ℕ → ℕ
at_least a b = if leb a b then b else a

abbrev pub at_most : ℕ → ℕ → ℕ
at_most a b = if leb b a then b else a

-- `a or b` of two numbers
abbrev pub number_or : ℕ → ℕ → ℕ
number_or a b = if nat_beq a 0 then b else a

-- `s[-n:]`
abbrev pub drop_text : ℕ → String → String
drop_text k nil = nil
drop_text k (cons c s) = if nat_beq k 0 then cons c s else drop_text (k - 1) s

abbrev pub last_text : ℕ → String → String
last_text n s = drop_text (text_length s - n) s

abbrev pub expire : ℕ → Otp → Otp
expire wall x = record x { consumed = true; updated_at = wall; failed_reason = some "expired" }

-- `update_doc`
abbrev pub count_failure : ℕ → ℕ → ℕ → Otp → Otp
count_failure wall attempts max_attempts x =
    if leb max_attempts attempts
    then record x {
      attempts = attempts;
      updated_at = wall;
      consumed = true;
      failed_reason = some "max_attempts_reached";
    }
    else record x { attempts = attempts; updated_at = wall }

abbrev pub verify : ℕ → Otp → Otp
verify wall x = record x { consumed = true; verified_at = some wall; updated_at = wall }

-- A call's result, and the state after it.
abbrev pub OtpAnswer : Type 0 → Type 0 → Type 0
OtpAnswer Docs A = Result OtpError A × OtpState Docs
