-- ===== src/Auth/Tests/Codes.antt =====
-- One-time passwords at concrete inputs, and their theorems there.
use sanmitra_backend.Base.{
  ◌+◌, ◌≤◌, ◌<◌, ℕ, ◌≡◌, refl, Bool, true, false, ◌&&◌, ◌||◌, Option, none, some, List, [], ◌∷◌,
  map, arith, all, leb, nat_beq,
}
use sanmitra_backend.Base.Text.{is_space, strip}
use sanmitra_backend.Base.Text.Ascii.{ascii}
use sanmitra_backend.Base.Collection.Keyed.{Keyed, keyed}
use sanmitra_backend.Accounting.Table.{update_row}
use sanmitra_backend.Tenants.Lifecycle.{Tenant}
use sanmitra_backend.Auth.Mobile.{Digits, normalize_mobile}
use sanmitra_backend.Auth.Mobile.Normal.{IsMobile, normalize_mobile_idempotent}
use sanmitra_backend.Auth.Otp.{Otp, OtpSettings, OtpState, Newest}
use sanmitra_backend.Auth.Otp.Codes.{send_mobile_otp, verify_mobile_otp}
use sanmitra_backend.Auth.Otp.Attempts.{OtpEvent, send, check, serve_otps}
use sanmitra_backend.Auth.Otp.Counter.{find_doc, failures}
use sanmitra_backend.Auth.Otp.Guesses.{wrong_guesses, serve_otps_limit}
use sanmitra_backend.Auth.Tests.{site, settings, start, moment}

abbrev is_digit : ℕ → Bool
is_digit c = leb 48 c && leb c 57

not_punctuation :
    (c : ℕ)
    → is_digit c ≡ true
    → (is_space c || nat_beq c 40 || nat_beq c 41 || nat_beq c 43 || nat_beq c 45) ≡ false
unfolding is_space
not_punctuation c h = ground arith

abbrev digits : Digits
digits = record { is_digit = is_digit; ascii_digit = λ c h. h; not_punctuation = not_punctuation }

normalized : normalize_mobile digits " (098) 765-43210" ≡ some "+09876543210"
unfolding normalize_mobile strip is_space
normalized = refl

normalize_mobile_idempotent_example :
    IsMobile digits "+09876543210" × (normalize_mobile digits "+09876543210" ≡ some "+09876543210")
normalize_mobile_idempotent_example =
    normalize_mobile_idempotent digits " (098) 765-43210" "+09876543210" normalized

-- The documents stand in the order they were inserted in.
abbrev last : List Otp → Option Otp
last [] = none
last (x ∷ []) = some x
last (x ∷ y ∷ rows) = last (y ∷ rows)

last_in :
    (p : Otp → Bool) (rows : List Otp) (x : Otp)
    → last rows ≡ some x
    → all p rows ≡ true
    → p x ≡ true
last_in p [] x h g = ground arith
last_in p (y ∷ []) x h g = ground arith
last_in p (y ∷ z ∷ rows) x h g = ground (arith, last_in p (z ∷ rows) x h)

abbrev order : Newest
order = record { newest = last; newest_in = last_in }

abbrev otp_settings : OtpSettings
otp_settings = record {
  mobile_otp_enabled = true;
  mobile_otp_length = 6;
  mobile_otp_ttl_seconds = 300;
  mobile_otp_max_attempts = 2;
  mobile_otp_resend_cooldown_seconds = 60;
  mobile_otp_debug_return_code = false;
  otp_pepper = "pepper";
  jwt_secret = "secret";
}

abbrev no_codes : OtpState (Keyed Tenant)
no_codes = record { otps = some []; users = some []; auth = start }

abbrev guesses : List OtpEvent
guesses =
    send "98765 43210" (λ k. "123456") (some (record { provider = "twilio"; delivery_id = "d1" }))
      (moment 1000000 "u1")
    ∷ check "9876543210" (some "111111") none none none (moment 2000000 "u2")
    ∷ check "9876543210" (some "222222") none none none (moment 3000000 "u3")
    ∷ check "9876543210" (some "123456") none none none (moment 4000000 "u4")
    ∷ []

abbrev after_guesses : OtpState (Keyed Tenant)
after_guesses = serve_otps ascii keyed settings site digits order otp_settings guesses no_codes

-- The failures of each document, and whether it is used up.
abbrev standing : Option (List Otp) → List (ℕ × Bool)
standing none = []
standing (some rows) = map (λ x. (x.attempts, x.consumed)) rows

-- Two wrong codes use the document up, and the right one comes too late.
used_up : standing after_guesses.otps ≡ (2, true) ∷ []
unfolding send_mobile_otp verify_mobile_otp normalize_mobile strip is_space ascii update_row
used_up = refl

-- The document in the end.
abbrev used : Otp
used = record {
  id = 1;
  mobile = "+919876543210";
  otp_hash = "+919876543210|123456|pepper";
  expires_at = 301000000;
  attempts = 2;
  max_attempts = 2;
  consumed = true;
  created_at = 1000000;
  updated_at = 3000000;
  failed_reason = some "max_attempts_reached";
  verified_at = none;
}

used_found : find_doc 1 after_guesses.otps ≡ some used
unfolding send_mobile_otp verify_mobile_otp normalize_mobile strip is_space ascii update_row
used_found = refl

two_guesses :
    wrong_guesses ascii keyed settings site digits order otp_settings 1 guesses no_codes ≡ 2
unfolding send_mobile_otp verify_mobile_otp normalize_mobile strip is_space ascii update_row
two_guesses = refl

serve_otps_limit_example :
    let n =
      failures (find_doc 1 no_codes.otps)
      + wrong_guesses ascii keyed settings site digits order otp_settings 1 guesses no_codes in
    (n ≡ used.attempts) × (n ≤ used.max_attempts) × (used.consumed ≡ false → n < used.max_attempts)
serve_otps_limit_example =
    serve_otps_limit ascii keyed settings site digits order otp_settings 1 guesses no_codes used
      (record { ids = tt; bounded = refl }) used_found
