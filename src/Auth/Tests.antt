-- ===== src/Auth/Tests.antt =====
-- Refresh tokens at concrete inputs, and their theorems there.
mod Codes
use sanmitra_backend.Base.{
  ℕ, suc, ◌+◌, ◌<◌, ◌≡◌, refl, String, false, Option, none, some, List, [], ◌∷◌, map, ok, arith,
  if◌then◌else◌,
}
use sanmitra_backend.Base.Text.{strip}
use sanmitra_backend.Base.Equality.{contains, nat_eq, string_eq, ◌==◌}
use sanmitra_backend.Base.Text.Ascii.{ascii}
use sanmitra_backend.Base.Collection.Keyed.{Keyed, keyed}
use sanmitra_backend.Tenants.Access.{Settings}
use sanmitra_backend.Tenants.Lifecycle.{Tenant, ensure_tenant_is_active}
use sanmitra_backend.Accounting.Journal.Invariant.{Distinct}
use sanmitra_backend.Auth.Tokens.{
  Claims, Site, AuthState, Moment, RefreshToken, rotate_refresh_token, logout_refresh_token,
}
use sanmitra_backend.Auth.Tokens.Steps.{rotate, logout, Event, serve_all}
use sanmitra_backend.Auth.Tokens.Revocation.{
  Refused, rotate_refresh_token_once, logout_refresh_token_ends,
}
use sanmitra_backend.Auth.Tokens.Live.{live_count, rotate_refresh_token-live_count}

-- Tokens that are told apart by their `jti` only, which is their text.
abbrev claims : String → Claims
claims jti = record {
  sub = some "u1";
  email = some "a@b.in";
  role = some "tenant_admin";
  tenant_id = some "t1";
  app_key = some "mandirmitra";
  exp = some 3;
  type = some "refresh";
  jti = some jti;
}

abbrev encode : Claims → String
encode c = elim c.jti [ none ↦ "access" | some j ↦ j ]

abbrev decode : ℕ → String → Option Claims
decode second token = if token == "access" then none else some (claims token)

pub decode_same :
    (token : String) (a b : ℕ) (c d : Claims)
    → decode a token ≡ some c
    → decode b token ≡ some d
    → c ≡ d
decode_same token a b c d h g = cc

abbrev total : List ℕ → ℕ
total [] = 0
total (n ∷ ns) = n + total ns

contains-above : (ids : List ℕ) (n : ℕ) → total ids < n → contains ids n ≡ false
contains-above [] n h = refl
contains-above (m ∷ ids) n h = ground (arith, contains-above ids n (omega arith))

pub next_id_fresh : (ids : List ℕ) → contains ids (suc (total ids)) ≡ false
next_id_fresh ids = contains-above ids (suc (total ids)) (omega arith)

abbrev pub site : Site
site = record {
  encode = encode;
  decode = decode;
  decode_same = decode_same;
  sha256 = λ token. token;
  next_id = λ ids. suc (total ids);
  next_id_fresh = next_id_fresh;
  access_token_expire_minutes = 30;
  refresh_token_expire_days = 7;
}

abbrev pub settings : Settings
settings = record { allowed_app_keys = "mandirmitra" ∷ []; default_app_key = "mandirmitra" }

abbrev stored : RefreshToken
stored = record {
  id = 1;
  jti = "j1";
  token_hash = "j1";
  user_id = some "u1";
  tenant_id = some "t1";
  role = some "tenant_admin";
  email = some "a@b.in";
  app_key = some "mandirmitra";
  issued_at = 1;
  expires_at = 3000000;
  revoked = false;
  revoked_at = none;
  replaced_by = none;
}

abbrev pub start : AuthState (Keyed Tenant)
start = record {
  tokens = some (stored ∷ []);
  tenants = record { docs = some []; cache = λ k. none };
}

abbrev pub moment : ℕ → String → Moment
moment wall uuid = record { wall = wall; now = wall; uuid = uuid; context_app_key = "mandirmitra" }

abbrev after_rotation : AuthState (Keyed Tenant)
after_rotation =
    (rotate_refresh_token ascii keyed settings site "j1" none (moment 2000000 "j2") start).1

rotated :
    rotate_refresh_token ascii keyed settings site "j1" none (moment 2000000 "j2") start
    ≡ (ok ("access", "j2"), after_rotation)
unfolding rotate_refresh_token ensure_tenant_is_active strip ascii keyed
rotated = refl

-- The new token is rotated and logged out meanwhile.
abbrev meanwhile : List Event
meanwhile = rotate "j2" none (moment 2500000 "j3") ∷ logout "j2" (moment 2600000 "j4") ∷ []

rotate_refresh_token_once_example :
    Refused ascii keyed settings site
      (rotate_refresh_token ascii keyed settings site "j1" none
        (moment 2700000 "j5")
        (serve_all ascii keyed settings site meanwhile after_rotation)).0
rotate_refresh_token_once_example =
    rotate_refresh_token_once ascii keyed settings site "j1" none (moment 2000000 "j2") start
      ("access", "j2") after_rotation rotated meanwhile none (moment 2700000 "j5")

logout_refresh_token_ends_example :
    Refused ascii keyed settings site
      (rotate_refresh_token ascii keyed settings site "j1" none (moment 2700000 "j5") (
        serve_all ascii keyed settings site meanwhile
          (logout_refresh_token ascii keyed settings site "j1" (moment 2000000 "j2") start))).0
logout_refresh_token_ends_example =
    logout_refresh_token_ends ascii keyed settings site "j1" (claims "j1") (moment 2000000 "j2")
      start (stored ∷ []) stored refl refl refl refl refl meanwhile none (moment 2700000 "j5")

rotate_refresh_token-live_count_example :
    (rows' : List RefreshToken) × (after_rotation.tokens ≡ some rows')
    × (live_count rows' ≡ live_count (stored ∷ []))
    × Distinct (map (λ r. r.id) rows')
rotate_refresh_token-live_count_example =
    rotate_refresh_token-live_count ascii keyed settings site "j1" none (moment 2000000 "j2") start
      (stored ∷ []) ("access", "j2") after_rotation refl (refl, tt) rotated
