-- ===== src/Auth/Tokens/Revocation.antt =====
-- A token that was rotated or logged out is refused from then on.
use sanmitra_backend.Base.{
  ℕ, ◌≡◌, ◌⊎◌, refl, sym, ap, subst, ◌∙◌, String, Bool, true, false, not, ◌||◌, Option, some, List,
  [], ◌∷◌, ◌++◌, map, Result, ok, err, leb, nat_beq, find, if◌then◌else◌, arith, Bool-cases,
  Option-cases, Result-cases, inl, inr,
}
use sanmitra_backend.Base.Text.{Casing, or_empty}
use sanmitra_backend.Base.Equality.{string_eq}
use sanmitra_backend.Base.Collection.{Collection}
use sanmitra_backend.Accounting.Table.{update_row}
use sanmitra_backend.Tenants.Access.{Settings}
use sanmitra_backend.Tenants.Lifecycle.{Tenant, TenantError, State}
use sanmitra_backend.Auth.Tokens.{
  Claims, AuthError, invalid_token, invalid_refresh_token, RefreshToken, Site, AuthState, Moment,
  is_named, missing, is_record, revoke, revoked_now, make_tokens, decode_token, renewed_claims,
  wrong_app_key, rotate_checked, rotate_record, rotate_claims, rotate_refresh_token, revoke_found,
  logout_refresh_token,
}
use sanmitra_backend.Auth.Tokens.Steps.{
  Steady, Stored, err_not_ok, make_tokens-adds, Event, serve_all, serve_all-Stored,
}

-- The first record of a token is revoked.
abbrev pub Dead : String → String → List RefreshToken → Type 0
Dead jti hash rows =
    (x : RefreshToken) × (find (is_record jti hash) rows ≡ some x) × (x.revoked ≡ true)

find-append :
    (p : RefreshToken → Bool) (rows : List RefreshToken) (x y : RefreshToken)
    → find p rows ≡ some y
    → find p (rows ++ x ∷ []) ≡ some y
find-append p [] x y h = cc
find-append p (r ∷ rows) x y h = ground (arith, find-append p rows x y)

module _ (p : RefreshToken → Bool) (k : ℕ) (set : RefreshToken → RefreshToken)
    (keeps : (x : RefreshToken) → p (set x) ≡ p x) where
  pub find-update_row :
      (rows : List RefreshToken) (y : RefreshToken)
      → find p rows ≡ some y
      → find p (update_row (λ x. x.id) k set rows) ≡ some (if nat_beq y.id k then set y else y)
  unfolding update_row
  find-update_row [] y h = cc
  find-update_row (r ∷ rows) y h =
      let same = p-write r in
      elim (Bool-cases (p r)) [
        | inl here ↦
            let e : r ≡ y = head_found (rw here at h) in
            rw (same ∙ here) (ap (λ x. some (if nat_beq x.id k then set x else x)) e)
        | inr there ↦ rw (same ∙ there) (find-update_row rows y (rw there at h))
      ]
    where
      p-write : (x : RefreshToken) → p (if nat_beq x.id k then set x else x) ≡ p x
      p-write x = elim (Bool-cases (nat_beq x.id k)) [
        | inl hit ↦ rw hit (keeps x)
        | inr miss ↦ rw miss refl
      ]

      head_found : {x y : RefreshToken} → some x ≡ some y → x ≡ y
      head_found e = cc

Dead-update_row :
    (jti hash : String) (k : ℕ) (set : RefreshToken → RefreshToken) (rows : List RefreshToken)
    → ((x : RefreshToken) → is_record jti hash (set x) ≡ is_record jti hash x)
    → ((x : RefreshToken) → (set x).revoked ≡ true)
    → Dead jti hash rows
    → Dead jti hash (update_row (λ x. x.id) k set rows)
Dead-update_row jti hash k set rows keeps sets (x, found, dead) =
    (_, find-update_row (is_record jti hash) k set keeps rows x found, ground (arith, sets x))

Dead-Steady : (jti hash : String) → Steady (Dead jti hash)
Dead-Steady jti hash = record {
  adds = λ rows x (y, found, dead). (y, find-append _ rows x y found, dead);
  revokes =
      λ rows k wall j h. Dead-update_row jti hash k (revoke wall j) rows (λ x. refl) (λ x. refl) h;
  ends =
      λ rows k wall h. Dead-update_row jti hash k (revoked_now wall) rows (λ x. refl) (λ x. refl) h;
}

-- What a rotation that succeeds does to the records: the token's live record is revoked, and a
-- live one with an unused id is added.
pub record Rotated (next_id : List ℕ → ℕ) (jti hash : String)
    (tokens tokens' : Option (List RefreshToken)) : Type 0 where
  pub rows : List RefreshToken
  pub old : RefreshToken
  pub new : RefreshToken
  pub wall : ℕ
  pub by : Option String
  pub before : tokens ≡ some rows
  pub found : find (is_record jti hash) rows ≡ some old
  pub live : old.revoked ≡ false
  pub fresh : new.id ≡ next_id (map (λ x. x.id) rows)
  pub alive : new.revoked ≡ false
  pub after : tokens' ≡ some (update_row (λ x. x.id) old.id (revoke wall by) (rows ++ new ∷ []))

Rotated-Dead :
    (next_id : List ℕ → ℕ) (jti hash : String) (tokens tokens' : Option (List RefreshToken))
    → Rotated next_id jti hash tokens tokens'
    → Stored (Dead jti hash) tokens'
Rotated-Dead next_id jti hash tokens tokens' r = subst (Stored (Dead jti hash)) (sym r.after) (
  _,
  find-update_row (is_record jti hash) r.old.id (revoke r.wall r.by) (λ z. refl)
      (r.rows ++ r.new ∷ []) r.old (find-append (is_record jti hash) r.rows r.new r.old r.found),
  ground arith,
)

module _ {Docs : Type 0} (python : Casing) (tenants : Collection Docs Tenant) (settings : Settings)
    (site : Site) where
  -- An answer to a token that is refused.
  abbrev pub Refused : Result AuthError (String × String) → Type 0
  Refused answer = (answer ≡ err invalid_token) ⊎ (answer ≡ err invalid_refresh_token)

  claims-Refused :
      (token : String) (p : Claims) (app_key : Option String) (m : Moment) (s : AuthState Docs)
      → Stored (Dead (or_empty p.jti) (site.sha256 token)) s.tokens
      → (rotate_claims python tenants settings site token p app_key m s).0
        ≡ err invalid_refresh_token
  unfolding rotate_claims rotate_record
  claims-Refused token p app_key m s h =
      elim (Bool-cases (not (is_named p.type "refresh") || missing p.jti)) [
        | inl bad ↦ rw (rotate_claims, bad) refl
        | inr good ↦ elim (Option-cases s.tokens) [
          | inl e ↦ absurd (rw e at h)
          | inr (rows, e) ↦
              let (x, found, dead) = rw e at h in
              rw (rotate_claims, good, e, found) (rw (rotate_record, dead) refl)
        ]
      ]

  token-Refused :
      (token : String) (p : Claims) (first : ℕ) (app_key : Option String) (m : Moment)
      (s : AuthState Docs)
      → decode_token python tenants settings site token first ≡ some p
      → Stored (Dead (or_empty p.jti) (site.sha256 token)) s.tokens
      → Refused (rotate_refresh_token python tenants settings site token app_key m s).0
  unfolding rotate_refresh_token
  token-Refused token p first app_key m s decoded h =
      elim (Option-cases (decode_token python tenants settings site token m.wall)) [
        | inl e ↦ inl (rw (rotate_refresh_token, e) refl)
        | inr (q, e) ↦ inr (
            rw (rotate_refresh_token, e)
              (claims-Refused token q app_key m s (
                subst (λ c. Stored (Dead (or_empty c.jti) (site.sha256 token)) s.tokens)
                  (site.decode_same token _ _ p q decoded e) h)))
      ]

  rotate_checked-Rotated :
      (jti hash : String) (x : RefreshToken) (p : Claims) (app_key : Option String) (m : Moment)
      (rows : List RefreshToken) (checked : Result TenantError (Unit {0}) × State Docs)
      (answer : String × String) (s' : AuthState Docs)
      → find (is_record jti hash) rows ≡ some x
      → rotate_checked python tenants settings site x p app_key m rows checked ≡ (ok answer, s')
      → x.revoked ≡ false
      → Rotated site.next_id jti hash (some rows) s'.tokens
  unfolding rotate_checked
  rotate_checked-Rotated jti hash x p app_key m rows (err e, ts) answer s' found h live =
      absurd (err_not_ok (ap (λ q. q.0) h))
  rotate_checked-Rotated jti hash x p app_key m rows (ok u, ts) answer s' found h live =
      let claims = renewed_claims python tenants settings site x p app_key in
      elim (Result-cases (make_tokens python tenants settings site claims m (some rows))) [
        | inr (e, failed) ↦ absurd (err_not_ok (ap (λ q. q.0) (rw (rotate_checked, failed) at h)))
        | inl ((a, r, j, rows'), stored) ↦
            let (y, new, fresh, added) =
              make_tokens-adds python tenants settings site claims m rows rows' a r j stored in
            subst (λ q. Rotated site.next_id jti hash (some rows) q.1.tokens)
              (rw (rotate_checked, stored) at h)
              (record {
                rows = rows;
                old = x;
                new = y;
                wall = m.wall;
                by = j;
                before = refl;
                found = found;
                live = live;
                fresh = fresh;
                alive = new;
                after = ap (λ us. some (update_row (λ z. z.id) x.id (revoke m.wall j) us)) added;
              })
      ]

  rotate_record-Rotated :
      (jti hash : String) (x : RefreshToken) (p : Claims) (app_key : Option String) (m : Moment)
      (rows : List RefreshToken) (ts : State Docs) (answer : String × String) (s' : AuthState Docs)
      → find (is_record jti hash) rows ≡ some x
      → rotate_record python tenants settings site x p app_key m rows ts ≡ (ok answer, s')
      → Rotated site.next_id jti hash (some rows) s'.tokens
  unfolding rotate_record
  rotate_record-Rotated jti hash x p app_key m rows ts answer s' found h =
      elim (Bool-cases x.revoked) [
        | inl dead ↦ absurd (err_not_ok (ap (λ q. q.0) (rw (rotate_record, dead) at h)))
        | inr live ↦ elim (Bool-cases (leb x.expires_at m.wall)) [
          | inl late ↦ absurd (err_not_ok (ap (λ q. q.0) (rw (rotate_record, live, late) at h)))
          | inr soon ↦ elim (Bool-cases (wrong_app_key python tenants settings site x p app_key)) [
            | inl wrong ↦
                absurd (err_not_ok (ap (λ q. q.0) (rw (rotate_record, live, soon, wrong) at h)))
            | inr right ↦
                rotate_checked-Rotated jti hash x p app_key m rows _ answer s' found
                  (rw (rotate_record, live, soon, right) at h) live
          ]
        ]
      ]

  pub rotate_claims-Rotated :
      (token : String) (p : Claims) (app_key : Option String) (m : Moment) (s : AuthState Docs)
      (answer : String × String) (s' : AuthState Docs)
      → rotate_claims python tenants settings site token p app_key m s ≡ (ok answer, s')
      → Rotated site.next_id (or_empty p.jti) (site.sha256 token) s.tokens s'.tokens
  unfolding rotate_claims
  rotate_claims-Rotated token p app_key m s answer s' h =
      elim (Bool-cases (not (is_named p.type "refresh") || missing p.jti)) [
        | inl bad ↦ absurd (err_not_ok (ap (λ q. q.0) (rw (rotate_claims, bad) at h)))
        | inr good ↦ elim (Option-cases s.tokens) [
          | inl e ↦ absurd (err_not_ok (ap (λ q. q.0) (rw (rotate_claims, good, e) at h)))
          | inr (rows, e) ↦
              elim (Option-cases (find (is_record (or_empty p.jti) (site.sha256 token)) rows)) [
                | inl unknown ↦
                    absurd (err_not_ok (ap (λ q. q.0) (rw (rotate_claims, good, e, unknown) at h)))
                | inr (x, found) ↦
                    subst
                      (λ o. Rotated site.next_id (or_empty p.jti) (site.sha256 token) o s'.tokens)
                      (sym e)
                      (rotate_record-Rotated (or_empty p.jti) (site.sha256 token) x p app_key m rows
                        s.tenants answer s' found (rw (rotate_claims, good, e, found) at h))
              ]
        ]
      ]

  -- A refresh token serves once: after a rotation that succeeded, and any calls that issue,
  -- rotate or log out tokens, a rotation of the same token is refused as invalid, for every
  -- application key and at every time.
  pub rotate_refresh_token_once :
      (token : String) (app_key : Option String) (m : Moment) (s : AuthState Docs)
      (answer : String × String) (s' : AuthState Docs)
      → rotate_refresh_token python tenants settings site token app_key m s ≡ (ok answer, s')
      → (events : List Event) (later_key : Option String) (later : Moment)
      → Refused
          (rotate_refresh_token python tenants settings site token later_key later
            (serve_all python tenants settings site events s')).0
  unfolding rotate_refresh_token
  rotate_refresh_token_once token app_key m s answer s' h events later_key later =
      elim (Option-cases (decode_token python tenants settings site token m.wall)) [
        | inl e ↦ absurd (err_not_ok (ap (λ q. q.0) (rw (rotate_refresh_token, e) at h)))
        | inr (p, e) ↦
            let dead =
              Rotated-Dead site.next_id (or_empty p.jti) (site.sha256 token) s.tokens s'.tokens (
                rotate_claims-Rotated token p app_key m s answer s'
                  (rw (rotate_refresh_token, e) at h)) in
            token-Refused token p m.wall later_key later _ e (
              serve_all-Stored python tenants settings site _
                (Dead-Steady (or_empty p.jti) (site.sha256 token)) events s' dead)
      ]

  -- A refresh token that is logged out while its signature holds and its record is stored is
  -- refused as invalid from then on, after any calls, for every application key and at every time.
  pub logout_refresh_token_ends :
      (token : String) (p : Claims) (m : Moment) (s : AuthState Docs) (rows : List RefreshToken)
      (x : RefreshToken)
      → decode_token python tenants settings site token m.wall ≡ some p
      → is_named p.type "refresh" ≡ true
      → missing p.jti ≡ false
      → s.tokens ≡ some rows
      → find (is_record (or_empty p.jti) (site.sha256 token)) rows ≡ some x
      → (events : List Event) (later_key : Option String) (later : Moment)
      → Refused
          (rotate_refresh_token python tenants settings site token later_key later (
            serve_all python tenants settings site events
              (logout_refresh_token python tenants settings site token m s))).0
  unfolding logout_refresh_token revoke_found
  logout_refresh_token_ends token p m s rows x decoded refresh named stored found events later_key
        later =
      let dead : Stored (Dead (or_empty p.jti) (site.sha256 token))
          (logout_refresh_token python tenants settings site token m s).tokens =
        rw (logout_refresh_token, decoded, refresh, named, stored, found)
          (
            _,
            find-update_row (is_record (or_empty p.jti) (site.sha256 token)) x.id
                (revoked_now m.wall) (λ z. refl) rows x found,
            ground arith,
          ) in
      token-Refused token p m.wall later_key later _ decoded (
        serve_all-Stored python tenants settings site _
          (Dead-Steady (or_empty p.jti) (site.sha256 token)) events _ dead)
