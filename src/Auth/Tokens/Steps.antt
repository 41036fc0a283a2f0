-- ===== src/Auth/Tokens/Steps.antt =====
-- What the calls leave of the records.
use sanmitra_backend.Base.{
  ℕ, ◌≡◌, refl, sym, subst, ◌∙◌, String, false, not, ◌||◌, Option, none, some, List, [], ◌∷◌, ◌++◌,
  map, Result, ok, err, leb, find, arith, Bool-cases, Option-cases, Result-cases, inl, inr,
}
use sanmitra_backend.Base.Text.{Casing, or_empty}
use sanmitra_backend.Base.Equality.{string_eq}
use sanmitra_backend.Base.Collection.{Collection}
use sanmitra_backend.Accounting.Table.{update_row}
use sanmitra_backend.Tenants.Access.{Settings}
use sanmitra_backend.Tenants.Lifecycle.{Tenant, TenantError, State}
use sanmitra_backend.Auth.Tokens.{
  Claims, AuthError, RefreshToken, Site, TokenUser, AuthState, Moment, is_named, missing, is_record,
  revoke, revoked_now, store_refresh_token, insert_token, token_row, make_tokens,
  create_refresh_token, decode_token, token_payload_from_user, tenant_check, issue_checked,
  issue_tokens_for_user, renewed_claims, wrong_app_key, rotate_checked, rotate_record,
  rotate_claims, rotate_refresh_token, revoke_found, logout_refresh_token,
}

-- What no call takes away from the records: it survives a new record and a revocation.
pub record Steady (P : List RefreshToken → Type 0) : Type 0 where
  pub adds : (rows : List RefreshToken) (x : RefreshToken) → P rows → P (rows ++ x ∷ [])
  pub revokes :
      (rows : List RefreshToken) (k wall : ℕ) (jti : Option String)
      → P rows
      → P (update_row (λ x. x.id) k (revoke wall jti) rows)
  pub ends :
      (rows : List RefreshToken) (k wall : ℕ)
      → P rows
      → P (update_row (λ x. x.id) k (revoked_now wall) rows)

abbrev pub Stored : (List RefreshToken → Type 0) → Option (List RefreshToken) → Type 0
Stored P none = ⊥
Stored P (some rows) = P rows

pub err_not_ok :
    {A : Type 0} {e : AuthError} {a : A} → ◌≡◌ {A = Result AuthError A} (err e) (ok a) → ⊥
err_not_ok h = cc

module _ {Docs : Type 0} (python : Casing) (tenants : Collection Docs Tenant) (settings : Settings)
    (site : Site) where
  insert_token-adds :
      (x : RefreshToken) (rows rows' : List RefreshToken)
      → insert_token python tenants settings site x rows ≡ ok rows'
      → rows' ≡ rows ++ x ∷ []
  insert_token-adds x rows rows' h = ground arith

  -- A successful store adds one record, which is not revoked.
  pub store_refresh_token-adds :
      (token : String) (c : Claims) (wall : ℕ) (rows rows' : List RefreshToken)
      → store_refresh_token python tenants settings site token c wall (some rows) ≡ ok rows'
      → (exp : ℕ) × (rows'
          ≡ rows
            ++ token_row python tenants settings site token c (or_empty c.jti) exp wall rows ∷ [])
  unfolding store_refresh_token
  store_refresh_token-adds token c wall rows rows' h =
      elim (Bool-cases (not (is_named c.type "refresh") || missing c.jti)) [
        | inl bad ↦ absurd (err_not_ok (rw (store_refresh_token, bad) at h))
        | inr good ↦ elim (Option-cases c.exp) [
          | inl e ↦ absurd (err_not_ok (rw (store_refresh_token, good, e) at h))
          | inr (exp, e) ↦
              (exp, insert_token-adds _ rows rows' (rw (store_refresh_token, good, e) at h))
        ]
      ]

  -- So does the issue of tokens.
  pub make_tokens-adds :
      (claims : Claims) (m : Moment) (rows rows' : List RefreshToken) (a r : String)
      (j : Option String)
      → make_tokens python tenants settings site claims m (some rows) ≡ ok (a, r, j, rows')
      → (x : RefreshToken) × (x.revoked ≡ false)
        × (x.id ≡ site.next_id (map (λ y. y.id) rows))
        × (rows' ≡ rows ++ x ∷ [])
  unfolding make_tokens
  make_tokens-adds claims m rows rows' a r j h =
      let token = create_refresh_token python tenants settings site claims m.uuid m.wall in
      elim (Option-cases (decode_token python tenants settings site token m.wall)) [
        | inl e ↦ absurd (err_not_ok (rw (make_tokens, e) at h))
        | inr (c, e) ↦
            elim (Result-cases
              (store_refresh_token python tenants settings site token c m.wall (some rows))) [
                | inr (f, failed) ↦ absurd (err_not_ok (rw (make_tokens, e, failed) at h))
                | inl (rows₁, stored) ↦
                    let (exp, added) = store_refresh_token-adds token c m.wall rows rows₁ stored in
                    (_, refl, refl, sym (last_rows (rw (make_tokens, e, stored) at h)) ∙ added)
              ]
      ]
    where
      last_rows :
          {a r a' r' : String} {j j' : Option String} {u v : List RefreshToken}
          → ◌≡◌ {A = Result AuthError (String × String × Option String × List RefreshToken)}
              (ok (a, r, j, u))
              (ok (a', r', j', v))
          → u ≡ v
      last_rows h = cc

  module _ {P : List RefreshToken → Type 0} (steady : Steady P) where
    make_tokens-steady :
        (claims : Claims) (m : Moment) (rows rows' : List RefreshToken) (a r : String)
        (j : Option String)
        → make_tokens python tenants settings site claims m (some rows) ≡ ok (a, r, j, rows')
        → P rows
        → P rows'
    make_tokens-steady claims m rows rows' a r j h p =
        let (x, live, fresh, e) = make_tokens-adds claims m rows rows' a r j h in
        subst P (sym e) (steady.adds rows x p)

    issue_checked-Stored :
        (user : TokenUser) (app_key : Option String) (m : Moment) (rows : List RefreshToken)
        (checked : Result TenantError (Unit {0}) × State Docs)
        → P rows
        → Stored P
            (issue_checked python tenants settings site user app_key m (some rows) checked).1.tokens
    unfolding issue_checked
    issue_checked-Stored user app_key m rows (err e, ts) h = h
    issue_checked-Stored user app_key m rows (ok u, ts) h =
        elim (Result-cases (token_payload_from_user python tenants settings site user app_key m)) [
          | inr (e, refused) ↦ rw (issue_checked, refused) h
          | inl (claims, made) ↦
              elim (Result-cases (make_tokens python tenants settings site claims m (some rows))) [
                | inr (e, failed) ↦ rw (issue_checked, made, failed) h
                | inl ((a, r, j, rows'), stored) ↦
                    rw (issue_checked, made, stored)
                      (make_tokens-steady claims m rows rows' a r j stored h)
              ]
        ]

    rotate_checked-Stored :
        (x : RefreshToken) (p : Claims) (app_key : Option String) (m : Moment)
        (rows : List RefreshToken) (checked : Result TenantError (Unit {0}) × State Docs)
        → P rows
        → Stored P (rotate_checked python tenants settings site x p app_key m rows checked).1.tokens
    unfolding rotate_checked
    rotate_checked-Stored x p app_key m rows (err e, ts) h = h
    rotate_checked-Stored x p app_key m rows (ok u, ts) h =
        let claims = renewed_claims python tenants settings site x p app_key in
        elim (Result-cases (make_tokens python tenants settings site claims m (some rows))) [
          | inr (e, failed) ↦ rw (rotate_checked, failed) h
          | inl ((a, r, j, rows'), stored) ↦
              rw (rotate_checked, stored)
                (steady.revokes rows' x.id m.wall j
                  (make_tokens-steady claims m rows rows' a r j stored h))
        ]

    rotate_record-Stored :
        (x : RefreshToken) (p : Claims) (app_key : Option String) (m : Moment)
        (rows : List RefreshToken) (ts : State Docs)
        → P rows
        → Stored P (rotate_record python tenants settings site x p app_key m rows ts).1.tokens
    unfolding rotate_record
    rotate_record-Stored x p app_key m rows ts h = elim (Bool-cases x.revoked) [
      | inl dead ↦ rw (rotate_record, dead) h
      | inr live ↦ elim (Bool-cases (leb x.expires_at m.wall)) [
        | inl late ↦ rw (rotate_record, live, late) (steady.ends rows x.id m.wall h)
        | inr soon ↦ elim (Bool-cases (wrong_app_key python tenants settings site x p app_key)) [
          | inl wrong ↦ rw (rotate_record, live, soon, wrong) h
          | inr right ↦
              rw (rotate_record, live, soon, right) (rotate_checked-Stored x p app_key m rows _ h)
        ]
      ]
    ]

    issue_tokens_for_user-Stored :
        (user : TokenUser) (app_key : Option String) (m : Moment) (s : AuthState Docs)
        → Stored P s.tokens
        → Stored P (issue_tokens_for_user python tenants settings site user app_key m s).1.tokens
    unfolding issue_tokens_for_user
    issue_tokens_for_user-Stored user app_key m s h = elim (Option-cases s.tokens) [
      | inl e ↦ absurd (rw e at h)
      | inr (rows, e) ↦ rw e (
          issue_checked-Stored user app_key m rows
            (tenant_check python tenants settings site (some user.role) user.tenant_id m s.tenants)
            (rw e at h))
    ]

    rotate_claims-Stored :
        (token : String) (p : Claims) (app_key : Option String) (m : Moment) (s : AuthState Docs)
        → Stored P s.tokens
        → Stored P (rotate_claims python tenants settings site token p app_key m s).1.tokens
    unfolding rotate_claims
    rotate_claims-Stored token p app_key m s h =
        elim (Bool-cases (not (is_named p.type "refresh") || missing p.jti)) [
          | inl bad ↦ rw (rotate_claims, bad) h
          | inr good ↦ elim (Option-cases s.tokens) [
            | inl e ↦ absurd (rw e at h)
            | inr (rows, e) ↦
                elim (Option-cases (find (is_record (or_empty p.jti) (site.sha256 token)) rows)) [
                  | inl unknown ↦ rw (rotate_claims, good, e, unknown) h
                  | inr (x, found) ↦
                      rw (rotate_claims, good, e, found)
                        (rotate_record-Stored x p app_key m rows s.tenants (rw e at h))
                ]
          ]
        ]

    rotate_refresh_token-Stored :
        (token : String) (app_key : Option String) (m : Moment) (s : AuthState Docs)
        → Stored P s.tokens
        → Stored P (rotate_refresh_token python tenants settings site token app_key m s).1.tokens
    unfolding rotate_refresh_token
    rotate_refresh_token-Stored token app_key m s h =
        elim (Option-cases (decode_token python tenants settings site token m.wall)) [
          | inl e ↦ rw (rotate_refresh_token, e) h
          | inr (p, e) ↦ rw (rotate_refresh_token, e) (rotate_claims-Stored token p app_key m s h)
        ]

    revoke_found-steady :
        (wall : ℕ) (rows : List RefreshToken) (o : Option RefreshToken)
        → P rows
        → P (revoke_found python tenants settings site wall rows o)
    unfolding revoke_found
    revoke_found-steady wall rows none h = h
    revoke_found-steady wall rows (some x) h = steady.ends rows x.id wall h

    logout_refresh_token-Stored :
        (token : String) (m : Moment) (s : AuthState Docs)
        → Stored P s.tokens
        → Stored P (logout_refresh_token python tenants settings site token m s).tokens
    unfolding logout_refresh_token
    logout_refresh_token-Stored token m s h =
        elim (Option-cases (decode_token python tenants settings site token m.wall)) [
          | inl e ↦ rw (logout_refresh_token, e) h
          | inr (p, e) ↦ elim (Bool-cases (not (is_named p.type "refresh") || missing p.jti)) [
            | inl bad ↦ rw (logout_refresh_token, e, bad) h
            | inr good ↦ elim (Option-cases s.tokens) [
              | inl f ↦ absurd (rw f at h)
              | inr (rows, f) ↦
                  rw (logout_refresh_token, e, good, f)
                    (revoke_found-steady m.wall rows
                      (find (is_record (or_empty p.jti) (site.sha256 token)) rows) (rw f at h))
            ]
          ]
        ]

-- A call of one of the three functions.
pub data Event : Type 0 where
  issue : TokenUser → Option String → Moment → Event
  rotate : String → Option String → Moment → Event
  logout : String → Moment → Event

module _ {Docs : Type 0} (python : Casing) (tenants : Collection Docs Tenant) (settings : Settings)
    (site : Site) where
  abbrev pub serve : Event → AuthState Docs → AuthState Docs
  serve (issue user app_key m) s =
      (issue_tokens_for_user python tenants settings site user app_key m s).1
  serve (rotate token app_key m) s =
      (rotate_refresh_token python tenants settings site token app_key m s).1
  serve (logout token m) s = logout_refresh_token python tenants settings site token m s

  abbrev pub serve_all : List Event → AuthState Docs → AuthState Docs
  serve_all [] s = s
  serve_all (e ∷ events) s = serve_all events (serve e s)

  pub serve_all-Stored :
      (P : List RefreshToken → Type 0) (steady : Steady P) (events : List Event)
      (s : AuthState Docs)
      → Stored P s.tokens
      → Stored P (serve_all events s).tokens
  serve_all-Stored P steady [] s h = h
  serve_all-Stored P steady (issue user app_key m ∷ events) s h =
      serve_all-Stored P steady events _
        (issue_tokens_for_user-Stored python tenants settings site steady user app_key m s h)
  serve_all-Stored P steady (rotate token app_key m ∷ events) s h =
      serve_all-Stored P steady events _
        (rotate_refresh_token-Stored python tenants settings site steady token app_key m s h)
  serve_all-Stored P steady (logout token m ∷ events) s h =
      serve_all-Stored P steady events _
        (logout_refresh_token-Stored python tenants settings site steady token m s h)
