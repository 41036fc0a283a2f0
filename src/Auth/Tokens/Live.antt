-- ===== src/Auth/Tokens/Live.antt =====
-- A rotation neither multiplies nor loses the live tokens.
use mathlib.Core.List.{map-append}
use sanmitra_backend.Base.{
  ℕ, suc, ◌≡◌, refl, sym, ap, subst, ◌∙◌, String, Bool, true, false, not, Option, some, List, [],
  ◌∷◌, ◌++◌, map, ok, find, keep, length, nat_beq, arith, Bool-cases, Option-cases, inl, inr,
}
use sanmitra_backend.Base.Text.{Casing, or_empty}
use sanmitra_backend.Base.Equality.{contains, nat_eq, string_eq, equal_self}
use sanmitra_backend.Base.Collection.{Collection}
use sanmitra_backend.Accounting.Table.{update_row}
use sanmitra_backend.Accounting.Table.Laws.{update_row_absent, ids-update_row}
use sanmitra_backend.Accounting.Journal.Invariant.{Distinct}
use sanmitra_backend.Accounting.Journal.Preserves.{Distinct-append_one}
use sanmitra_backend.Tenants.Access.{Settings}
use sanmitra_backend.Tenants.Lifecycle.{Tenant}
use sanmitra_backend.Auth.Tokens.{
  RefreshToken, Site, AuthState, Moment, is_record, revoke, decode_token, rotate_refresh_token,
}
use sanmitra_backend.Auth.Tokens.Steps.{err_not_ok}
use sanmitra_backend.Auth.Tokens.Revocation.{Rotated, rotate_claims-Rotated}

-- How many records are not revoked.
abbrev pub live_count : List RefreshToken → ℕ
live_count rows = length (keep (λ r. not r.revoked) rows)

live_count-append :
    (rows : List RefreshToken) (x : RefreshToken)
    → x.revoked ≡ false
    → live_count (rows ++ x ∷ []) ≡ suc (live_count rows)
live_count-append [] x h = rw h refl
live_count-append (r ∷ rows) x h = ground (arith, live_count-append rows x)

some_rows : {u v : List RefreshToken} → some u ≡ some v → u ≡ v
some_rows e = cc

head_found : {x y : RefreshToken} → some x ≡ some y → x ≡ y
head_found e = cc

revoke_head :
    (r : RefreshToken) (rows : List RefreshToken) (wall : ℕ) (by : Option String)
    → contains (map (λ y. y.id) rows) r.id ≡ false
    → r.revoked ≡ false
    → suc (live_count (update_row (λ y. y.id) r.id (revoke wall by) (r ∷ rows)))
      ≡ live_count (r ∷ rows)
unfolding update_row
revoke_head r rows wall by new live =
    rw (equal_self r.id, update_row_absent (λ y. y.id) r.id (revoke wall by) rows new, live) refl

module _ (p : RefreshToken → Bool) where
  find-listed :
      (rows : List RefreshToken) (x : RefreshToken)
      → find p rows ≡ some x
      → contains (map (λ y. y.id) rows) x.id ≡ true
  find-listed [] x h = cc
  find-listed (r ∷ rows) x h = elim (Bool-cases (p r)) [
    | inl here ↦ let e = head_found (rw here at h) in ground (arith, ap (λ y. y.id) e)
    | inr there ↦ ground (arith, find-listed rows x (rw there at h))
  ]

  -- Where ids are distinct, the record that is revoked is the one that was found.
  live_count-revoke :
      (rows : List RefreshToken) (x : RefreshToken) (wall : ℕ) (by : Option String)
      → Distinct (map (λ y. y.id) rows)
      → find p rows ≡ some x
      → x.revoked ≡ false
      → suc (live_count (update_row (λ y. y.id) x.id (revoke wall by) rows)) ≡ live_count rows
  unfolding update_row
  live_count-revoke [] x wall by d h live = cc
  live_count-revoke (r ∷ rows) x wall by (new, d) h live = elim (Bool-cases (p r)) [
    | inl here ↦
        let e : r ≡ x = head_found (rw here at h) in
        subst
          (λ z.
            suc (live_count (update_row (λ y. y.id) z.id (revoke wall by) (r ∷ rows)))
            ≡ live_count (r ∷ rows))
          e (revoke_head r rows wall by new (ap (λ z. z.revoked) e ∙ live))
    | inr there ↦
        let later = rw there at h in
        let ih = live_count-revoke rows x wall by d later live in
        let apart : nat_beq r.id x.id ≡ false = ground (
          arith,
          find-listed rows x later,
          λ (s : r.id ≡ x.id). ap (contains (map (λ y. y.id) rows)) s,
        ) in
        rw apart (ground (arith, ih))
  ]

find-append_one :
    (p : RefreshToken → Bool) (rows : List RefreshToken) (x y : RefreshToken)
    → find p rows ≡ some y
    → find p (rows ++ x ∷ []) ≡ some y
find-append_one p [] x y h = cc
find-append_one p (r ∷ rows) x y h = ground (arith, find-append_one p rows x y)

module _ {Docs : Type 0} (python : Casing) (tenants : Collection Docs Tenant) (settings : Settings)
    (site : Site) where
  rows-Distinct :
      (rows : List RefreshToken) (new : RefreshToken)
      → Distinct (map (λ y. y.id) rows)
      → new.id ≡ site.next_id (map (λ y. y.id) rows)
      → Distinct (map (λ y. y.id) (rows ++ new ∷ []))
  rows-Distinct rows new d fresh = subst Distinct (sym (map-append (λ y. y.id) rows (new ∷ []))) (
      Distinct-append_one (map (λ y. y.id) rows) new.id d
        (rw fresh (site.next_id_fresh (map (λ y. y.id) rows))))

  -- Where the records have distinct ids, a rotation that succeeds leaves as many live refresh
  -- tokens as there were, and the ids distinct.
  pub rotate_refresh_token-live_count :
      (token : String) (app_key : Option String) (m : Moment) (s : AuthState Docs)
      (rows : List RefreshToken) (answer : String × String) (s' : AuthState Docs)
      → s.tokens ≡ some rows
      → Distinct (map (λ y. y.id) rows)
      → rotate_refresh_token python tenants settings site token app_key m s ≡ (ok answer, s')
      → (rows' : List RefreshToken) × (s'.tokens ≡ some rows')
        × (live_count rows' ≡ live_count rows)
        × Distinct (map (λ y. y.id) rows')
  unfolding rotate_refresh_token
  rotate_refresh_token-live_count token app_key m s rows answer s' stored d h =
      elim (Option-cases (decode_token python tenants settings site token m.wall)) [
        | inl e ↦ absurd (err_not_ok (ap (λ q. q.0) (rw (rotate_refresh_token, e) at h)))
        | inr (p, e) ↦ counted (or_empty p.jti) (site.sha256 token) (
            rotate_claims-Rotated python tenants settings site token p app_key m s answer s'
              (rw (rotate_refresh_token, e) at h))
      ]
    where
      counted :
          (jti hash : String)
          → Rotated site.next_id jti hash s.tokens s'.tokens
          → (rows' : List RefreshToken) × (s'.tokens ≡ some rows')
            × (live_count rows' ≡ live_count rows)
            × Distinct (map (λ y. y.id) rows')
      counted jti hash r =
          let same : rows ≡ r.rows = some_rows (sym stored ∙ r.before) in
          let d' = subst (λ us. Distinct (map (λ y. y.id) us)) same d in
          let both = rows-Distinct r.rows r.new d' r.fresh in
          let found = find-append_one (is_record jti hash) r.rows r.new r.old r.found in
          let fewer =
            live_count-revoke (is_record jti hash) (r.rows ++ r.new ∷ []) r.old r.wall r.by both
              found r.live in
          let more = live_count-append r.rows r.new r.alive in
          (
            _,
            r.after,
            omega (arith, fewer, more) ∙ ap live_count (sym same),
            subst Distinct
                (sym (
                  ids-update_row (λ y. y.id) r.old.id (revoke r.wall r.by) (λ x. refl)
                    (r.rows ++ r.new ∷ [])))
                both,
          )
