-- ===== src/Auth/Otp/Attempts.antt =====
-- How often a one-time password can be guessed.
use mathlib.Core.List.{map-append}
use sanmitra_backend.Base.{
  ℕ, ◌+◌, ◌≡◌, refl, sym, subst, String, true, false, not, ◌&&◌, Option, none, some, List, [], ◌∷◌,
  ◌++◌, map, ltb, leb, nat_beq, all, keep, arith, Bool-cases, Option-cases, inl, inr,
}
use sanmitra_backend.Base.Text.{Casing, or_empty, text_length}
use sanmitra_backend.Base.Equality.{◌==◌, nat_eq, string_eq}
use sanmitra_backend.Base.Collection.{Collection}
use sanmitra_backend.Accounting.Journal.Invariant.{Distinct}
use sanmitra_backend.Accounting.Journal.Preserves.{Distinct-append_one}
use sanmitra_backend.Tenants.Access.{Settings}
use sanmitra_backend.Tenants.Lifecycle.{Tenant}
use sanmitra_backend.Auth.Tokens.{Site, Moment}
use sanmitra_backend.Auth.Mobile.{Digits, digits_only, normalize_mobile}
use sanmitra_backend.Auth.Otp.{
  Otp, OtpSettings, OtpState, Delivery, Newest, number_or, expire, count_failure, verify,
}
use sanmitra_backend.Auth.Otp.Codes.{
  new_otp, pending, wait_seconds, after_delivery, send_mobile_otp, otp_hash, verify_record,
  verify_mobile_otp, store,
}
use sanmitra_backend.Auth.Otp.Guard.{
  guarded, Sound, agree, determines, all-determines, all-keep, all-kept, Sound-update_row,
  expire-safe, verify-safe, counted, count_failure-id, SoundState,
}
use sanmitra_backend.Auth.Otp.Login.Frame.{log_in-Calm}

module _ {Docs : Type 0} (python : Casing) (tenants : Collection Docs Tenant) (settings : Settings)
    (site : Site) (unicode : Digits) (order : Newest) (otp_settings : OtpSettings) where
  -- The failures that a document may have, as the code reads them.
  abbrev pub limit : Otp → ℕ
  limit x = number_or x.max_attempts (number_or otp_settings.mobile_otp_max_attempts 5)

  count_failure-safe :
      (wall : ℕ) (x r : Otp)
      → x.consumed ≡ false
      → agree r x ≡ true
      → guarded r ≡ true
      → guarded (count_failure wall (x.attempts + 1) (limit x) r) ≡ true
  count_failure-safe wall x r live h g =
      let same : r.attempts ≡ x.attempts = ground arith in
      let same_max : r.max_attempts ≡ x.max_attempts = ground arith in
      let below : ltb r.attempts r.max_attempts ≡ true = ground arith in
      let positive : nat_beq x.max_attempts 0 ≡ false = ground arith in
      let most : limit x ≡ x.max_attempts = rw positive refl in
      rw most (counted wall x.attempts x.max_attempts r same same_max below (ground arith))

  pub pending-Sound :
      (number : String) (rows : List Otp) (x : Otp)
      → Sound rows
      → pending python tenants settings site unicode order otp_settings number rows ≡ some x
      → (x.consumed ≡ false) × (determines rows x ≡ true)
  pending-Sound number rows x s h =
      let q = λ (y : Otp). y.mobile == number && not y.consumed in
      let kept = order.newest_in q (keep q rows) x h (all-kept q rows) in
      (
        ground (arith, kept),
        order.newest_in (determines rows) (keep q rows) x h
            (all-keep (determines rows) q rows (all-determines rows s.ids)),
      )

  new_otp-Sound :
      (number code : String) (wall : ℕ) (rows : List Otp)
      → Sound rows
      → Sound (
          rows
          ++ new_otp python tenants settings site unicode order otp_settings number code wall rows
            ∷ [])
  new_otp-Sound number code wall rows s = record {
    ids = subst Distinct (sym (map-append (λ x. x.id) rows _)) (
        Distinct-append_one (map (λ x. x.id) rows) _ s.ids
          (site.next_id_fresh (map (λ x. x.id) rows)));
    bounded = all-append rows s.bounded;
  }
    where
      new_guarded :
          guarded
            (new_otp python tenants settings site unicode order otp_settings number code wall rows)
          ≡ true
      new_guarded = ground arith

      all-append :
          (ys : List Otp)
          → all guarded ys ≡ true
          → all guarded (
              ys
              ++ new_otp python tenants settings site unicode order otp_settings number code wall
                  rows
                ∷ [])
            ≡ true
      all-append [] h = rw new_guarded refl
      all-append (y ∷ ys) h = ground (arith, all-append ys)

  verify_record-Sound :
      (number otp : String) (tenant_id full_name app_key : Option String) (m : Moment) (x : Otp)
      (rows : List Otp) (s : OtpState Docs)
      → Sound rows
      → x.consumed ≡ false
      → determines rows x ≡ true
      → SoundState
          (verify_record python tenants settings site unicode order otp_settings number otp
            tenant_id full_name app_key m x rows s).1.otps
  unfolding verify_record
  verify_record-Sound number otp tenant_id full_name app_key m x rows s v live one =
      elim (Bool-cases (leb x.expires_at m.wall)) [
        | inl late ↦
            rw (verify_record, late)
              (Sound-update_row x (expire m.wall) (expire-safe m.wall x) (λ r. refl) rows one v)
        | inr soon ↦
            elim (Bool-cases (
              not (
                otp_hash python tenants settings site unicode order otp_settings number otp
                == x.otp_hash))) [
                  | inl wrong ↦
                      rw (verify_record, soon, wrong)
                        (Sound-update_row x (count_failure m.wall (x.attempts + 1) (limit x))
                          (λ r. count_failure-safe m.wall x r live)
                          (λ r. count_failure-id m.wall (x.attempts + 1) (limit x) r) rows one v)
                  | inr right ↦
                      rw (verify_record, soon, right)
                        (subst SoundState
                          (sym (
                            (log_in-Calm python tenants settings site number tenant_id full_name
                              app_key m
                              (record s {
                                otps =
                                    store python tenants settings site unicode order otp_settings
                                      (verify m.wall) x rows;
                              })).0))
                          (Sound-update_row x (verify m.wall) (verify-safe m.wall x) (λ r. refl)
                            rows one v))
                ]
      ]

  verify_mobile_otp-Sound :
      (mobile : String) (otp tenant_id full_name app_key : Option String) (m : Moment)
      (s : OtpState Docs)
      → SoundState s.otps
      → SoundState
          (verify_mobile_otp python tenants settings site unicode order otp_settings mobile otp
            tenant_id full_name app_key m s).1.otps
  unfolding verify_mobile_otp
  verify_mobile_otp-Sound mobile otp tenant_id full_name app_key m s v =
      elim (Bool-cases (not otp_settings.mobile_otp_enabled)) [
        | inl closed ↦ rw (verify_mobile_otp, closed) v
        | inr served ↦ elim (Option-cases (normalize_mobile unicode mobile)) [
          | inl bad ↦ rw (verify_mobile_otp, served, bad) v
          | inr (number, good) ↦
              let otp_value = digits_only unicode (or_empty otp) in
              elim (Bool-cases (ltb (text_length otp_value) 4)) [
                | inl short ↦ rw (verify_mobile_otp, served, good, short) v
                | inr long ↦ elim (Option-cases s.otps) [
                  | inl e ↦ rw (verify_mobile_otp, served, good, long, e) v
                  | inr (rows, e) ↦
                      let sound : Sound rows = rw e at v in
                      elim (Option-cases (
                        pending python tenants settings site unicode order otp_settings number
                          rows)) [
                            | inl unknown ↦ rw (verify_mobile_otp, served, good, long, e, unknown) v
                            | inr (x, found) ↦
                                let (live, one) = pending-Sound number rows x sound found in
                                rw (verify_mobile_otp, served, good, long, e, found)
                                  (verify_record-Sound number otp_value tenant_id full_name app_key
                                    m x rows s sound live one)
                          ]
                ]
              ]
        ]
      ]

  after_delivery-Sound :
      (number code : String) (wall : ℕ) (rows : List Otp) (delivery : Option Delivery)
      (s : OtpState Docs)
      → SoundState s.otps
      → Sound rows
      → SoundState
          (after_delivery python tenants settings site unicode order otp_settings number code wall
            rows delivery s).1.otps
  unfolding after_delivery
  after_delivery-Sound number code wall rows none s v w = v
  after_delivery-Sound number code wall rows (some d) s v w = new_otp-Sound number code wall rows w

  send_mobile_otp-Sound :
      (mobile : String) (draw : ℕ → String) (delivery : Option Delivery) (m : Moment)
      (s : OtpState Docs)
      → SoundState s.otps
      → SoundState
          (send_mobile_otp python tenants settings site unicode order otp_settings mobile draw
            delivery m s).1.otps
  unfolding send_mobile_otp
  send_mobile_otp-Sound mobile draw delivery m s v =
      elim (Bool-cases (not otp_settings.mobile_otp_enabled)) [
        | inl closed ↦ rw (send_mobile_otp, closed) v
        | inr served ↦ elim (Option-cases (normalize_mobile unicode mobile)) [
          | inl bad ↦ rw (send_mobile_otp, served, bad) v
          | inr (number, good) ↦ elim (Option-cases s.otps) [
            | inl e ↦ rw (send_mobile_otp, served, good, e) v
            | inr (rows, e) ↦
                let sound : Sound rows = rw e at v in
                elim (Bool-cases (
                  ltb 0 (
                    wait_seconds python tenants settings site unicode order otp_settings m.wall (
                      pending python tenants settings site unicode order otp_settings number
                        rows)))) [
                          | inl early ↦ rw (send_mobile_otp, served, good, e, early) v
                          | inr late ↦
                              rw (send_mobile_otp, served, good, e, late)
                                (after_delivery-Sound number _ m.wall rows delivery s v sound)
                        ]
          ]
        ]
      ]

-- A call of one of the two functions.
pub data OtpEvent : Type 0 where
  send : String → (ℕ → String) → Option Delivery → Moment → OtpEvent
  check : String → Option String → Option String → Option String → Option String → Moment → OtpEvent

module _ {Docs : Type 0} (python : Casing) (tenants : Collection Docs Tenant) (settings : Settings)
    (site : Site) (unicode : Digits) (order : Newest) (otp_settings : OtpSettings) where
  abbrev pub serve_otp : OtpEvent → OtpState Docs → OtpState Docs
  serve_otp (send mobile draw delivery m) s =
      (send_mobile_otp python tenants settings site unicode order otp_settings mobile draw delivery
        m s).1
  serve_otp (check mobile otp tenant_id full_name app_key m) s =
      (verify_mobile_otp python tenants settings site unicode order otp_settings mobile otp
        tenant_id full_name app_key m s).1

  abbrev pub serve_otps : List OtpEvent → OtpState Docs → OtpState Docs
  serve_otps [] s = s
  serve_otps (e ∷ events) s = serve_otps events (serve_otp e s)

  -- Through any calls that send and verify one-time passwords, the documents keep distinct ids, and
  -- each has at most as many failures as it may have, and fewer as long as it is not consumed.
  pub serve_otps-SoundState :
      (events : List OtpEvent) (s : OtpState Docs)
      → SoundState s.otps
      → SoundState (serve_otps events s).otps
  serve_otps-SoundState [] s v = v
  serve_otps-SoundState (send mobile draw delivery m ∷ events) s v =
      serve_otps-SoundState events _ (
        send_mobile_otp-Sound python tenants settings site unicode order otp_settings mobile draw
          delivery m s v)
  serve_otps-SoundState (check mobile otp tenant_id full_name app_key m ∷ events) s v =
      serve_otps-SoundState events _ (
        verify_mobile_otp-Sound python tenants settings site unicode order otp_settings mobile otp
          tenant_id full_name app_key m s v)
