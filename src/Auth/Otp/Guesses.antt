-- ===== src/Auth/Otp/Guesses.antt =====
-- How many wrong codes are tried against one document, through any calls.
use sanmitra_backend.Base.{
  ℕ, ◌+◌, ◌≤◌, ◌<◌, ◌≡◌, refl, sym, ap, ◌∙◌, String, Bool, true, false, not, ◌&&◌, Option, none,
  some, List, [], ◌∷◌, map, ltb, leb, nat_beq, keep, arith, Bool-cases, Option-cases, inl, inr,
}
use sanmitra_backend.Base.Text.{Casing, or_empty, text_length}
use sanmitra_backend.Base.Equality.{◌==◌, contains, nat_eq, string_eq}
use sanmitra_backend.Base.Collection.{Collection}
use sanmitra_backend.Tenants.Access.{Settings}
use sanmitra_backend.Tenants.Lifecycle.{Tenant}
use sanmitra_backend.Auth.Tokens.{Site, Moment}
use sanmitra_backend.Auth.Mobile.{Digits, digits_only, normalize_mobile}
use sanmitra_backend.Auth.Otp.{Otp, OtpSettings, OtpState, Delivery, Newest, expire, verify}
use sanmitra_backend.Auth.Otp.Codes.{
  pending, wait_seconds, after_delivery, send_mobile_otp, otp_hash, verify_record,
  verify_mobile_otp, store,
}
use sanmitra_backend.Auth.Otp.Login.Frame.{is_refusal, log_in-Calm}
use sanmitra_backend.Auth.Otp.Guard.{Sound, determines, all-keep, SoundState}
use sanmitra_backend.Auth.Otp.Counter.{
  find_doc, failures, one_if, failures-kept, failures-counted, find-append, find-guarded, own_ids,
}
use sanmitra_backend.Auth.Otp.Attempts.{
  limit, pending-Sound, OtpEvent, send, check, serve_otp, serve_otps, serve_otps-SoundState,
}

module _ {Docs : Type 0} (python : Casing) (tenants : Collection Docs Tenant) (settings : Settings)
    (site : Site) (unicode : Digits) (order : Newest) (otp_settings : OtpSettings) where
  -- Whether a code for a number is tried against the document with an id.
  abbrev pub is_aimed : String → ℕ → OtpState Docs → Bool
  is_aimed mobile i s = elim (normalize_mobile unicode mobile) [
    | none ↦ false
    | some number ↦ elim s.otps [
      | none ↦ false
      | some rows ↦
          elim (pending python tenants settings site unicode order otp_settings number rows) [
            | none ↦ false
            | some x ↦ nat_beq x.id i
          ]
    ]
  ]

  -- 1 for a call that tries a wrong code against the document.
  abbrev pub wrong_guess : ℕ → OtpEvent → OtpState Docs → ℕ
  wrong_guess i (send mobile draw delivery m) s = 0
  wrong_guess i (check mobile otp tenant_id full_name app_key m) s = one_if (
      is_refusal
        (verify_mobile_otp python tenants settings site unicode order otp_settings mobile otp
          tenant_id full_name app_key m s).0
      && is_aimed mobile i s)

  abbrev pub wrong_guesses : ℕ → List OtpEvent → OtpState Docs → ℕ
  wrong_guesses i [] s = 0
  wrong_guesses i (e ∷ events) s =
      wrong_guess i e s
      + wrong_guesses i events
          (serve_otp python tenants settings site unicode order otp_settings e s)

  pending-contains :
      (number : String) (rows : List Otp) (x : Otp)
      → pending python tenants settings site unicode order otp_settings number rows ≡ some x
      → contains (map (λ r. r.id) rows) x.id ≡ true
  pending-contains number rows x h =
      let q = λ (y : Otp). y.mobile == number && not y.consumed in
      let p = λ (y : Otp). contains (map (λ r. r.id) rows) y.id in
      order.newest_in p (keep q rows) x h (all-keep p q rows (own_ids rows))

  verify_record-failures :
      (number otp : String) (tenant_id full_name app_key : Option String) (m : Moment) (x : Otp)
      (rows : List Otp) (s : OtpState Docs) (i : ℕ)
      → determines rows x ≡ true
      → contains (map (λ r. r.id) rows) x.id ≡ true
      → let r =
          verify_record python tenants settings site unicode order otp_settings number otp tenant_id
            full_name app_key m x rows s in
        failures (find_doc i r.1.otps)
        ≡ failures (find_doc i (some rows)) + one_if (is_refusal r.0 && nat_beq x.id i)
  unfolding verify_record
  verify_record-failures number otp tenant_id full_name app_key m x rows s i one there =
      elim (Bool-cases (leb x.expires_at m.wall)) [
        | inl late ↦
            rw (verify_record, late)
              (failures-kept x.id i (expire m.wall) rows (λ r. refl) (λ r. refl) ∙ omega arith)
        | inr soon ↦
            elim (Bool-cases (
              not (
                otp_hash python tenants settings site unicode order otp_settings number otp
                == x.otp_hash))) [
                  | inl wrong ↦
                      rw (verify_record, soon, wrong)
                        (failures-counted m.wall
                          (limit python tenants settings site unicode order otp_settings x) i x rows
                          one there)
                  | inr right ↦
                      let (same, calm) =
                        log_in-Calm python tenants settings site number tenant_id full_name app_key
                          m
                          (record s {
                            otps =
                                store python tenants settings site unicode order otp_settings
                                  (verify m.wall) x rows;
                          }) in
                      let kept =
                        failures-kept x.id i (verify m.wall) rows (λ r. refl) (λ r. refl) in
                      rw (verify_record, soon, right)
                        (rw calm (ap (λ d. failures (find_doc i d)) same ∙ kept ∙ omega arith))
                ]
      ]

  verify_mobile_otp-failures :
      (mobile : String) (otp tenant_id full_name app_key : Option String) (m : Moment)
      (s : OtpState Docs) (i : ℕ)
      → SoundState s.otps
      → let r =
          verify_mobile_otp python tenants settings site unicode order otp_settings mobile otp
            tenant_id full_name app_key m s in
        failures (find_doc i r.1.otps)
        ≡ failures (find_doc i s.otps) + one_if (is_refusal r.0 && is_aimed mobile i s)
  unfolding verify_mobile_otp
  verify_mobile_otp-failures mobile otp tenant_id full_name app_key m s i v =
      elim (Bool-cases (not otp_settings.mobile_otp_enabled)) [
        | inl closed ↦ rw (verify_mobile_otp, closed) (omega arith)
        | inr served ↦ elim (Option-cases (normalize_mobile unicode mobile)) [
          | inl bad ↦ rw (verify_mobile_otp, served, bad) (omega arith)
          | inr (number, good) ↦
              let otp_value = digits_only unicode (or_empty otp) in
              elim (Bool-cases (ltb (text_length otp_value) 4)) [
                | inl short ↦ rw (verify_mobile_otp, served, good, short) (omega arith)
                | inr long ↦ elim (Option-cases s.otps) [
                  | inl e ↦
                      rw (verify_mobile_otp, served, good, long, e)
                        (ap (λ d. failures (find_doc i d)) e)
                  | inr (rows, e) ↦
                      let sound : Sound rows = rw e at v in
                      elim (Option-cases (
                        pending python tenants settings site unicode order otp_settings number
                          rows)) [
                            | inl unknown ↦
                                rw (verify_mobile_otp, served, good, long, e, unknown)
                                  (ap (λ d. failures (find_doc i d)) e ∙ omega arith)
                            | inr (x, found) ↦
                                let (live, one) =
                                  pending-Sound python tenants settings site unicode order
                                    otp_settings number rows x sound found in
                                let aimed : is_aimed mobile i s ≡ nat_beq x.id i =
                                  rw (is_aimed, good, e, found) refl in
                                rw (aimed, verify_mobile_otp, served, good, long, e, found)
                                  (verify_record-failures number otp_value tenant_id full_name
                                    app_key m x rows s i one (pending-contains number rows x found))
                          ]
                ]
              ]
        ]
      ]

  after_delivery-failures :
      (number code : String) (wall : ℕ) (rows : List Otp) (delivery : Option Delivery)
      (s : OtpState Docs) (i : ℕ)
      → s.otps ≡ some rows
      → failures (
          find_doc i
            (after_delivery python tenants settings site unicode order otp_settings number code wall
              rows delivery s).1.otps)
        ≡ failures (find_doc i (some rows))
  unfolding after_delivery
  after_delivery-failures number code wall rows none s i e = ap (λ d. failures (find_doc i d)) e
  after_delivery-failures number code wall rows (some d) s i e = find-append i rows _ refl

  send_mobile_otp-failures :
      (mobile : String) (draw : ℕ → String) (delivery : Option Delivery) (m : Moment)
      (s : OtpState Docs) (i : ℕ)
      → failures (
          find_doc i
            (send_mobile_otp python tenants settings site unicode order otp_settings mobile draw
              delivery m s).1.otps)
        ≡ failures (find_doc i s.otps)
  unfolding send_mobile_otp
  send_mobile_otp-failures mobile draw delivery m s i =
      elim (Bool-cases (not otp_settings.mobile_otp_enabled)) [
        | inl closed ↦ rw (send_mobile_otp, closed) refl
        | inr served ↦ elim (Option-cases (normalize_mobile unicode mobile)) [
          | inl bad ↦ rw (send_mobile_otp, served, bad) refl
          | inr (number, good) ↦ elim (Option-cases s.otps) [
            | inl e ↦ rw (send_mobile_otp, served, good, e) (ap (λ d. failures (find_doc i d)) e)
            | inr (rows, e) ↦
                elim (Bool-cases (
                  ltb 0 (
                    wait_seconds python tenants settings site unicode order otp_settings m.wall (
                      pending python tenants settings site unicode order otp_settings number
                        rows)))) [
                          | inl early ↦
                              rw (send_mobile_otp, served, good, e, early)
                                (ap (λ d. failures (find_doc i d)) e)
                          | inr late ↦
                              rw (send_mobile_otp, served, good, e, late)
                                (after_delivery-failures number _ m.wall rows delivery s i e)
                        ]
          ]
        ]
      ]

  -- A call counts a wrong code against its document, and nothing else.
  serve_otp-failures :
      (i : ℕ) (e : OtpEvent) (s : OtpState Docs)
      → SoundState s.otps
      → failures
          (find_doc i (serve_otp python tenants settings site unicode order otp_settings e s).otps)
        ≡ failures (find_doc i s.otps) + wrong_guess i e s
  serve_otp-failures i (send mobile draw delivery m) s v =
      send_mobile_otp-failures mobile draw delivery m s i ∙ omega arith
  serve_otp-failures i (check mobile otp tenant_id full_name app_key m) s v =
      verify_mobile_otp-failures mobile otp tenant_id full_name app_key m s i v

  serve_otps-failures :
      (i : ℕ) (events : List OtpEvent) (s : OtpState Docs)
      → SoundState s.otps
      → failures (
          find_doc i
            (serve_otps python tenants settings site unicode order otp_settings events s).otps)
        ≡ failures (find_doc i s.otps) + wrong_guesses i events s
  serve_otps-failures i [] s v = omega arith
  serve_otps-failures i (e ∷ events) s v =
      let s' = serve_otp python tenants settings site unicode order otp_settings e s in
      let w =
        serve_otps-SoundState python tenants settings site unicode order otp_settings (e ∷ []) s
          v in
      omega (arith, serve_otp-failures i e s v, serve_otps-failures i events s' w)

  found_limits :
      (i n : ℕ) (docs : Option (List Otp)) (x : Otp)
      → SoundState docs
      → find_doc i docs ≡ some x
      → failures (find_doc i docs) ≡ n
      → (n ≡ x.attempts) × (n ≤ x.max_attempts) × (x.consumed ≡ false → n < x.max_attempts)
  found_limits i n none x v h k = ground arith
  found_limits i n (some rows) x v h k =
      let g = find-guarded i rows x v.bounded h in
      let same : x.attempts ≡ n = sym (ap failures h) ∙ k in
      (ground arith, ground arith, λ live. ground arith)

  -- From documents with distinct ids and counters within their limits, through any calls that send
  -- and verify one-time passwords: for a document that is there in the end, the failures it had at
  -- first (none if it was not there) and the calls since then that were answered with "Invalid OTP"
  -- when it was the newest pending one of the number are together its counter; they are at most the
  -- failures it may have, and fewer as long as it is not consumed.
  pub serve_otps_limit :
      (i : ℕ) (events : List OtpEvent) (s : OtpState Docs) (x : Otp)
      → SoundState s.otps
      → find_doc i
          (serve_otps python tenants settings site unicode order otp_settings events s).otps
        ≡ some x
      → let n = failures (find_doc i s.otps) + wrong_guesses i events s in
        (n ≡ x.attempts) × (n ≤ x.max_attempts) × (x.consumed ≡ false → n < x.max_attempts)
  serve_otps_limit i events s x v h =
      found_limits i _ _ x
        (serve_otps-SoundState python tenants settings site unicode order otp_settings events s v) h
        (serve_otps-failures i events s v)
