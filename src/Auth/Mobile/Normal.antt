-- ===== src/Auth/Mobile/Normal.antt =====
-- Normal forms of mobile numbers.
use Prim.Native.Char.{code}
use Prim.Native.String.{[] as nil, ◌∷◌ as cons}
use sanmitra_backend.Base.{
  ℕ, ◌-◌, ◌≤◌, ◌≡◌, refl, sym, ap, subst, String, Bool, true, not, ◌&&◌, ◌||◌, Option, none, some,
  ltb, leb, nat_beq, arith, Bool-cases, Option-cases, inl, inr,
}
use sanmitra_backend.Base.Text.{is_empty, strip, lstrip, rstrip, is_space, text_length, append_text}
use sanmitra_backend.Auth.Mobile.{
  Digits, keep_text, after_char, is_separator, international, digits_only, with_plus, check_length,
  normalize_mobile,
}

abbrev all_text : (ℕ → Bool) → String → Bool
all_text p nil = true
all_text p (cons c s) = p (code c) && all_text p s

all_text-keep_text : (p : ℕ → Bool) (s : String) → all_text p (keep_text p s) ≡ true
all_text-keep_text p nil = refl
all_text-keep_text p (cons c s) = elim (Bool-cases (p (code c))) [
  | inl good ↦ rw (good, good) (all_text-keep_text p s)
  | inr bad ↦ rw bad (all_text-keep_text p s)
]

keep_text-all : (p : ℕ → Bool) (s : String) → all_text p s ≡ true → keep_text p s ≡ s
keep_text-all p nil h = refl
keep_text-all p (cons c s) h = ground (arith, keep_text-all p s)

all_text-weaken :
    (p q : ℕ → Bool)
    → ((c : ℕ) → p c ≡ true → q c ≡ true)
    → (s : String) → all_text p s ≡ true
    → all_text q s ≡ true
all_text-weaken p q f nil h = refl
all_text-weaken p q f (cons c s) h = ground (arith, f (code c), all_text-weaken p q f s)

lstrip-all : (s : String) → all_text (λ c. not (is_space c)) s ≡ true → lstrip s ≡ s
unfolding lstrip
lstrip-all nil h = refl
lstrip-all (cons c s) h = ground arith

rstrip-all : (s : String) → all_text (λ c. not (is_space c)) s ≡ true → rstrip s ≡ s
unfolding rstrip
rstrip-all nil h = refl
rstrip-all (cons c s) h = ground (arith, rstrip-all s)

strip-all : (s : String) → all_text (λ c. not (is_space c)) s ≡ true → strip s ≡ s
unfolding strip
strip-all s h = rw (rstrip-all s h) (lstrip-all s h)

module _ (unicode : Digits) where
  -- A plus sign and 8 to 15 digits.
  pub record IsMobile (r : String) : Type 0 where
    pub digits : String
    pub shape : r ≡ append_text "+" digits
    pub all_digits : all_text unicode.is_digit digits ≡ true
    pub short : 8 ≤ text_length digits
    pub long : text_length digits ≤ 15

  abbrev Plus : String → Type 0
  Plus r = (d : String) × (r ≡ append_text "+" d) × (all_text unicode.is_digit d ≡ true)

  some_eq : {u v : String} → some u ≡ some v → v ≡ u
  some_eq e = cc

  indian : (d : String) → all_text unicode.is_digit d ≡ true → Plus (append_text "+91" d)
  indian d h = (
    append_text "91" d,
    refl,
    ground (arith, unicode.ascii_digit 57 refl, unicode.ascii_digit 49 refl),
  )

  none_not_some : {u : String} → ◌≡◌ {A = Option String} none (some u) → ⊥
  none_not_some h = cc

  with_plus-Plus : (cleaned r : String) → with_plus unicode cleaned ≡ some r → Plus r
  with_plus-Plus cleaned r h = elim (Option-cases (after_char 43 cleaned)) [
    | inr (t, e) ↦ (
      digits_only unicode t,
      some_eq (rw (with_plus, e) at h),
      all_text-keep_text unicode.is_digit t,
    )
    | inl e ↦
        let d = digits_only unicode cleaned in
        let good = all_text-keep_text unicode.is_digit cleaned in
        elim (Bool-cases (nat_beq (text_length d) 10)) [
          | inl ten ↦ subst Plus (sym (some_eq (rw (with_plus, e, ten) at h))) (indian d good)
          | inr other ↦ elim (Bool-cases (leb 8 (text_length d) && leb (text_length d) 15)) [
            | inl fits ↦ (d, some_eq (rw (with_plus, e, other, fits) at h), good)
            | inr bad ↦ absurd (none_not_some (rw (with_plus, e, other, bad) at h))
          ]
        ]
  ]

  check_length_sound :
      (o : Option String) (r : String)
      → check_length unicode o ≡ some r
      → (o ≡ some r) × (8 ≤ text_length r - 1) × (text_length r - 1 ≤ 15)
  check_length_sound none r h = absurd (none_not_some h)
  check_length_sound (some s) r h =
      elim (Bool-cases (ltb (text_length s - 1) 8 || ltb 15 (text_length s - 1))) [
        | inl bad ↦ absurd (none_not_some (rw (check_length, bad) at h))
        | inr good ↦
            let same : r ≡ s = some_eq (rw (check_length, good) at h) in
            rw same (refl, ground arith, ground arith)
      ]

  normalize_mobile-IsMobile :
      (mobile r : String) → normalize_mobile unicode mobile ≡ some r → IsMobile r
  unfolding normalize_mobile
  normalize_mobile-IsMobile mobile r h = elim (Bool-cases (is_empty (strip mobile))) [
    | inl none_given ↦ absurd (none_not_some (rw (normalize_mobile, none_given) at h))
    | inr given ↦
        let (made, short, long) = check_length_sound _ r (rw (normalize_mobile, given) at h) in
        let (d, shape, good) =
          with_plus-Plus (international (keep_text (λ c. not (is_separator c)) (strip mobile))) r
            made in
        record {
          digits = d;
          shape = shape;
          all_digits = good;
          short = omega (arith, short, ap text_length shape);
          long = omega (arith, long, ap text_length shape);
        }
  ]

  no_separator : (c : ℕ) → unicode.is_digit c ≡ true → not (is_separator c) ≡ true
  no_separator c h = ground (arith, unicode.not_punctuation c h)

  no_space : (c : ℕ) → unicode.is_digit c ≡ true → not (is_space c) ≡ true
  no_space c h = ground (arith, unicode.not_punctuation c h)

  plus_digits-fixed :
      (d : String)
      → all_text unicode.is_digit d ≡ true
      → 8 ≤ text_length d
      → text_length d ≤ 15
      → normalize_mobile unicode (append_text "+" d) ≡ some (append_text "+" d)
  unfolding normalize_mobile is_space
  plus_digits-fixed d good short long =
      let spaces = all_text-weaken unicode.is_digit (λ c. not (is_space c)) no_space d good in
      let separators =
        all_text-weaken unicode.is_digit (λ c. not (is_separator c)) no_separator d good in
      rw
        (
          strip-all (append_text "+" d) spaces,
          keep_text-all (λ c. not (is_separator c)) d separators,
          keep_text-all unicode.is_digit d good,
        )
        (ground arith)

  -- A number that `_normalize_mobile` returns is a plus sign and 8 to 15 digits, and its own
  -- normal form.
  pub normalize_mobile_idempotent :
      (mobile r : String)
      → normalize_mobile unicode mobile ≡ some r
      → IsMobile r × (normalize_mobile unicode r ≡ some r)
  normalize_mobile_idempotent mobile r h =
      let v = normalize_mobile-IsMobile mobile r h in
      (
        v,
        subst (λ u. normalize_mobile unicode u ≡ some u) (sym v.shape)
            (plus_digits-fixed v.digits v.all_digits v.short v.long),
      )
