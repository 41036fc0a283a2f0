-- ===== src/Auth/Mobile.antt =====
-- `_normalize_mobile` of app/core/auth/service.py.
pub mod Normal
use Prim.Native.Char.{Char, code}
use Prim.Native.String.{[] as nil, ◌∷◌ as cons}
use sanmitra_backend.Base.{
  ℕ, suc, ◌+◌, ◌-◌, ◌*◌, ◌/◌, ◌≤◌, ◌≡◌, String, Bool, true, false, not, ◌&&◌, ◌||◌, Option, none,
  some, List, [], ◌∷◌, ◌++◌, map, Result, ok, err, ltb, leb, nat_beq, any, all, find, keep,
  if◌then◌else◌,
}
use sanmitra_backend.Base.Text.{
  is_empty, strip, Casing, or_empty, or_else, or_default, text_length, append_text, take_text,
  is_space,
}
use sanmitra_backend.Base.Equality.{◌==◌, contains, string_eq, nat_eq}

-- `\d`, which follows Unicode's tables; the code relies on these two facts.
pub record Digits : Type 0 where
  pub is_digit : ℕ → Bool
  pub ascii_digit : (c : ℕ) → (leb 48 c && leb c 57) ≡ true → is_digit c ≡ true
  pub not_punctuation :
      (c : ℕ)
      → is_digit c ≡ true
      → (is_space c || nat_beq c 40 || nat_beq c 41 || nat_beq c 43 || nat_beq c 45) ≡ false

-- `re.sub` of a class of characters by nothing.
abbrev pub keep_text : (ℕ → Bool) → String → String
keep_text p nil = nil
keep_text p (cons c s) = if p (code c) then cons c (keep_text p s) else keep_text p s

-- `s[1:]` where `s` starts with the character.
abbrev pub after_char : ℕ → String → Option String
after_char k nil = none
after_char k (cons c s) = if nat_beq (code c) k then some s else none

-- `[\s\-()]`
abbrev pub is_separator : ℕ → Bool
is_separator c = is_space c || nat_beq c 45 || nat_beq c 40 || nat_beq c 41

-- `if cleaned.startswith("00")`
abbrev pub international : String → String
international s = elim (after_char 48 s) [
  | none ↦ s
  | some t ↦ elim (after_char 48 t) [ none ↦ s | some u ↦ append_text "+" u ]
]

module _ (unicode : Digits) where
  abbrev pub digits_only : String → String
  digits_only s = keep_text unicode.is_digit s

  -- `digits`, or none for the exception.
  abbrev pub with_plus : String → Option String
  with_plus cleaned = elim (after_char 43 cleaned) [
    | some t ↦ some (append_text "+" (digits_only t))
    | none ↦
        let d = digits_only cleaned in
        if nat_beq (text_length d) 10
        then some (append_text "+91" d)
        else if leb 8 (text_length d) && leb (text_length d) 15
        then some (append_text "+" d)
        else none
  ]

  abbrev pub check_length : Option String → Option String
  check_length none = none
  check_length (some digits) =
      let total_digits = text_length digits - 1 in
      if ltb total_digits 8 || ltb 15 total_digits then none else some digits

  -- `_normalize_mobile`; none for the exceptions with status 400.
  unfoldable pub normalize_mobile : String → Option String
  normalize_mobile mobile =
      let value = strip mobile in
      if is_empty value
      then none
      else check_length (with_plus (international (keep_text (λ c. not (is_separator c)) value)))
