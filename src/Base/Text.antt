-- ===== src/Base/Text.antt =====
-- What the source uses of Python's `str`: emptiness, `len`, `strip`, `lower` and `or`.
pub mod Strip
pub mod Ascii
use Prim.Native.Char.{Char, code}
use Prim.Native.String.{String, [], ◌∷◌}
use sanmitra_backend.Base.{
  ℕ, zero, suc, ◌≡◌, Bool, true, false, ◌&&◌, ◌||◌, Option, none, some, leb, nat_beq, if◌then◌else◌,
}

abbrev pub is_empty : String → Bool
is_empty [] = true
is_empty (c ∷ s) = false

abbrev pub text_length : String → ℕ
text_length [] = 0
text_length (c ∷ s) = suc (text_length s)

-- The code points that `str.strip` removes (`str.isspace`).
unfoldable pub is_space : ℕ → Bool
is_space c =
    leb 9 c && leb c 13
    || leb 28 c && leb c 32
    || nat_beq c 133
    || nat_beq c 160
    || nat_beq c 5760
    || leb 8192 c && leb c 8202
    || leb 8232 c && leb c 8233
    || nat_beq c 8239
    || nat_beq c 8287
    || nat_beq c 12288

unfoldable pub lstrip : String → String
lstrip [] = []
lstrip (c ∷ s) = if is_space (code c) then lstrip s else c ∷ s

abbrev pub keep_right : Char → String → String
keep_right c s = if is_empty s && is_space (code c) then [] else c ∷ s

unfoldable pub rstrip : String → String
rstrip [] = []
rstrip (c ∷ s) = keep_right c (rstrip s)

unfoldable pub strip : String → String
unfolding lstrip rstrip is_space
strip s = lstrip (rstrip s)

-- A text of lower-case ASCII letters only.
abbrev pub is_plain : String → Bool
is_plain [] = true
is_plain (c ∷ s) = leb 97 (code c) && leb (code c) 122 && is_plain s

-- `str.lower`, which follows Unicode's tables; the source relies on it for texts of lower-case
-- letters, which it leaves alone.
pub record Casing : Type 0 where
  pub lower : String → String
  pub lower_plain : (s : String) → is_plain s ≡ true → lower s ≡ s

-- `value or ""`
abbrev pub or_empty : Option String → String
or_empty none = ""
or_empty (some s) = s

-- `a or b`, where an empty text counts as absent
abbrev pub or_else : Option String → Option String → Option String
or_else none b = b
or_else (some s) b = if is_empty s then b else some s

-- `text or default`
abbrev pub or_default : String → String → String
or_default s d = if is_empty s then d else s

-- `s[:n]`
abbrev pub take_text : ℕ → String → String
take_text zero s = []
take_text (suc n) [] = []
take_text (suc n) (c ∷ s) = c ∷ take_text n s

-- `s + t`
abbrev pub append_text : String → String → String
append_text [] t = t
append_text (c ∷ s) t = c ∷ append_text s t
