-- ===== src/Base/Text/Ascii.antt =====
-- A case mapping for ASCII letters, which meets what `Casing` asks of `str.lower`.
use Prim.Native.Char.{Char, code}
use Prim.Native.String.{String, [], ◌∷◌}
use sanmitra_backend.Base.{
  ◌≡◌, refl, Bool, true, ◌&&◌, arith, ltb, leb, nat_beq, if◌then◌else◌, and-eq-true,
}
use sanmitra_backend.Base.Text.{Casing, is_plain}

abbrev lower_char : String → String → Char → Char
lower_char (u ∷ us) (l ∷ ls) c = if nat_beq (code u) (code c) then l else lower_char us ls c
lower_char _ _ c = c

abbrev capitals : String
capitals = "ABCDEFGHIJKLMNOPQRSTUVWXYZ"

abbrev letters : String
letters = "abcdefghijklmnopqrstuvwxyz"

abbrev lower_text : String → String
lower_text [] = []
lower_text (c ∷ s) = lower_char capitals letters c ∷ lower_text s

abbrev below_letters : String → Bool
below_letters [] = true
below_letters (u ∷ us) = ltb (code u) 97 && below_letters us

lower_char-plain :
    (us ls : String) (c : Char)
    → below_letters us ≡ true
    → leb 97 (code c) ≡ true
    → lower_char us ls c ≡ c
lower_char-plain [] ls c h g = refl
lower_char-plain (u ∷ us) [] c h g = refl
lower_char-plain (u ∷ us) (l ∷ ls) c h g = ground (arith, lower_char-plain us ls c)

pub lower_text-plain : (s : String) → is_plain s ≡ true → lower_text s ≡ s
lower_text-plain [] h = refl
lower_text-plain (c ∷ s) h =
    let (l, u) = and-eq-true (leb 97 (code c) && leb (code c) 122) (is_plain s) h in
    let (g, _) = and-eq-true (leb 97 (code c)) (leb (code c) 122) l in
    rw (lower_char-plain capitals letters c refl g, lower_text-plain s u) refl

unfoldable pub ascii : Casing
ascii = record { lower = lower_text; lower_plain = lower_text-plain }
