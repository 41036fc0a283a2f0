-- ===== src/Base/Text/Strip.antt =====
-- `strip` strips all: what it returns it leaves alone.
use Prim.Native.Char.{Char, code}
use Prim.Native.String.{String, [], ◌∷◌}
use text.Mathlib.TextLemmas.{nil≢cons}
use sanmitra_backend.Base.{◌≡◌, refl, ap, ◌∙◌, ◌&&◌, Bool-cases, inl, inr}
use sanmitra_backend.Base.Text.{is_empty, is_space, lstrip, keep_right, rstrip, strip}

lstrip-lstrip : (s : String) → lstrip (lstrip s) ≡ lstrip s
unfolding lstrip
lstrip-lstrip [] = refl
lstrip-lstrip (c ∷ s) = elim (Bool-cases (is_space (code c))) [
  | inl h ↦ rw h (lstrip-lstrip s)
  | inr h ↦ rw (h, lstrip, h) refl
]

rstrip-keep_right :
    (c : Char) (s : String) → rstrip s ≡ s → rstrip (keep_right c s) ≡ keep_right c s
unfolding rstrip
rstrip-keep_right c s h = elim (Bool-cases (is_empty s && is_space (code c))) [
  | inl e ↦ rw e refl
  | inr e ↦ rw (e, rstrip, h, e) refl
]

rstrip-rstrip : (s : String) → rstrip (rstrip s) ≡ rstrip s
unfolding rstrip
rstrip-rstrip [] = refl
rstrip-rstrip (c ∷ s) = rstrip-keep_right c (rstrip s) (rstrip-rstrip s)

abbrev tail : String → String
tail [] = []
tail (c ∷ s) = s

kept : (c : Char) (r s : String) → keep_right c r ≡ c ∷ s → r ≡ s
kept c r s h = elim (Bool-cases (is_empty r && is_space (code c))) [
  | inl e ↦ absurd (nil≢cons (rw e at h))
  | inr e ↦ ap tail (rw e at h)
]

rstrip-lstrip : (s : String) → rstrip s ≡ s → rstrip (lstrip s) ≡ lstrip s
unfolding lstrip rstrip
rstrip-lstrip [] h = h
rstrip-lstrip (c ∷ s) h = elim (Bool-cases (is_space (code c))) [
  | inl e ↦ rw e (rstrip-lstrip s (kept c (rstrip s) s h))
  | inr e ↦ rw e h
]

pub strip-strip : (s : String) → strip (strip s) ≡ strip s
unfolding strip
strip-strip s = ap lstrip (rstrip-lstrip (rstrip s) (rstrip-rstrip s)) ∙ lstrip-lstrip (rstrip s)
