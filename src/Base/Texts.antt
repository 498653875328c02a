-- ===== src/Base/Texts.antt =====
-- The order of texts: Go compares strings bytewise, which on UTF-8 is the order of code points.
use Prim.Native.Char.{code}
use Prim.Native.String.{String}
use mathlib.Core.Path.{◌≡◌, refl, ap₂}
use mathlib.Core.Logic.{◌⊎◌, inl, inr}
use mathlib.Core.Bool.{Bool, true, false}
use native.Mathlib.Omega.{arith}
use text.Mathlib.TextEquality.{Char-path}
use minti.Base.Tests.{ltb, if◌then◌else◌}

unfoldable pub str_lt : String → String → Bool
str_lt String.[] String.[] = false
str_lt String.[] (String.◌∷◌ d t) = true
str_lt (String.◌∷◌ c s) String.[] = false
str_lt (String.◌∷◌ c s) (String.◌∷◌ d t) =
    if ltb (code c) (code d) then true else if ltb (code d) (code c) then false else str_lt s t

pub str_lt-asym : (s t : String) → str_lt s t ≡ true → str_lt t s ≡ false
unfolding str_lt
str_lt-asym String.[] String.[] h = refl
str_lt-asym String.[] (String.◌∷◌ d t) h = refl
str_lt-asym (String.◌∷◌ c s) String.[] h = ground arith
str_lt-asym (String.◌∷◌ c s) (String.◌∷◌ d t) h = ground (arith, str_lt-asym s t)

-- A text between two others in the order lies above the first or below the second.
pub str_lt-weak : (s t u : String) → str_lt s u ≡ true → (str_lt s t ≡ true) ⊎ (str_lt t u ≡ true)
unfolding str_lt
str_lt-weak s t String.[] h = absurd (not_below s h)
  where
    not_below : (s : String) → str_lt s String.[] ≡ true → ⊥
    not_below String.[] h = ground arith
    not_below (String.◌∷◌ c s) h = ground arith
str_lt-weak String.[] String.[] (String.◌∷◌ e u) h = inr refl
str_lt-weak (String.◌∷◌ c s) String.[] (String.◌∷◌ e u) h = inr refl
str_lt-weak String.[] (String.◌∷◌ d t) (String.◌∷◌ e u) h = inl refl
str_lt-weak (String.◌∷◌ c s) (String.◌∷◌ d t) (String.◌∷◌ e u) h = ground (arith, str_lt-weak s t u)

pub str_lt-total : (s t : String) → str_lt s t ≡ false → str_lt t s ≡ false → s ≡ t
unfolding str_lt
str_lt-total String.[] String.[] h k = refl
str_lt-total String.[] (String.◌∷◌ d t) h k = ground arith
str_lt-total (String.◌∷◌ c s) String.[] h k = ground arith
str_lt-total (String.◌∷◌ c s) (String.◌∷◌ d t) h k =
    ap₂ String.◌∷◌ (Char-path c d (ground arith)) (str_lt-total s t (ground arith) (ground arith))
