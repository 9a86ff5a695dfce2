-- ===== src/Base/Text.antt =====
-- C strings as lists of bytes, and the functions of the C library that the drivers read replies with.
use Prim.Native.Nat.{ℕ, ◌≤◌}
use native.Mathlib.Omega.{arith}
use esp32s3tinyepaper.Base.Lists.{length}
use Prim.Native.Char.{code}
use Prim.Native.String.{String}
use mathlib.Core.Bool.{Bool, true, false, ◌&&◌}
use mathlib.Core.List.{List, [], ◌∷◌}
use mathlib.Core.Option.{Option, none, some}
use esp32s3tinyepaper.Base.Tests.{◌==◌, if◌then◌else◌}

-- The bytes of an ASCII literal.
abbrev pub codes : String → List ℕ
codes String.[] = []
codes (String.◌∷◌ c s) = code c ∷ codes s

-- What a C function sees of an array: the bytes before the first zero.
unfoldable pub c_str : List ℕ → List ℕ
c_str [] = []
c_str (c ∷ s) = let rest = c_str s in if c == 0 then [] else c ∷ rest

pub length-c_str : (s : List ℕ) → length (c_str s) ≤ length s
unfolding c_str
length-c_str [] = omega arith
length-c_str (c ∷ s) = ground (arith, length-c_str s)

unfoldable pub has_prefix : List ℕ → List ℕ → Bool
has_prefix [] s = true
has_prefix (p ∷ ps) [] = false
has_prefix (p ∷ ps) (c ∷ s) = let rest = has_prefix ps s in p == c && rest

-- `strstr`, as the rest of the text from the first place where the needle stands.
unfoldable pub strstr : List ℕ → List ℕ → Option (List ℕ)
strstr [] needle = if has_prefix needle [] then some [] else none
strstr (c ∷ s) needle =
    let later = strstr s needle in if has_prefix needle (c ∷ s) then some (c ∷ s) else later

unfoldable pub contains : List ℕ → List ℕ → Bool
contains s needle = elim (strstr s needle) [ some _ ↦ true | none ↦ false ]

-- `strchr`, as the rest of the text behind the character.
unfoldable pub after_char : List ℕ → ℕ → Option (List ℕ)
after_char [] c = none
after_char (d ∷ s) c = let later = after_char s c in if d == c then some s else later
