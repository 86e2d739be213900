-- ===== src/Prelude/Text.antt =====
-- Texts walked by characters, as the program's `split` and `startsWith` walk them.
use Prim.Native.Nat.{ℕ, suc, ◌+◌, ◌-◌, ◌*◌}
use Prim.Native.Char.{Char, code}
use mathlib.Core.List.{List}
use mathlib.Core.Option.{Option, none, some}
use Prim.Native.String.{String, ◌∷◌, []}
use mathlib.Core.Bool.{Bool, true, false, ◌&&◌, ◌||◌}
use mathlib.Core.Path.{◌≡◌, refl}
use native.Mathlib.Omega.{arith}
use saa_sweave.Prelude.Tests.{◌==◌, leb, if◌then◌else◌}

-- `s.split(c)[0]`
unfoldable pub before : ℕ → String → String
before c [] = []
before c (d ∷ s) = let rest = before c s in if code d == c then [] else d ∷ rest

abbrev pub is_empty : String → Bool
is_empty [] = true
is_empty (_ ∷ _) = false

-- Whether a text begins with the characters of a pattern; with `wild`, `_` fits any character.
unfoldable pub fits : (wild : Bool) (pattern text : String) → Bool
fits wild [] text = true
fits wild (p ∷ ps) [] = false
fits wild (p ∷ ps) (t ∷ ts) =
    let rest = fits wild ps ts in if wild && code p == b'_' || code p == code t then rest else false

-- `s.startsWith(prefix)`
unfoldable pub starts_with : (prefix s : String) → Bool
unfolding fits
starts_with prefix s = fits false prefix s

-- SQL's `s LIKE prefix%`, for a prefix without `%` and `\`.
unfoldable pub like_prefix : (prefix s : String) → Bool
unfolding fits
like_prefix prefix s = fits true prefix s

-- A literal prefix matches itself as a pattern.
pub starts_with-like_prefix :
    (prefix s : String) → starts_with prefix s ≡ true → like_prefix prefix s ≡ true
unfolding starts_with like_prefix
starts_with-like_prefix [] s h = refl
starts_with-like_prefix (p ∷ ps) [] h = ground arith
starts_with-like_prefix (p ∷ ps) (t ∷ ts) h = ground (arith, starts_with-like_prefix ps ts)

-- White space as `trim` knows it.
abbrev pub is_space : ℕ → Bool
is_space c =
    leb 9 c && leb c 13
    || c == 32
    || c == 0xa0
    || c == 0x1680
    || leb 0x2000 c && leb c 0x200a
    || c == 0x2028
    || c == 0x2029
    || c == 0x202f
    || c == 0x205f
    || c == 0x3000
    || c == 0xfeff

unfoldable pub trim_start : String → String
trim_start [] = []
trim_start (c ∷ s) = let rest = trim_start s in if is_space (code c) then rest else c ∷ s

unfoldable pub trim_end : String → String
trim_end [] = []
trim_end (c ∷ s) =
    let rest = trim_end s in if is_empty rest && is_space (code c) then [] else c ∷ rest

unfoldable pub trim : String → String
unfolding trim_start trim_end
trim s = trim_end (trim_start s)

abbrev prepend : Char → List String → List String
prepend c List.[] = List.◌∷◌ (c ∷ []) List.[]
prepend c (List.◌∷◌ p parts) = List.◌∷◌ (c ∷ p) parts

-- `s.split(c)`
unfoldable pub split : ℕ → String → List String
split c [] = List.◌∷◌ [] List.[]
split c (d ∷ s) =
    let parts = split c s in if code d == c then List.◌∷◌ [] parts else prepend d parts

-- `s.includes(c)`
unfoldable pub includes : ℕ → String → Bool
includes c [] = false
includes c (d ∷ s) = code d == c || includes c s

unfoldable pub are_digits : String → Bool
are_digits [] = true
are_digits (c ∷ s) = leb b'0' (code c) && leb (code c) b'9' && are_digits s

unfoldable pub count_chars : String → ℕ
count_chars [] = 0
count_chars (c ∷ s) = suc (count_chars s)

unfoldable pub decimal_from : ℕ → String → ℕ
decimal_from acc [] = acc
decimal_from acc (c ∷ s) = decimal_from (acc * 10 + (code c - b'0')) s

-- `Number(s)` of a text of digits; the empty text is 0, any other is taken for NaN.
unfoldable pub to_number : String → Option ℕ
unfolding are_digits decimal_from
to_number s = if are_digits s then some (decimal_from 0 s) else none

-- `a + b`
unfoldable pub joined : String → String → String
joined [] b = b
joined (c ∷ a) b = c ∷ joined a b
