-- ===== src/Outbound/Address.antt =====
-- The addresses that no outbound request may reach: packages/core/src/security/
-- outbound-url-policy.ts. What the code takes from Node and JavaScript is the record `Platform`;
-- `isIP` is 4 where the dotted test of `is_ipv4` holds.
use saa_sweave.Prelude.{
  ℕ, ◌+◌, ◌-◌, ◌*◌, String, Bool, true, false, not, ◌&&◌, ◌||◌, Option, none, some, List, [], ◌∷◌,
  leb, ◌==◌, if◌then◌else◌, or_else, map, length, zero, suc, ◌/◌,
}
use Prim.Native.Nat.{bit_and}
use Prim.Native.Char.{code}
use text.Mathlib.Text.{◌==◌ as str_eq}
use saa_sweave.Prelude.Text.{before, split, includes, is_empty, starts_with, to_number}
use saa_sweave.Ip.{is_ipv4}

-- The parts of a parsed `URL` that the code reads.
pub record Url : Type 0 where
  pub protocol : String
  pub username : String
  pub password : String
  pub hostname : String
  pub host : String
  pub port : String

-- `isIP(s) === 6`, `s.toLowerCase()`, `new URL(s)` and `new URL(location, base).toString()`; `none`
-- where they throw.
pub record Platform : Type 0 where
  pub is_ipv6 : String → Bool
  pub to_lower_case : String → String
  pub parse_url : String → Option Url
  pub resolve_url : (location base : String) → Option String

-- `x === k` and `lo <= x && x <= hi` of a number that may be NaN or missing
abbrev pub is_num : ℕ → Option ℕ → Bool
is_num k none = false
is_num k (some x) = x == k

abbrev pub is_between : ℕ → ℕ → Option ℕ → Bool
is_between lo hi none = false
is_between lo hi (some x) = leb lo x && leb x hi

abbrev pub is_at_least : ℕ → Option ℕ → Bool
is_at_least lo none = false
is_at_least lo (some x) = leb lo x

unfoldable pub ipv4_to_octets : String → List (Option ℕ)
unfolding split to_number
ipv4_to_octets ip = map to_number (split b'.' ip)

-- `isPrivateIPv4`, of the four numbers that it takes from the list
unfoldable pub is_private : (a b c d : Option ℕ) → Bool
is_private a b c d =
    is_num 0 a
    || is_num 10 a
    || is_num 127 a
    || is_num 169 a && is_num 254 b
    || is_num 172 a && is_between 16 31 b
    || is_num 192 a && is_num 168 b
    || is_num 100 a && is_between 64 127 b
    || is_num 192 a && is_num 0 b && is_num 0 c
    || is_num 192 a && is_num 0 b && is_num 2 c
    || is_num 198 a && (is_num 18 b || is_num 19 b)
    || is_num 198 a && is_num 51 b && is_num 100 c
    || is_num 203 a && is_num 0 b && is_num 113 c
    || is_between 224 239 a
    || is_at_least 240 a
    || is_num 255 a && is_num 255 b && is_num 255 c && is_num 255 d

-- `list[n]`, undefined beyond the end
abbrev pub item : ℕ → List (Option ℕ) → Option ℕ
item n [] = none
item zero (x ∷ xs) = x
item (suc n) (x ∷ xs) = item n xs

unfoldable pub is_private_ipv4 : List (Option ℕ) → Bool
unfolding is_private
is_private_ipv4 octets = is_private (item 0 octets) (item 1 octets) (item 2 octets) (item 3 octets)

abbrev hex_digit : ℕ → Option ℕ
hex_digit c =
    if leb b'0' c && leb c b'9'
    then some (c - b'0')
    else if leb b'a' c && leb c b'f'
    then some (c - b'a' + 10)
    else if leb b'A' c && leb c b'F'
    then some (c - b'A' + 10)
    else none

abbrev continued : Option ℕ → (ℕ → Option ℕ) → Option ℕ → Option ℕ
continued none next acc = acc
continued (some d) next acc = next (or_else acc 0 * 16 + d)

-- `Number.parseInt(s, 16)`: the hexadecimal digits that the text begins with; `none` is NaN. The
-- texts here have no white space, sign or `0x`.
unfoldable hex_from : Option ℕ → String → Option ℕ
hex_from acc String.[] = acc
hex_from acc (String.◌∷◌ c s) = continued (hex_digit (code c)) (λ n. hex_from (some n) s) acc

unfoldable pub parse_hex : String → Option ℕ
unfolding hex_from
parse_hex s = hex_from none s

-- The text after the first colon, empty without one.
unfoldable pub after_colon : String → String
after_colon String.[] = ""
after_colon (String.◌∷◌ c s) = let rest = after_colon s in if code c == b':' then s else rest

-- `s.slice(n)`
unfoldable pub slice_from : ℕ → String → String
slice_from zero s = s
slice_from (suc n) String.[] = ""
slice_from (suc n) (String.◌∷◌ c s) = slice_from n s

abbrev from_halves : Option ℕ → Option ℕ → Option (List (Option ℕ))
from_halves (some high) (some low) =
    some (
      some (high / 256)
      ∷ some (bit_and high 0xff)
      ∷ some (low / 256)
      ∷ some (bit_and low 0xff)
      ∷ [])
from_halves _ _ = none

abbrev from_parts : List String → Option (List (Option ℕ))
from_parts (high ∷ low ∷ []) = from_halves (parse_hex high) (parse_hex low)
from_parts _ = none

unfoldable pub parse_embedded_mapped_ipv4 : String → Option (List (Option ℕ))
unfolding ipv4_to_octets parse_hex
parse_embedded_mapped_ipv4 embedded =
    if is_ipv4 embedded then some (ipv4_to_octets embedded) else from_parts (split b':' embedded)

abbrev masked : ℕ → ℕ → ℕ → Bool
masked value mask expected = bit_and value mask == expected

-- The tests on the first two groups.
unfoldable pub is_private_group : (value second : ℕ) → Bool
is_private_group value second =
    masked value 0xfe00 0xfc00
    || masked value 0xffc0 0xfe80
    || masked value 0xff00 0x6400
    || masked value 0xff00 0x0100
    || masked value 0xff00 0x0200
    || masked value 0xff00 0x0000 && not (value == 0x2001)
    || masked value 0xff00 0xff00
    || value == 0x2001 && second == 0x0db8
    || value == 0x2001 && leb 0x0010 second && leb second 0x001f
    || value == 0x2001 && leb 0x0020 second && leb second 0x002f

-- The last test, for 6to4.
unfoldable pub is_private_6to4 : String → Bool
unfolding ipv4_to_octets is_private_ipv4
is_private_6to4 lower =
    let v4part = before b':' (slice_from 5 lower) in
    let octets = ipv4_to_octets v4part in
    starts_with "2002:" lower
    && not (is_empty v4part)
    && includes b'.' v4part
    && length octets == 4
    && is_private_ipv4 octets

abbrev by_groups : Option ℕ → Option ℕ → String → Bool
by_groups (some value) (some second) lower = is_private_group value second || is_private_6to4 lower
by_groups _ _ lower = true

-- `s || "0"`
abbrev pub or_zero : String → String
or_zero s = if is_empty s then "0" else s

unfoldable pub by_hextets : String → Bool
unfolding parse_hex before after_colon
by_hextets lower =
    by_groups (parse_hex (or_zero (before b':' lower)))
      (parse_hex (or_zero (before b':' (after_colon lower)))) lower

-- The tests after the two fixed addresses.
abbrev by_mapped : Option (List (Option ℕ)) → String → Bool
by_mapped (some octets) lower = is_private_ipv4 octets
by_mapped none lower = by_hextets lower

unfoldable pub is_private_ipv6 : Platform → String → Bool
unfolding by_hextets parse_embedded_mapped_ipv4
is_private_ipv6 platform ip =
    let lower = before b'%' (platform.to_lower_case ip) in
    if str_eq lower "::" || str_eq lower "::1"
    then true
    else if starts_with "::ffff:" lower
    then by_mapped (parse_embedded_mapped_ipv4 (slice_from 7 lower)) lower
    else by_hextets lower

unfoldable pub is_blocked_outbound_address : Platform → String → Bool
unfolding is_private_ipv6 is_private_ipv4
is_blocked_outbound_address platform ip =
    if is_ipv4 ip
    then is_private_ipv4 (ipv4_to_octets ip)
    else if platform.is_ipv6 ip
    then is_private_ipv6 platform ip
    else true
