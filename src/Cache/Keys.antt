-- ===== src/Cache/Keys.antt =====
-- `normalizePart`, `cacheKey` and `tagVersionKey` of packages/cache/src/cache.ts.
use Prim.Native.Char.{Char, code}
use Prim.Native.String.{String, ◌∷◌, []}
use saa_sweave.Prelude.{ℕ, Bool, false, not, ◌&&◌, ◌||◌, leb, ◌==◌, if◌then◌else◌, keep, List}
use saa_sweave.Prelude.Text.{is_empty, trim, joined}

-- `[a-zA-Z0-9:_-]`
abbrev pub is_key_char : ℕ → Bool
is_key_char c =
    leb b'a' c && leb c b'z'
    || leb b'A' c && leb c b'Z'
    || leb b'0' c && leb c b'9'
    || c == b':'
    || c == b'_'
    || c == b'-'

abbrev pub colon : Char
colon = ":"

-- `.replaceAll(/[^a-zA-Z0-9:_-]/g, ":")`
unfoldable pub with_colons : String → String
with_colons [] = []
with_colons (c ∷ s) = (if is_key_char (code c) then c else colon) ∷ with_colons s

abbrev pub begins_with_colon : String → Bool
begins_with_colon [] = false
begins_with_colon (c ∷ s) = code c == b':'

-- `.replaceAll(/:{2}/g, ":")`
unfoldable pub single_colons : String → String
single_colons [] = []
single_colons (c ∷ s) =
    let rest = single_colons s in
    if code c == b':' && begins_with_colon rest then rest else c ∷ rest

unfoldable pub without_leading : String → String
without_leading [] = []
without_leading (c ∷ s) = let rest = without_leading s in if code c == b':' then rest else c ∷ s

unfoldable pub without_trailing : String → String
without_trailing [] = []
without_trailing (c ∷ s) =
    let rest = without_trailing s in if is_empty rest && code c == b':' then [] else c ∷ rest

-- `.replace(/^:+|:+$/g, "")` is on both ends.
unfoldable pub normalize_part : String → String
unfolding with_colons single_colons without_leading without_trailing
normalize_part part = without_trailing (without_leading (single_colons (with_colons (trim part))))

-- `parts.join(":")`
unfoldable pub join_parts : List String → String
join_parts List.[] = []
join_parts (List.◌∷◌ p List.[]) = p
join_parts (List.◌∷◌ p (List.◌∷◌ q parts)) = joined p (colon ∷ join_parts (List.◌∷◌ q parts))

-- `prefix` is the setting `CACHE_PREFIX`.
unfoldable pub cache_key : (prefix key namespace : String) → String
unfolding normalize_part join_parts
cache_key prefix key namespace = join_parts (
    keep (λ p. not (is_empty p))
      (List.◌∷◌ prefix
        (List.◌∷◌ (normalize_part namespace) (List.◌∷◌ (normalize_part key) List.[]))))

unfoldable pub tag_version_key : (prefix tag : String) → String
unfolding cache_key
tag_version_key prefix tag = cache_key prefix (normalize_part tag) "tag-version"
