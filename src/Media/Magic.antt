-- ===== src/Media/Magic.antt =====
-- packages/core/src/security/image-magic-bytes.ts. JavaScript's `toLowerCase` is an argument.
use saa_sweave.Prelude.{
  ℕ, zero, suc, String, Bool, true, false, ◌&&◌, ◌||◌, List, [], ◌∷◌, ◌==◌, ltb, if◌then◌else◌,
  length,
}
use text.Mathlib.Text.{◌==◌ as str_eq}
use saa_sweave.Prelude.Text.{before, trim}

-- `startsWith`, of bytes
unfoldable pub has_prefix : (prefix bytes : List ℕ) → Bool
has_prefix [] bytes = true
has_prefix (p ∷ prefix) [] = false
has_prefix (p ∷ prefix) (b ∷ bytes) = b == p && has_prefix prefix bytes

abbrev pub drop_bytes : ℕ → List ℕ → List ℕ
drop_bytes zero bytes = bytes
drop_bytes (suc n) [] = []
drop_bytes (suc n) (b ∷ bytes) = drop_bytes n bytes

abbrev pub jpeg_prefix : List ℕ
jpeg_prefix = 0xff ∷ 0xd8 ∷ 0xff ∷ []

abbrev pub png_prefix : List ℕ
png_prefix = 0x89 ∷ 0x50 ∷ 0x4e ∷ 0x47 ∷ 0x0d ∷ 0x0a ∷ 0x1a ∷ 0x0a ∷ []

abbrev pub riff_prefix : List ℕ
riff_prefix = 0x52 ∷ 0x49 ∷ 0x46 ∷ 0x46 ∷ []

abbrev pub webp_signature : List ℕ
webp_signature = 0x57 ∷ 0x45 ∷ 0x42 ∷ 0x50 ∷ []

unfoldable pub has_webp_signature : List ℕ → Bool
unfolding has_prefix
has_webp_signature bytes =
    if ltb (length bytes) 12
    then false
    else has_prefix riff_prefix bytes && has_prefix webp_signature (drop_bytes 8 bytes)

-- `normalizeContentType` of packages/app/src/storage/media-asset, written out in both files
unfoldable pub normalize_content_type : (to_lower_case : String → String) → String → String
unfolding before trim
normalize_content_type to_lower_case content_type = to_lower_case (trim (before b';' content_type))

unfoldable pub validate_image_magic_bytes :
    (to_lower_case : String → String) → String → List ℕ → Bool
unfolding normalize_content_type has_webp_signature
validate_image_magic_bytes to_lower_case content_type bytes =
    let normalized = normalize_content_type to_lower_case content_type in
    if str_eq normalized "image/jpeg" || str_eq normalized "image/jpg"
    then has_prefix jpeg_prefix bytes
    else if str_eq normalized "image/png"
    then has_prefix png_prefix bytes
    else if str_eq normalized "image/webp"
    then has_webp_signature bytes
    else false
