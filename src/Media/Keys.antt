-- ===== src/Media/Keys.antt =====
-- The keys of stored objects, packages/core/src/media-asset/utils.ts. Node's `resolve` of two paths is
-- an argument.
use saa_sweave.Prelude.{
  String, Bool, true, false, not, ◌&&◌, ◌||◌, Option, none, some, ◌==◌, if◌then◌else◌, any,
}
use Prim.Native.Char.{code}
use text.Mathlib.Text.{◌==◌ as str_eq}
use saa_sweave.Prelude.Text.{trim, split, includes, is_empty, joined, starts_with}

-- `key.replaceAll("\\", "/")`
unfoldable pub with_slashes : String → String
with_slashes String.[] = String.[]
with_slashes (String.◌∷◌ c s) = String.◌∷◌ (if code c == 92 then "/" else c) (with_slashes s)

-- `replace(/^\/+/, "")`
unfoldable pub without_leading_slashes : String → String
without_leading_slashes String.[] = String.[]
without_leading_slashes (String.◌∷◌ c s) =
    let rest = without_leading_slashes s in if code c == b'/' then rest else String.◌∷◌ c s

abbrev pub is_bad_segment : String → Bool
is_bad_segment s = is_empty s || str_eq s "." || str_eq s ".."

unfoldable pub normalize_media_key : String → Option String
unfolding with_slashes without_leading_slashes trim split includes
normalize_media_key key =
    let normalized = trim (without_leading_slashes (with_slashes key)) in
    if is_empty normalized || includes 0 normalized
    then none
    else if any is_bad_segment (split b'/' normalized)
    then none
    else some normalized

-- The directory of uploads, and the arguments that stand for Node's paths.
pub record Paths : Type 0 where
  pub upload_dir : String
  pub resolve : (base path : String) → String

abbrev pub within : Paths → Option String → Option String
within paths none = none
within paths (some normalized) =
    let root = paths.resolve paths.upload_dir "" in
    let absolute_path = paths.resolve root normalized in
    if not (str_eq absolute_path root) && not (starts_with (joined root "/") absolute_path)
    then none
    else some absolute_path

unfoldable pub resolve_safe_media_path : Paths → String → Option String
unfolding normalize_media_key
resolve_safe_media_path paths key = within paths (normalize_media_key key)

pub data MediaAssetPurpose : Type 0 where
  avatar attachment personal : MediaAssetPurpose

abbrev pub purpose_text : MediaAssetPurpose → String
purpose_text avatar = "avatar"
purpose_text attachment = "attachment"
purpose_text personal = "private"

-- `input.fileName` with `extname` and `toLowerCase`; `extension` is what they make of it, after
-- the dot.
unfoldable pub build_media_asset_key :
    (extension owner_id uuid : String) → MediaAssetPurpose → String
unfolding joined
build_media_asset_key extension owner_id uuid purpose =
    let suffix = if is_empty extension then "bin" else extension in
    joined (purpose_text purpose)
      (joined "/" (joined owner_id (joined "/" (joined uuid (joined "." suffix)))))

-- PUBLIC_MEDIA_PURPOSES
abbrev pub is_public_media_purpose : MediaAssetPurpose → Bool
is_public_media_purpose avatar = true
is_public_media_purpose attachment = false
is_public_media_purpose personal = false
