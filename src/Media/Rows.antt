-- ===== src/Media/Rows.antt =====
-- The table of packages/db/src/schema/media-asset.schema.ts with the queries of packages/db/src/media.ts,
-- and the stored objects: files by path, or the object store by key. A write to the file system may
-- fail, and a call of the object store may be rejected.
use saa_sweave.Prelude.{
  ℕ, String, Bool, true, false, not, ◌&&◌, Option, none, some, List, min, keep, if◌then◌else◌,
}
use text.Mathlib.Text.{◌==◌ as str_eq}
use saa_sweave.Prelude.Table.{Table}
use saa_sweave.Prelude.Sql.{first_where}
use saa_sweave.Media.Keys.{MediaAssetPurpose, avatar, attachment, personal, is_public_media_purpose}

pub data MediaAssetStatus : Type 0 where
  pending uploaded linked orphan deleted : MediaAssetStatus

abbrev pub is_pending : MediaAssetStatus → Bool
is_pending pending = true
is_pending _ = false

abbrev pub is_linked : MediaAssetStatus → Bool
is_linked linked = true
is_linked _ = false

abbrev pub is_orphan : MediaAssetStatus → Bool
is_orphan orphan = true
is_orphan _ = false

abbrev pub is_avatar : MediaAssetPurpose → Bool
is_avatar avatar = true
is_avatar attachment = false
is_avatar personal = false

pub record MediaAsset : Type 0 where
  pub content_type : String
  pub created_at : ℕ
  pub id : String
  pub key : String
  pub linked_at : Option ℕ
  pub owner_id : String
  pub purpose : MediaAssetPurpose
  pub replaced_at : Option ℕ
  pub size : ℕ
  pub status : MediaAssetStatus
  pub uploaded_at : Option ℕ

-- An object with the content type that the object store keeps with it.
pub record StoredObject : Type 0 where
  pub bytes : List ℕ
  pub content_type : Option String

-- The object under a name is gone afterwards.
unfoldable pub remove : String → Table StoredObject → Table StoredObject
remove name objects = keep (λ e. not (str_eq e.key name)) objects

pub record MediaStore : Type 0 where
  pub media_asset : List MediaAsset
  pub objects : Table StoredObject

unfoldable pub get_media_asset_by_key : String → List MediaAsset → Option MediaAsset
get_media_asset_by_key key rows = first_where (λ r. str_eq r.key key) rows

abbrev pub is_unreplaced : Option ℕ → Bool
is_unreplaced none = true
is_unreplaced (some replaced_at) = false

unfoldable pub can_serve_public_media_asset : MediaAsset → Bool
can_serve_public_media_asset row =
    is_linked row.status && is_public_media_purpose row.purpose && is_unreplaced row.replaced_at

abbrev pub max_avatar_bytes : ℕ
max_avatar_bytes = 2000000

abbrev pub max_media_bytes : ℕ
max_media_bytes = 8000000

unfoldable pub resolve_media_upload_max_bytes : MediaAsset → ℕ
resolve_media_upload_max_bytes row =
    min (if is_avatar row.purpose then max_avatar_bytes else max_media_bytes) row.size
