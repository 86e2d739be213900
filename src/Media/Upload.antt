-- ===== src/Media/Upload.antt =====
-- packages/app/src/storage/media-asset/index.ts: an upload from its row to its save, which is also
-- cut where other requests run, between its check, its file and its last update.
use saa_sweave.Prelude.{
  ℕ, String, Bool, true, false, not, ◌&&◌, ◌||◌, Option, none, some, List, [], ◌∷◌, ◌++◌, ltb,
  if◌then◌else◌, any, length,
}
use text.Mathlib.Text.{◌==◌ as str_eq}
use saa_sweave.Prelude.Table.{insert}
use saa_sweave.Prelude.Sql.{update_where, first_where}
use saa_sweave.Media.Keys.{Paths, MediaAssetPurpose, resolve_safe_media_path, build_media_asset_key}
use saa_sweave.Media.Magic.{normalize_content_type, validate_image_magic_bytes}
use saa_sweave.Media.Rows.{
  pending, orphan, is_pending, is_avatar, MediaAsset, MediaStore, resolve_media_upload_max_bytes,
}

pub record MediaSettings : Type 0 where
  pub object_storage : Bool
  pub paths : Paths
  pub to_lower_case : String → String

-- The calls of the object store, or of `unlink`, that may be rejected.
pub data StorageCall : Type 0 where
  exists_call head_call sample_call : StorageCall
  delete_call : (name : String) → StorageCall

abbrev pub has_id : String → MediaAsset → Bool
has_id id row = str_eq row.id id

abbrev pub is_owned : String → String → MediaAsset → Bool
is_owned id owner_id row = str_eq row.id id && str_eq row.owner_id owner_id

pub record UploadInput : Type 0 where
  pub content_type : String
  pub owner_id : String
  pub purpose : MediaAssetPurpose
  pub size : ℕ

abbrev pub new_row : (now : ℕ) → (id key : String) → UploadInput → MediaAsset
new_row now id key input = record {
  content_type = input.content_type;
  created_at = now;
  id = id;
  key = key;
  linked_at = none;
  owner_id = input.owner_id;
  purpose = input.purpose;
  replaced_at = none;
  size = input.size;
  status = pending;
  uploaded_at = none;
}

-- `none` means that an id or a key is taken.
unfoldable pub insert_media_asset :
    (now : ℕ) → (id key : String) → UploadInput → MediaStore → Option MediaStore
insert_media_asset now id key input st =
    if any (λ r. str_eq r.id id || str_eq r.key key) st.media_asset
    then none
    else some (record st { media_asset = st.media_asset ++ new_row now id key input ∷ [] })

-- `createMediaAssetUpload` up to its upload contract; the random ids are `id` and `uuid`.
unfoldable pub create_media_asset_upload :
    (now : ℕ) → (id uuid extension : String) → UploadInput → MediaStore → Option MediaStore
unfolding insert_media_asset build_media_asset_key
create_media_asset_upload now id uuid extension input st =
    let key = build_media_asset_key extension input.owner_id uuid input.purpose in
    insert_media_asset now id key input st

abbrev pub if_pending : Option MediaAsset → Option MediaAsset
if_pending none = none
if_pending (some row) = if is_pending row.status then some row else none

unfoldable pub get_pending_media_upload_row : String → List MediaAsset → Option MediaAsset
get_pending_media_upload_row id rows = if_pending (first_where (has_id id) rows)

-- A save that has passed its checks.
pub record Save : Type 0 where
  pub asset_id : String
  pub path : String
  pub content_type : String
  pub bytes : List ℕ

abbrev pub save_at : String → MediaAsset → List ℕ → Option String → Option Save
save_at id row body none = none
save_at id row body (some path) =
    some (record { asset_id = id; path = path; content_type = row.content_type; bytes = body })

unfoldable pub check_row :
    MediaSettings → String → List ℕ → (content_type : String) → Option MediaAsset → Option Save
unfolding resolve_media_upload_max_bytes normalize_content_type
check_row settings id body content_type none = none
check_row settings id body content_type (some row) =
    let lower = settings.to_lower_case in
    if ltb (resolve_media_upload_max_bytes row) (length body)
    then none
    else if not (
        str_eq (normalize_content_type lower content_type)
          (normalize_content_type lower row.content_type))
    then none
    else if is_avatar row.purpose && not (validate_image_magic_bytes lower row.content_type body)
    then none
    else save_at id row body (resolve_safe_media_path settings.paths row.key)

-- `saveUploadedMediaObject` up to its file.
unfoldable pub check_upload :
    MediaSettings → String → List ℕ → (content_type : String) → MediaStore → Option Save
unfolding check_row get_pending_media_upload_row
check_upload settings id body content_type st =
    let checked =
      check_row settings id body content_type (get_pending_media_upload_row id st.media_asset) in
    if settings.object_storage then none else checked

unfoldable pub write_file : Save → MediaStore → MediaStore
write_file save st = record st {
  objects = insert save.path (record { bytes = save.bytes; content_type = none }) st.objects;
}

unfoldable pub finish_save : ℕ → Save → MediaStore → MediaStore
finish_save now save st = record st {
  media_asset =
      update_where (has_id save.asset_id)
        (λ r. record r {
          content_type = save.content_type;
          status = orphan;
          uploaded_at = some now;
        })
        st.media_asset;
}

abbrev pub save_checked : ℕ → (writes : Bool) → Option Save → MediaStore → Bool × MediaStore
save_checked now writes none st = (false, st)
save_checked now writes (some save) st =
    if writes then (true, finish_save now save (write_file save st)) else (false, st)

-- With nobody in between; `writes` is whether the file is written.
unfoldable pub save_uploaded_media_object :
    MediaSettings
    → (now : ℕ) → (writes : Bool) → String
    → List ℕ
    → (content_type : String) → MediaStore
    → Bool × MediaStore
unfolding check_upload write_file finish_save
save_uploaded_media_object settings now writes id body content_type st =
    save_checked now writes (check_upload settings id body content_type st) st
