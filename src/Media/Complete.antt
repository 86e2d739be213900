-- ===== src/Media/Complete.antt =====
-- packages/app/src/storage/media-asset/index.ts: the link of an upload, the deletion of an asset, and the
-- replacement of avatars with its query in packages/db/src/media-lifecycle.ts.
use saa_sweave.Prelude.{
  ℕ, String, Bool, not, ◌&&◌, ◌||◌, Option, none, some, [], ◌∷◌, ltb, if◌then◌else◌, any, length,
  take, or_else,
}
use text.Mathlib.Text.{◌==◌ as str_eq}
use saa_sweave.Prelude.Table.{lookup}
use saa_sweave.Prelude.Text.{is_empty}
use saa_sweave.Prelude.Sql.{update_where, delete_where, first_where}
use saa_sweave.Media.Keys.{resolve_safe_media_path}
use saa_sweave.Media.Magic.{normalize_content_type, validate_image_magic_bytes}
use saa_sweave.Media.Rows.{
  linked, orphan, is_pending, is_linked, is_avatar, MediaAsset, StoredObject, MediaStore, remove,
  max_avatar_bytes, resolve_media_upload_max_bytes,
}
use saa_sweave.Media.Upload.{
  MediaSettings, StorageCall, exists_call, head_call, sample_call, delete_call, has_id, is_owned,
}

pub data Completion : Type 0 where
  completed : (key : String) → Completion
  refused throws : Completion

abbrev pub link : ℕ → String → MediaAsset → MediaStore → Completion × MediaStore
link now id row st = (
  completed row.key,
  record st {
    media_asset =
        update_where (has_id id) (λ r. record r { linked_at = some now; status = linked })
          st.media_asset;
  },
)

-- The update of a pending row with the size that the object store tells, and the link.
abbrev pub link_stored : ℕ → String → MediaAsset → ℕ → MediaStore → Completion × MediaStore
link_stored now id row size st =
    let known = record st {
      media_asset =
          update_where (has_id id)
            (λ r. record r { size = size; status = orphan; uploaded_at = some now }) st.media_asset;
    } in
    link now id row (if is_pending row.status then known else st)

abbrev pub object_type : StoredObject → String
object_type object = or_else object.content_type ""

unfoldable pub check_object :
    MediaSettings → (rejects : StorageCall → Bool) → MediaAsset → StoredObject → Bool
unfolding normalize_content_type resolve_media_upload_max_bytes
check_object settings rejects row object =
    let lower = settings.to_lower_case in
    let actual_type = normalize_content_type lower (object_type object) in
    let expected_type = normalize_content_type lower row.content_type in
    let sample = take 16 object.bytes in
    not (rejects head_call)
    && not (is_empty actual_type || not (str_eq actual_type expected_type))
    && not (ltb (resolve_media_upload_max_bytes row) (length object.bytes))
    && not (
        is_avatar row.purpose
        && (rejects sample_call || not (validate_image_magic_bytes lower row.content_type sample)))

abbrev pub complete_stored :
    MediaSettings
    → (rejects : StorageCall → Bool) → ℕ
    → String
    → MediaAsset
    → Option StoredObject
    → MediaStore
    → Completion × MediaStore
complete_stored settings rejects now id row none st = (refused, st)
complete_stored settings rejects now id row (some object) st =
    if check_object settings rejects row object
    then link_stored now id row (length object.bytes) st
    else (refused, st)

unfoldable pub complete_row :
    MediaSettings
    → (rejects : StorageCall → Bool) → ℕ
    → String
    → Option MediaAsset
    → MediaStore
    → Completion × MediaStore
unfolding check_object
complete_row settings rejects now id none st = (refused, st)
complete_row settings rejects now id (some row) st =
    let stored = complete_stored settings rejects now id row (lookup row.key st.objects) st in
    if settings.object_storage
    then if rejects exists_call then (throws, st) else stored
    else if is_pending row.status
    then (refused, st)
    else link now id row st

unfoldable pub complete_media_asset_upload :
    MediaSettings
    → (rejects : StorageCall → Bool) → (now : ℕ) → (id owner_id : String) → MediaStore
    → Completion × MediaStore
unfolding complete_row
complete_media_asset_upload settings rejects now id owner_id st =
    complete_row settings rejects now id (first_where (is_owned id owner_id) st.media_asset) st

-- The name of a row's object: its key in the object store, else its path.
abbrev pub object_name : MediaSettings → String → Option String
object_name settings key =
    if settings.object_storage then some key else resolve_safe_media_path settings.paths key

-- What is refused here is only ignored.
abbrev pub delete_named : (rejects : StorageCall → Bool) → Option String → MediaStore → MediaStore
delete_named rejects none st = st
delete_named rejects (some name) st = record st {
  objects = if rejects (delete_call name) then st.objects else remove name st.objects;
}

unfoldable pub delete_media_asset_row : String → MediaStore → MediaStore
delete_media_asset_row id st = record st { media_asset = delete_where (has_id id) st.media_asset }

abbrev pub delete_found :
    MediaSettings
    → (rejects : StorageCall → Bool) → String
    → Option MediaAsset
    → MediaStore
    → MediaStore
delete_found settings rejects id none st = st
delete_found settings rejects id (some row) st =
    delete_media_asset_row id (delete_named rejects (object_name settings row.key) st)

unfoldable pub delete_media_asset_object :
    MediaSettings
    → (rejects : StorageCall → Bool) → (id owner_id : String) → MediaStore
    → MediaStore
unfolding delete_media_asset_row
delete_media_asset_object settings rejects id owner_id st =
    delete_found settings rejects id (first_where (is_owned id owner_id) st.media_asset) st

-- `assertAvatarUpload`: whether it returns.
unfoldable pub assert_avatar_upload : (content_type : String) → (size : ℕ) → Bool
assert_avatar_upload content_type size =
    any (str_eq content_type) ("image/jpeg" ∷ "image/png" ∷ "image/webp" ∷ [])
    && not (ltb max_avatar_bytes size)

-- `markOtherLinkedAvatarsReplaced`, which `finalizeAvatarReplacement` calls.
unfoldable pub mark_other_linked_avatars_replaced :
    (now : ℕ) → (owner_id keep_asset_id : String) → MediaStore → MediaStore
mark_other_linked_avatars_replaced now owner_id keep_asset_id st = record st {
  media_asset =
      update_where
        (λ r.
          (str_eq r.owner_id owner_id && is_avatar r.purpose)
          && is_linked r.status
          && not (str_eq r.id keep_asset_id))
        (λ r. record r { replaced_at = some now }) st.media_asset;
}
