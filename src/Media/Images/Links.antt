-- ===== src/Media/Images/Links.antt =====
-- `completeMediaAssetUpload` and `markOtherLinkedAvatarsReplaced` add no row and change no upload.
use saa_sweave.Prelude.{
  ℕ, String, Bool, Option, none, some, inl, inr, refl, if◌then◌else◌, length, Bool-cases,
}
use saa_sweave.Prelude.Table.{lookup}
use saa_sweave.Prelude.Sql.{update_where, first_where}
use saa_sweave.Media.Rows.{linked, orphan, is_pending, MediaAsset, StoredObject, MediaStore}
use saa_sweave.Media.Upload.{MediaSettings, StorageCall, exists_call, has_id, is_owned}
use saa_sweave.Media.Complete.{
  refused, throws, complete_row, complete_stored, link_stored, link, complete_media_asset_upload,
  mark_other_linked_avatars_replaced, check_object,
}
use saa_sweave.Media.Images.Shrinks.{
  Shrinks, Shrinks-refl, Shrinks-trans, Shrinks-update, Shrinks-if,
}

Shrinks-link :
    (now : ℕ) (id : String) (row : MediaAsset) (st : MediaStore) → Shrinks st (link now id row st).1
Shrinks-link now id row st =
    Shrinks-update (has_id id) (λ r. record r { linked_at = some now; status = linked }) st
      (λ r m e. record { same_id = refl; same_key = refl; same_type = refl; same_purpose = refl })

Shrinks-link_stored :
    (now : ℕ) (id : String) (row : MediaAsset) (size : ℕ) (st : MediaStore)
    → Shrinks st (link_stored now id row size st).1
Shrinks-link_stored now id row size st =
    let known = record st {
      media_asset =
          update_where (has_id id)
            (λ r. record r { size = size; status = orphan; uploaded_at = some now }) st.media_asset;
    } in
    let to_known : Shrinks st known =
      Shrinks-update (has_id id)
        (λ r. record r { size = size; status = orphan; uploaded_at = some now }) st
        (λ r m e. record {
          same_id = refl;
          same_key = refl;
          same_type = refl;
          same_purpose = refl;
        }) in
    elim (Bool-cases (is_pending row.status)) [
      | inl e ↦ rw e (Shrinks-trans to_known (Shrinks-link now id row known))
      | inr e ↦ rw e (Shrinks-link now id row st)
    ]

module _ (settings : MediaSettings) (rejects : StorageCall → Bool) (now : ℕ) (id : String) where
  Shrinks-complete_stored :
      (row : MediaAsset) (object : Option StoredObject) (st : MediaStore)
      → Shrinks st (complete_stored settings rejects now id row object st).1
  Shrinks-complete_stored row none st = Shrinks-refl st
  Shrinks-complete_stored row (some object) st =
      Shrinks-if (check_object settings rejects row object)
        (link_stored now id row (length object.bytes) st) (refused, st)
        (Shrinks-link_stored now id row (length object.bytes) st) (Shrinks-refl st)

  Shrinks-complete_row :
      (row : Option MediaAsset) (st : MediaStore)
      → Shrinks st (complete_row settings rejects now id row st).1
  unfolding complete_row
  Shrinks-complete_row none st = Shrinks-refl st
  Shrinks-complete_row (some row) st =
      let stored = complete_stored settings rejects now id row (lookup row.key st.objects) st in
      let local = if is_pending row.status then (refused, st) else link now id row st in
      Shrinks-if settings.object_storage (if rejects exists_call then (throws, st) else stored)
        local
        (Shrinks-if (rejects exists_call) (throws, st) stored (Shrinks-refl st)
          (Shrinks-complete_stored row (lookup row.key st.objects) st))
        (Shrinks-if (is_pending row.status) (refused, st) (link now id row st) (Shrinks-refl st)
          (Shrinks-link now id row st))

pub Shrinks-complete :
    (settings : MediaSettings) (rejects : StorageCall → Bool) (now : ℕ) (id owner_id : String)
    (st : MediaStore)
    → Shrinks st (complete_media_asset_upload settings rejects now id owner_id st).1
unfolding complete_media_asset_upload
Shrinks-complete settings rejects now id owner_id st =
    Shrinks-complete_row settings rejects now id (first_where (is_owned id owner_id) st.media_asset)
      st

pub Shrinks-replace :
    (now : ℕ) (owner_id keep_asset_id : String) (st : MediaStore)
    → Shrinks st (mark_other_linked_avatars_replaced now owner_id keep_asset_id st)
unfolding mark_other_linked_avatars_replaced
Shrinks-replace now owner_id keep_asset_id st =
    Shrinks-update _ (λ r. record r { replaced_at = some now }) st
      (λ r m e. record { same_id = refl; same_key = refl; same_type = refl; same_purpose = refl })
