-- ===== src/Media/Images.antt =====
-- Uploads on the local file system as steps that run in any order: what lies under the path of an
-- avatar was checked against the content type of its row.
pub mod Shrinks
pub mod Links
pub mod Sound
pub mod Checked
pub mod Created
pub mod Served
use saa_sweave.Prelude.{
  ℕ, ◌≤◌, String, Bool, true, Option, none, some, List, [], ◌∷◌, ◌≡◌, ◌≢◌, length,
}
use mathlib.Core.List.{Memᴰ}
use saa_sweave.Prelude.Table.{lookup}
use saa_sweave.Media.Keys.{resolve_safe_media_path, build_media_asset_key}
use saa_sweave.Media.Magic.{validate_image_magic_bytes}
use saa_sweave.Media.Rows.{is_avatar, MediaAsset, StoredObject, MediaStore, max_avatar_bytes}
use saa_sweave.Media.Upload.{
  MediaSettings, StorageCall, UploadInput, Save, create_media_asset_upload, check_upload,
  write_file, finish_save,
}
use saa_sweave.Media.Complete.{
  complete_media_asset_upload, mark_other_linked_avatars_replaced, delete_media_asset_object,
}
use saa_sweave.Media.Cleanup.{run_media_lifecycle_cleanup}

-- The tables and files, and the saves that have been checked.
pub record MediaSystem : Type 0 where
  pub store : MediaStore
  pub saves : List Save

abbrev pub idle : MediaSystem
idle = record { store = record { media_asset = []; objects = [] }; saves = [] }

module _ (settings : MediaSettings) where
  abbrev pub path_of : String → Option String
  path_of key = resolve_safe_media_path settings.paths key

  -- The bytes are an image of the content type, of at most 2 MB.
  abbrev pub IsImage : String → List ℕ → Type 0
  IsImage content_type bytes =
      (validate_image_magic_bytes settings.to_lower_case content_type bytes ≡ true)
      × (length bytes ≤ max_avatar_bytes)

  -- `randomUUID` draws an id that no save has, and a key whose path nothing has.
  pub record IsNew (id key : String) (sys : MediaSystem) : Type 0 where
    pub new_id : (s : Save) → Memᴰ s sys.saves → id ≢ s.asset_id
    pub new_save_path : (s : Save) → Memᴰ s sys.saves → path_of key ≢ some s.path
    pub new_object :
        (path : String) → path_of key ≡ some path → lookup path sys.store.objects ≡ none
    pub new_path :
        (r : MediaAsset)
        → Memᴰ r sys.store.media_asset
        → (path : String) → path_of key ≡ some path
        → path_of r.key ≢ some path

  pub data Step : MediaSystem → MediaSystem → Type 0 where
    create :
        (sys : MediaSystem) (now : ℕ) (id uuid extension : String) (input : UploadInput)
        (st : MediaStore)
        → IsNew id (build_media_asset_key extension input.owner_id uuid input.purpose) sys
        → create_media_asset_upload now id uuid extension input sys.store ≡ some st
        → Step sys (record sys { store = st })
    check :
        (sys : MediaSystem) (id : String) (body : List ℕ) (content_type : String) (s : Save)
        → check_upload settings id body content_type sys.store ≡ some s
        → Step sys (record sys { saves = s ∷ sys.saves })
    write :
        (sys : MediaSystem) (s : Save)
        → Memᴰ s sys.saves
        → Step sys (record sys { store = write_file s sys.store })
    finish :
        (sys : MediaSystem) (now : ℕ) (s : Save)
        → Memᴰ s sys.saves
        → Step sys (record sys { store = finish_save now s sys.store })
    complete :
        (sys : MediaSystem) (rejects : StorageCall → Bool) (now : ℕ) (id owner_id : String)
        → Step sys (record sys {
          store = (complete_media_asset_upload settings rejects now id owner_id sys.store).1;
        })
    replace :
        (sys : MediaSystem) (now : ℕ) (owner_id keep_asset_id : String)
        → Step sys (record sys {
          store = mark_other_linked_avatars_replaced now owner_id keep_asset_id sys.store;
        })
    delete :
        (sys : MediaSystem) (rejects : StorageCall → Bool) (id owner_id : String)
        → Step sys (record sys {
          store = delete_media_asset_object settings rejects id owner_id sys.store;
        })
    clean :
        (sys : MediaSystem) (rejects : StorageCall → Bool) (now : ℕ)
        → Step sys
            (record sys { store = (run_media_lifecycle_cleanup settings rejects now sys.store).1 })

  pub data Reach : MediaSystem → Type 0 where
    start : Reach idle
    next : {sys sys' : MediaSystem} → Reach sys → Step sys sys' → Reach sys'
