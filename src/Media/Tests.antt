-- ===== src/Media/Tests.antt =====
-- Tests of uploaded media, and the theorems at concrete inputs.
use saa_sweave.Prelude.{
  ℕ, ◌*◌, String, Bool, true, false, none, some, List, [], ◌∷◌, ◌≡◌, inl, inr, refl, sym, subst, ap,
  arith, eq_iff, or_else,
}
use mathlib.Core.List.{Memᴰ}
use mathlib.Core.List.Memᴰ
use saa_sweave.Prelude.Table.{Table, lookup, insert}
use saa_sweave.Prelude.Text.{joined, starts_with}
use saa_sweave.Media.Keys.{
  avatar, personal, normalize_media_key, resolve_safe_media_path, build_media_asset_key,
}
use saa_sweave.Media.Magic.{validate_image_magic_bytes}
use saa_sweave.Media.Rows.{
  pending, linked, orphan, MediaAsset, StoredObject, MediaStore, remove, get_media_asset_by_key,
}
use saa_sweave.Media.Upload.{
  MediaSettings, StorageCall, UploadInput, Save, create_media_asset_upload, insert_media_asset,
  check_upload, write_file, finish_save,
}
use saa_sweave.Media.Complete.{complete_media_asset_upload}
use saa_sweave.Media.Cleanup.{day_ms, run_media_lifecycle_cleanup}
use saa_sweave.Media.Serve.{get_media, put_ok, upload_failed, payload_too_large, put_upload}
use saa_sweave.Media.Images.{
  MediaSystem, idle, IsImage, IsNew, create, check, write, finish, complete, Reach, start, next,
}
use saa_sweave.Media.Images.Served.{get_media-IsImage}
use saa_sweave.Media.Holds.{IsApart, Holds}
use saa_sweave.Media.Kept.{linked_media_kept}
use saa_sweave.Media.Late.{late_save_unlinks}
use saa_sweave.Media.Normal.{normalize_media_key_again}

abbrev resolve : String → String → String
resolve base String.[] = base
resolve base (String.◌∷◌ c s) = joined base (joined "/" (String.◌∷◌ c s))

abbrev settings : MediaSettings
settings = record {
  object_storage = false;
  paths = record { upload_dir = "/m"; resolve = resolve };
  to_lower_case = λ s. s;
}

abbrev never : StorageCall → Bool
never call = false

plain_key : normalize_media_key "//a\\b " ≡ some "a/b"
unfolding normalize_media_key
plain_key = refl

up_key : normalize_media_key "a/../b" ≡ none
unfolding normalize_media_key
up_key = refl

built_key : build_media_asset_key "png" "u" "x" personal ≡ "private/u/x.png"
unfolding build_media_asset_key
built_key = refl

normalize_media_key_again_example : normalize_media_key "a/b" ≡ some "a/b"
unfolding normalize_media_key
normalize_media_key_again_example = normalize_media_key_again "//a\\b " "a/b" refl

abbrev key : String
key = "avatar/u/x.jpg"

abbrev jpeg : List ℕ
jpeg = 0xff ∷ 0xd8 ∷ 0xff ∷ 1 ∷ []

abbrev input : UploadInput
input = record { content_type = "image/jpeg"; owner_id = "u"; purpose = avatar; size = 10 }

abbrev row_of : MediaAsset
row_of = record {
  content_type = "image/jpeg";
  created_at = 0;
  id = "a";
  key = key;
  linked_at = none;
  owner_id = "u";
  purpose = avatar;
  replaced_at = none;
  size = 10;
  status = pending;
  uploaded_at = none;
}

abbrev save : Save
save = record {
  asset_id = "a";
  path = "/m/avatar/u/x.jpg";
  content_type = "image/jpeg";
  bytes = jpeg;
}

abbrev stored : Table StoredObject
stored =
    record { key = "/m/avatar/u/x.jpg"; value = record { bytes = jpeg; content_type = none } } ∷ []

abbrev created_store : MediaStore
created_store = record { media_asset = row_of ∷ []; objects = [] }

abbrev linked_row : MediaAsset
linked_row = record row_of { linked_at = some 2; status = linked; uploaded_at = some 1 }

abbrev linked_store : MediaStore
linked_store = record { media_asset = linked_row ∷ []; objects = stored }

-- The system after an upload whose file is written a second time.
abbrev linked_system : MediaSystem
linked_system = record { store = linked_store; saves = save ∷ [] }

key-IsNew : IsNew settings "a" key idle
unfolding lookup
key-IsNew = record {
  new_id = λ s m. absurd (Memᴰ.not-nil m);
  new_save_path = λ s m. absurd (Memᴰ.not-nil m);
  new_object = λ path e. refl;
  new_path = λ r m. absurd (Memᴰ.not-nil m);
}

upload : Reach settings linked_system
unfolding create_media_asset_upload insert_media_asset build_media_asset_key check_upload write_file
    finish_save complete_media_asset_upload insert validate_image_magic_bytes
    resolve_safe_media_path joined starts_with
upload =
    let sys1 : MediaSystem = record { store = created_store; saves = [] } in
    let sys2 : MediaSystem = record { store = created_store; saves = save ∷ [] } in
    let sys3 : MediaSystem = record sys2 { store = write_file save created_store } in
    let sys4 : MediaSystem = record sys3 { store = finish_save 1 save sys3.store } in
    next
      (next
        (next
          (next (next start (create idle 0 "a" "x" "jpg" input created_store key-IsNew refl))
            (check sys1 "a" jpeg "image/jpeg" save refl))
          (write sys2 save (Memᴰ.head refl)))
        (finish sys3 1 save (Memᴰ.head refl)))
      (complete sys4 never 2 "a" "u")

get_media-IsImage_example : IsImage settings "image/jpeg" jpeg
unfolding get_media lookup normalize_media_key resolve_safe_media_path joined starts_with
get_media-IsImage_example =
    get_media-IsImage settings upload key (record { content_type = "image/jpeg"; body = jpeg }) refl

-- The route reads the body and saves it.
put_test :
    (put_upload settings 1 true true "a" "image/jpeg" none
      (some (record { chunks = jpeg ∷ []; fails = false }))
      created_store).0
    ≡ put_ok
unfolding put_upload validate_image_magic_bytes resolve_safe_media_path joined starts_with
put_test = refl

put_gif_test :
    (put_upload settings 1 true true "a" "image/jpeg" none
      (some (record { chunks = (1 ∷ 2 ∷ 3 ∷ []) ∷ []; fails = false }))
      created_store).0
    ≡ upload_failed
unfolding put_upload validate_image_magic_bytes
put_gif_test = refl

put_large_test :
    (put_upload settings 1 true true "a" "image/jpeg" (some 11) none created_store).0
    ≡ payload_too_large
unfolding put_upload
put_large_test = refl

-- A second save of the same upload that ends after the link.
late_save_unlinks_example : get_media settings key (finish_save 3 save linked_store) ≡ none
unfolding normalize_media_key get_media_asset_by_key
late_save_unlinks_example =
    late_save_unlinks settings 3 save linked_store key key refl linked_row refl refl

-- An orphan of another owner, which the cleanup deletes with its file.
abbrev old_row : MediaAsset
old_row = record row_of { id = "b"; key = "avatar/v/y.jpg"; status = orphan; uploaded_at = some 1 }

abbrev two_rows : MediaStore
two_rows = record {
  media_asset = old_row ∷ linked_row ∷ [];
  objects =
      record { key = "/m/avatar/v/y.jpg"; value = record { bytes = jpeg; content_type = none } }
      ∷ stored;
}

cleaned : (run_media_lifecycle_cleanup settings never (8 * day_ms) two_rows).1 ≡ linked_store
unfolding run_media_lifecycle_cleanup resolve_safe_media_path joined starts_with lookup remove
cleaned = refl

abbrev jpeg_object : StoredObject
jpeg_object = record { bytes = jpeg; content_type = none }

old_row-IsApart : IsApart settings linked_row "/m/avatar/u/x.jpg" jpeg_object old_row
unfolding resolve_safe_media_path joined starts_with
old_row-IsApart = (
  λ e. ground (arith, (eq_iff "b" "a").1 e),
  λ e. ground (
    arith,
    (eq_iff "/m/avatar/v/y.jpg" "/m/avatar/u/x.jpg").1 (ap (λ p. or_else p "/m/avatar/v/y.jpg") e),
  ),
)

two_rows-Holds : Holds settings linked_row "/m/avatar/u/x.jpg" jpeg_object two_rows
unfolding lookup
two_rows-Holds = record {
  row = Memᴰ.tail (Memᴰ.head refl);
  object = refl;
  alone = λ s m. elim (Memᴰ.cases_cons m) [
    | inl same ↦ inr (
        subst (IsApart settings linked_row "/m/avatar/u/x.jpg" jpeg_object) (sym same)
          old_row-IsApart)
    | inr m' ↦ elim (Memᴰ.cases_cons m') [
      | inl same ↦ inl same
      | inr m'' ↦ absurd (Memᴰ.not-nil m'')
    ]
  ];
}

linked_media_kept_example :
    Holds settings linked_row "/m/avatar/u/x.jpg" jpeg_object
      (run_media_lifecycle_cleanup settings never (8 * day_ms) two_rows).1
unfolding resolve_safe_media_path joined starts_with
linked_media_kept_example =
    linked_media_kept settings linked_row "/m/avatar/u/x.jpg" jpeg_object never (8 * day_ms)
      two_rows refl refl refl two_rows-Holds
