-- ===== src/Media/Images/Served.antt =====
-- What the route of apps/server/src/routes/media.ts can serve, in every order of steps.
use saa_sweave.Prelude.{
  String, true, Option, none, some, ◌≡◌, ◌≢◌, inl, inr, refl, subst, ap, arith, or_else,
  Option-cases, eq_iff,
}
use text.Mathlib.Text.{◌==◌ as str_eq}
use mathlib.Core.List.{Memᴰ}
use mathlib.Core.List.Memᴰ
use saa_sweave.Prelude.Table.{lookup}
use saa_sweave.Prelude.Members.{mem_of_first_where}
use saa_sweave.Prelude.Sql.{first_where}
use saa_sweave.Media.Keys.{normalize_media_key, build_media_asset_key}
use saa_sweave.Media.Rows.{
  is_avatar, MediaAsset, StoredObject, can_serve_public_media_asset, get_media_asset_by_key,
}
use saa_sweave.Media.Upload.{MediaSettings, insert_media_asset, create_media_asset_upload}
use saa_sweave.Media.Serve.{Served, get_media, serve_key, serve_row, serve_path, serve_object}
use saa_sweave.Media.Images.{
  MediaSystem, idle, path_of, IsImage, Step, create, check, write, finish, complete, replace,
  delete, clean, Reach, start, next,
}
use saa_sweave.Media.Images.Shrinks.{Shrinks-delete, Shrinks-clean}
use saa_sweave.Media.Images.Links.{Shrinks-complete, Shrinks-replace}
use saa_sweave.Media.Images.Sound.{IsSound, IsSound-shrunk, Shrinks-finish, IsSound-write}
use saa_sweave.Media.Images.Checked.{IsSound-check}
use saa_sweave.Media.Images.Created.{IsSound-create}

module _ (settings : MediaSettings) where
  Step-IsSound :
      {sys sys' : MediaSystem}
      → Step settings sys sys'
      → IsSound settings sys
      → IsSound settings sys'
  unfolding insert_media_asset create_media_asset_upload
  Step-IsSound (create sys now id uuid extension input st new h) sound =
      IsSound-create settings sys now id
        (build_media_asset_key extension input.owner_id uuid input.purpose) input new sound st h
  Step-IsSound (check sys id body content_type s h) sound =
      IsSound-check settings sys id body content_type s h sound
  Step-IsSound (write sys s k) sound = IsSound-write settings sys s k sound
  Step-IsSound (finish sys now s k) sound =
      IsSound-shrunk settings sys _ (Shrinks-finish settings sys now s k sound) sound
  Step-IsSound (complete sys rejects now id owner_id) sound =
      IsSound-shrunk settings sys _ (Shrinks-complete settings rejects now id owner_id sys.store)
        sound
  Step-IsSound (replace sys now owner_id keep_asset_id) sound =
      IsSound-shrunk settings sys _ (Shrinks-replace now owner_id keep_asset_id sys.store) sound
  Step-IsSound (delete sys rejects id owner_id) sound =
      IsSound-shrunk settings sys _ (Shrinks-delete settings rejects id owner_id sys.store) sound
  Step-IsSound (clean sys rejects now) sound =
      IsSound-shrunk settings sys _ (Shrinks-clean settings rejects now sys.store) sound

  idle-IsSound : IsSound settings idle
  idle-IsSound = record {
    stored = λ r m. absurd (Memᴰ.not-nil m);
    saving = λ r m. absurd (Memᴰ.not-nil m);
    typed = λ r m. absurd (Memᴰ.not-nil m);
    apart = λ r q m. absurd (Memᴰ.not-nil m);
    unique = λ r q m. absurd (Memᴰ.not-nil m);
  }

  Reach-IsSound : {sys : MediaSystem} → Reach settings sys → IsSound settings sys
  Reach-IsSound start = idle-IsSound
  Reach-IsSound (next r step) = Step-IsSound step (Reach-IsSound r)

  module _ (sys : MediaSystem) (sound : IsSound settings sys) (served : Served) where
    serve_object-IsImage :
        (row : MediaAsset)
        → Memᴰ row sys.store.media_asset
        → is_avatar row.purpose ≡ true
        → (path : String) → path_of settings row.key ≡ some path
        → (object : Option StoredObject) → lookup path sys.store.objects ≡ object
        → serve_object row object ≡ some served
        → IsImage settings served.content_type served.body
    serve_object-IsImage row m avatar path e none l h = absurd (ground (arith, h))
    serve_object-IsImage row m avatar path e (some o) l h =
        let answer : Served = record { content_type = row.content_type; body = o.bytes } in
        subst (λ x. IsImage settings x.content_type x.body) (ap (λ x. or_else x answer) h)
          (sound.stored row m path o e l avatar)

    serve_path-IsImage :
        (row : MediaAsset)
        → Memᴰ row sys.store.media_asset
        → is_avatar row.purpose ≡ true
        → (path : Option String) → path_of settings row.key ≡ path
        → serve_path row path sys.store ≡ some served
        → IsImage settings served.content_type served.body
    serve_path-IsImage row m avatar none e h = absurd (ground (arith, h))
    serve_path-IsImage row m avatar (some path) e h =
        serve_object-IsImage row m avatar path e (lookup path sys.store.objects) refl h

    serve_row-IsImage :
        (key : String) (row : MediaAsset)
        → Memᴰ row sys.store.media_asset
        → row.key ≡ key
        → serve_row settings key (some row) sys.store ≡ some served
        → IsImage settings served.content_type served.body
    unfolding serve_row can_serve_public_media_asset
    serve_row-IsImage key row m named h =
        serve_path-IsImage row m (ground (arith, h)) (path_of settings key)
          (ap (path_of settings) named) (ground (arith, h))

    no_row : (key : String) → serve_row settings key none sys.store ≢ some served
    unfolding serve_row
    no_row key h = ground (arith, h)

    serve_key-IsImage :
        (key : Option String)
        → serve_key settings key sys.store ≡ some served
        → IsImage settings served.content_type served.body
    unfolding serve_key get_media_asset_by_key
    serve_key-IsImage none h = absurd (ground (arith, h))
    serve_key-IsImage (some key) h =
        let p = λ (r : MediaAsset). str_eq r.key key in
        elim (Option-cases (first_where p sys.store.media_asset)) [
          | inl missing ↦ absurd (no_row key (rw missing at h))
          | inr (row, found) ↦
              let (m, q) = mem_of_first_where p sys.store.media_asset found in
              serve_row-IsImage key row m ((eq_iff row.key key).0 q) (rw found at h)
        ]

  -- However uploads on the local disk interleave, each cut into the creation of its row, its
  -- check, its file and its last update, with links, replacements, deletions and cleanups, and
  -- with the checks of a save repeated at will, whatever the public media route serves, for
  -- whatever raw key, is at most 2 MB long and has the magic bytes of the content type that it is
  -- served with, provided that a new row's id is in no save and that nothing has the path of its
  -- key.
  pub get_media-IsImage :
      {sys : MediaSystem}
      → Reach settings sys
      → (raw_key : String) (served : Served) → get_media settings raw_key sys.store ≡ some served
      → IsImage settings served.content_type served.body
  unfolding get_media
  get_media-IsImage {sys} r raw_key served h =
      serve_key-IsImage sys (Reach-IsSound r) served (normalize_media_key raw_key)
        (ground (arith, h))
