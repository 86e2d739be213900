-- ===== src/Media/Late.antt =====
-- `saveUploadedMediaObject` of packages/app/src/storage/media-asset/index.ts, when its last update comes after
-- `completeMediaAssetUpload`.
use saa_sweave.Prelude.{
  ℕ, String, Bool, true, none, some, List, [], ◌∷◌, ◌≡◌, refl, ap, ◌∙◌, arith, if◌then◌else◌,
  eq_iff,
}
use text.Mathlib.Text.{◌==◌ as str_eq}
use mathlib.Core.Option
use saa_sweave.Media.Keys.{normalize_media_key}
use saa_sweave.Prelude.Sql.{first_where, update_where}
use saa_sweave.Media.Rows.{
  orphan, is_orphan, MediaAsset, MediaStore, can_serve_public_media_asset, get_media_asset_by_key,
}
use saa_sweave.Media.Upload.{MediaSettings, has_id, Save, finish_save}
use saa_sweave.Media.Serve.{get_media, serve_row, serve_key}

-- A row of the updated table by a test that the update does not change.
first_where-update_where :
    {A : Type 0} (p q : A → Bool) (f : A → A)
    → ((x : A) → p (f x) ≡ p x)
    → (xs : List A)
    → first_where p (update_where q f xs)
      ≡ Option.map (λ x. if q x then f x else x) (first_where p xs)
first_where-update_where p q f same [] = refl
first_where-update_where p q f same (x ∷ xs) =
    ground (arith, same x, first_where-update_where p q f same xs)

serve_row-orphan :
    (settings : MediaSettings) (st : MediaStore) (key : String) (row : MediaAsset)
    → is_orphan row.status ≡ true
    → serve_row settings key (some row) st ≡ none
unfolding serve_row can_serve_public_media_asset
serve_row-orphan settings st key row orphaned = ground (arith, orphaned)

module _ (now : ℕ) (save : Save) (st : MediaStore) where
  get_media_asset_by_key-finish_save :
      (key : String) (row : MediaAsset)
      → get_media_asset_by_key key st.media_asset ≡ some row
      → row.id ≡ save.asset_id
      → get_media_asset_by_key key (finish_save now save st).media_asset
        ≡ some (record row {
          content_type = save.content_type;
          status = orphan;
          uploaded_at = some now;
        })
  unfolding get_media_asset_by_key finish_save
  get_media_asset_by_key-finish_save key row found same =
      let p = λ (r : MediaAsset). str_eq r.key key in
      let q = has_id save.asset_id in
      let f = λ (r : MediaAsset). (record r {
        content_type = save.content_type;
        status = orphan;
        uploaded_at = some now;
      }) in
      first_where-update_where p q f (λ x. refl) st.media_asset
      ∙ ap (Option.map (λ x. if q x then f x else x)) found
      ∙ (let e : q row ≡ true = (eq_iff row.id save.asset_id).1 same in rw e refl)

-- When the last update of a save comes after other requests, as after the link of its asset, the
-- public media route no longer serves the asset that has the save's id, whatever its row was: the
-- update sets it back to orphan.
pub late_save_unlinks :
    (settings : MediaSettings) (now : ℕ) (save : Save) (st : MediaStore)
    → (raw_key key : String) → normalize_media_key raw_key ≡ some key
    → (row : MediaAsset) → get_media_asset_by_key key st.media_asset ≡ some row
    → row.id ≡ save.asset_id
    → get_media settings raw_key (finish_save now save st) ≡ none
unfolding get_media serve_key
late_save_unlinks settings now save st raw_key key normal row found same =
    let late = get_media_asset_by_key-finish_save now save st key row found same in
    let changed : MediaAsset = record row {
      content_type = save.content_type;
      status = orphan;
      uploaded_at = some now;
    } in
    let unserved = serve_row-orphan settings (finish_save now save st) key changed refl in
    ground (arith, ap (λ k. serve_key settings k (finish_save now save st)) normal, late, unserved)
