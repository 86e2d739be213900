-- ===== src/Media/Images/Checked.antt =====
-- A save that passed the checks of `saveUploadedMediaObject`.
use saa_sweave.Prelude.{
  ℕ, String, false, not, ◌&&◌, Option, none, some, List, ◌∷◌, ◌≡◌, ◌≢◌, inl, inr, refl, sym, subst,
  ap, ◌∙◌, arith, or_else, ltb, length, Option-cases, eq_iff,
}
use mathlib.Core.List.{Memᴰ}
use mathlib.Core.List.Memᴰ
use saa_sweave.Prelude.Members.{mem_of_first_where}
use saa_sweave.Prelude.Sql.{first_where}
use saa_sweave.Media.Magic.{validate_image_magic_bytes}
use saa_sweave.Media.Rows.{is_avatar, MediaAsset, MediaStore, resolve_media_upload_max_bytes}
use saa_sweave.Media.Upload.{
  MediaSettings, Save, has_id, check_upload, check_row, save_at, get_pending_media_upload_row,
}
use saa_sweave.Media.Images.{MediaSystem, path_of}
use saa_sweave.Media.Images.Sound.{FitsRow, IsSound}

module _ (settings : MediaSettings) where
  -- What a save that passed its checks owes to its row.
  record IsChecked (s : Save) (row : MediaAsset) : Type 0 where
    same_path : path_of settings row.key ≡ some s.path
    same_type : s.content_type ≡ row.content_type
    fits : FitsRow settings row s.bytes

  check_row-save_at :
      (id : String) (body : List ℕ) (content_type : String) (row : MediaAsset) (s : Save)
      → check_row settings id body content_type (some row) ≡ some s
      → (ltb (resolve_media_upload_max_bytes row) (length body) ≡ false)
        × (is_avatar row.purpose
              && not (validate_image_magic_bytes settings.to_lower_case row.content_type body)
            ≡ false)
        × (save_at id row body (path_of settings row.key) ≡ some s)
  unfolding check_row
  check_row-save_at id body content_type row s h = ground (arith, h)

  saved_IsChecked :
      (id : String) (body : List ℕ) (row : MediaAsset)
      → ltb (resolve_media_upload_max_bytes row) (length body) ≡ false
      → is_avatar row.purpose
          && not (validate_image_magic_bytes settings.to_lower_case row.content_type body)
        ≡ false
      → (path : Option String) → path_of settings row.key ≡ path
      → (s : Save) → save_at id row body path ≡ some s
      → (s.asset_id ≡ id) × IsChecked s row
  unfolding resolve_media_upload_max_bytes
  saved_IsChecked id body row small image none e s h = absurd (ground (arith, h))
  saved_IsChecked id body row small image (some path) e s h =
      let save : Save = record {
        asset_id = id;
        path = path;
        content_type = row.content_type;
        bytes = body;
      } in
      let same : save ≡ s = ap (λ o. or_else o save) h in
      subst (λ x. (x.asset_id ≡ id) × IsChecked x row) same
        (
          refl,
          record {
            same_path = e;
            same_type = refl;
            fits = λ avatar. ground (arith, small, image, avatar);
          },
        )

  check_row-IsChecked :
      (id : String) (body : List ℕ) (content_type : String) (row : MediaAsset) (s : Save)
      → check_row settings id body content_type (some row) ≡ some s
      → (s.asset_id ≡ id) × IsChecked s row
  check_row-IsChecked id body content_type row s h =
      let (small, image, saved) = check_row-save_at id body content_type row s h in
      saved_IsChecked id body row small image (path_of settings row.key) refl s saved

  pending_row :
      (id : String) (rows : List MediaAsset) (row : MediaAsset)
      → get_pending_media_upload_row id rows ≡ some row
      → Memᴰ row rows × (row.id ≡ id)
  unfolding get_pending_media_upload_row
  pending_row id rows row h = elim (Option-cases (first_where (has_id id) rows)) [
    | inl missing ↦ absurd (ground (arith, rw missing at h))
    | inr (found, e) ↦
        let same : found ≡ row = ground (arith, rw e at h) in
        let (m, q) = mem_of_first_where (has_id id) rows e in
        rw (← same) (m, (eq_iff found.id id).0 q)
  ]

  none_is_no_save :
      (id : String) (body : List ℕ) (content_type : String) (s : Save)
      → check_row settings id body content_type none ≢ some s
  unfolding check_row
  none_is_no_save id body content_type s h = ground (arith, h)

  check_upload-IsChecked :
      (id : String) (body : List ℕ) (content_type : String) (st : MediaStore) (s : Save)
      → check_upload settings id body content_type st ≡ some s
      → (row : MediaAsset) × Memᴰ row st.media_asset × (row.id ≡ s.asset_id) × IsChecked s row
  unfolding check_upload
  check_upload-IsChecked id body content_type st s h =
      let pending = get_pending_media_upload_row id st.media_asset in
      let passed : check_row settings id body content_type pending ≡ some s = ground (arith, h) in
      elim (Option-cases pending) [
        | inl missing ↦ absurd (none_is_no_save id body content_type s (rw missing at passed))
        | inr (row, e) ↦
            let (m, named) = pending_row id st.media_asset row e in
            let (saved, checked) =
              check_row-IsChecked id body content_type row s (rw e at passed) in
            (row, m, named ∙ sym saved, checked)
      ]

  pub IsSound-check :
      (sys : MediaSystem) (id : String) (body : List ℕ) (content_type : String) (s : Save)
      → check_upload settings id body content_type sys.store ≡ some s
      → IsSound settings sys
      → IsSound settings (record sys { saves = s ∷ sys.saves })
  IsSound-check sys id body content_type s h sound =
      let (row, n, named, checked) = check_upload-IsChecked id body content_type sys.store s h in
      record {
        stored = sound.stored;
        saving = λ r m s' k e avatar. elim (Memᴰ.cases_cons k) [
          | inl same ↦
              let (t, p) =
                sound.apart r row m n s.path (e ∙ ap (λ x. some x.path) same) checked.same_path in
              rw (same, t) (checked.fits (rw (← p) avatar))
          | inr k' ↦ sound.saving r m s' k' e avatar
        ];
        typed = λ r m s' k e. elim (Memᴰ.cases_cons k) [
          | inl same ↦
              sound.unique r row m n (e ∙ ap (λ x. x.asset_id) same ∙ sym named)
              ∙ sym checked.same_type
              ∙ sym (ap (λ x. x.content_type) same)
          | inr k' ↦ sound.typed r m s' k' e
        ];
        apart = sound.apart;
        unique = sound.unique;
      }
