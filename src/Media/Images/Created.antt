-- ===== src/Media/Images/Created.antt =====
-- A new row of `createMediaAssetUpload`.
use saa_sweave.Prelude.{
  ℕ, String, false, ◌||◌, some, List, [], ◌∷◌, ◌++◌, ◌≡◌, ◌≢◌, ◌⊎◌, inl, inr, sym, subst, ap, ◌∙◌,
  arith, or_else, any, Bool-cases, eq_iff,
}
use text.Mathlib.Text.{◌==◌ as str_eq}
use mathlib.Core.List.{Memᴰ}
use mathlib.Core.List.Memᴰ
use saa_sweave.Prelude.Sql.{any_of_mem}
use saa_sweave.Media.Rows.{MediaAsset, MediaStore}
use saa_sweave.Media.Upload.{MediaSettings, UploadInput, new_row, insert_media_asset}
use saa_sweave.Media.Images.{MediaSystem, path_of, IsNew}
use saa_sweave.Media.Images.Sound.{IsSound}

module _ (settings : MediaSettings) where
  not_taken :
      (id key : String) (rows : List MediaAsset)
      → any (λ r. str_eq r.id id || str_eq r.key key) rows ≡ false
      → (r : MediaAsset) → Memᴰ r rows
      → r.id ≢ id
  not_taken id key rows h r m e =
      let taken =
        any_of_mem (λ q. str_eq q.id id || str_eq q.key key) m (ground (arith, eq_iff r.id id)) in
      ground (arith, taken, h)

  module _ (sys : MediaSystem) (now : ℕ) (id key : String) (input : UploadInput)
      (new : IsNew settings id key sys) (sound : IsSound settings sys) where
    abbrev pub row : MediaAsset
    row = new_row now id key input

    abbrev pub rows : List MediaAsset
    rows = sys.store.media_asset ++ row ∷ []

    old_or_new : (r : MediaAsset) → Memᴰ r rows → Memᴰ r sys.store.media_asset ⊎ (r ≡ row)
    old_or_new r m = elim (Memᴰ.append_cases sys.store.media_asset m) [
      | inl old ↦ inl old
      | inr added ↦ inr (Memᴰ.eq_of_singleton added)
    ]

    IsSound-added :
        ((r : MediaAsset) → Memᴰ r sys.store.media_asset → r.id ≢ id)
        → IsSound settings (record sys { store = record sys.store { media_asset = rows } })
    IsSound-added free = record {
      stored = λ r m path o e l. elim (old_or_new r m) [
        | inl old ↦ sound.stored r old path o e l
        | inr same ↦ absurd (
            ground
              (arith, new.new_object path (ap (λ q. path_of settings q.key) (sym same) ∙ e), l))
      ];
      saving = λ r m s k e. elim (old_or_new r m) [
        | inl old ↦ sound.saving r old s k e
        | inr same ↦
            absurd (new.new_save_path s k (ap (λ q. path_of settings q.key) (sym same) ∙ e))
      ];
      typed = λ r m s k e. elim (old_or_new r m) [
        | inl old ↦ sound.typed r old s k e
        | inr same ↦ absurd (new.new_id s k (ap (λ q. q.id) (sym same) ∙ e))
      ];
      apart = λ r q m n path e f. elim (old_or_new r m) [
        | inl old ↦ elim (old_or_new q n) [
          | inl old' ↦ sound.apart r q old old' path e f
          | inr same ↦
              absurd (new.new_path r old path (ap (λ x. path_of settings x.key) (sym same) ∙ f) e)
        ]
        | inr same ↦ elim (old_or_new q n) [
          | inl old ↦
              absurd (new.new_path q old path (ap (λ x. path_of settings x.key) (sym same) ∙ e) f)
          | inr same' ↦
              (ap (λ x. x.content_type) (same ∙ sym same'), ap (λ x. x.purpose) (same ∙ sym same'))
        ]
      ];
      unique = λ r q m n e. elim (old_or_new r m) [
        | inl old ↦ elim (old_or_new q n) [
          | inl old' ↦ sound.unique r q old old' e
          | inr same ↦ absurd (free r old (e ∙ ap (λ x. x.id) same))
        ]
        | inr same ↦ elim (old_or_new q n) [
          | inl old ↦ absurd (free q old (sym e ∙ ap (λ x. x.id) same))
          | inr same' ↦ ap (λ x. x.content_type) (same ∙ sym same')
        ]
      ];
    }

    pub IsSound-create :
        (st : MediaStore)
        → insert_media_asset now id key input sys.store ≡ some st
        → IsSound settings (record sys { store = st })
    unfolding insert_media_asset
    IsSound-create st h =
        elim (Bool-cases (any (λ r. str_eq r.id id || str_eq r.key key) sys.store.media_asset)) [
          | inl taken ↦ absurd (ground (arith, rw taken at h))
          | inr free ↦
              let added : MediaStore = record sys.store { media_asset = rows } in
              let same : added ≡ st = ap (λ o. or_else o added) (rw free at h) in
              subst (λ x. IsSound settings (record sys { store = x })) same
                (IsSound-added (not_taken id key sys.store.media_asset free))
        ]
