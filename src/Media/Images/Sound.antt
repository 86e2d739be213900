-- ===== src/Media/Images/Sound.antt =====
-- What holds of the rows, files and checked saves after every step.
use saa_sweave.Prelude.{
  ℕ, String, true, none, some, List, ◌≡◌, inl, inr, refl, sym, ap, ◌∙◌, arith, or_else, Bool-cases,
  eq_iff,
}
use text.Mathlib.Text.{◌==◌ as str_eq}
use mathlib.Core.List.{Memᴰ}
use saa_sweave.Prelude.Table.{lookup, insert, lookup-insert_self, lookup-insert_ne}
use saa_sweave.Media.Rows.{is_avatar, MediaAsset, StoredObject, MediaStore}
use saa_sweave.Media.Upload.{MediaSettings, Save, has_id, write_file, finish_save}
use saa_sweave.Media.Images.{MediaSystem, path_of, IsImage}
use saa_sweave.Media.Images.Shrinks.{Shrinks, Shrinks-update}

module _ (settings : MediaSettings) where
  abbrev pub FitsRow : MediaAsset → List ℕ → Type 0
  FitsRow r bytes = is_avatar r.purpose ≡ true → IsImage settings r.content_type bytes

  pub record IsSound (sys : MediaSystem) : Type 0 where
    pub stored :
        (r : MediaAsset)
        → Memᴰ r sys.store.media_asset
        → (path : String) (o : StoredObject) → path_of settings r.key ≡ some path
        → lookup path sys.store.objects ≡ some o
        → FitsRow r o.bytes
    pub saving :
        (r : MediaAsset)
        → Memᴰ r sys.store.media_asset
        → (s : Save) → Memᴰ s sys.saves
        → path_of settings r.key ≡ some s.path
        → FitsRow r s.bytes
    pub typed :
        (r : MediaAsset)
        → Memᴰ r sys.store.media_asset
        → (s : Save) → Memᴰ s sys.saves
        → r.id ≡ s.asset_id
        → r.content_type ≡ s.content_type
    pub apart :
        (r q : MediaAsset)
        → Memᴰ r sys.store.media_asset
        → Memᴰ q sys.store.media_asset
        → (path : String) → path_of settings r.key ≡ some path
        → path_of settings q.key ≡ some path
        → (r.content_type ≡ q.content_type) × (r.purpose ≡ q.purpose)
    pub unique :
        (r q : MediaAsset)
        → Memᴰ r sys.store.media_asset
        → Memᴰ q sys.store.media_asset
        → r.id ≡ q.id
        → r.content_type ≡ q.content_type

  pub IsSound-shrunk :
      (sys : MediaSystem) (st : MediaStore)
      → Shrinks sys.store st
      → IsSound sys
      → IsSound (record sys { store = st })
  IsSound-shrunk sys st less sound = record {
    stored = λ r m path o e l avatar.
        let (q, n, f) = less.old_row r m in
        rw f.same_type (
          sound.stored q n path o (rw (← f.same_key) e) (less.old_object path o l)
            (rw (← f.same_purpose) avatar));
    saving = λ r m s k e avatar.
        let (q, n, f) = less.old_row r m in
        rw f.same_type (sound.saving q n s k (rw (← f.same_key) e) (rw (← f.same_purpose) avatar));
    typed = λ r m s k e.
        let (q, n, f) = less.old_row r m in f.same_type ∙ sound.typed q n s k (sym f.same_id ∙ e);
    apart = λ r r' m m' path e e'.
        let (q, n, f) = less.old_row r m in
        let (q', n', f') = less.old_row r' m' in
        let (t, p) = sound.apart q q' n n' path (rw (← f.same_key) e) (rw (← f'.same_key) e') in
        (f.same_type ∙ t ∙ sym f'.same_type, f.same_purpose ∙ p ∙ sym f'.same_purpose);
    unique = λ r r' m m' e.
        let (q, n, f) = less.old_row r m in
        let (q', n', f') = less.old_row r' m' in
        f.same_type ∙ sound.unique q q' n n' (sym f.same_id ∙ e ∙ f'.same_id) ∙ sym f'.same_type;
  }

  pub Shrinks-finish :
      (sys : MediaSystem) (now : ℕ) (s : Save)
      → Memᴰ s sys.saves
      → IsSound sys
      → Shrinks sys.store (finish_save now s sys.store)
  unfolding finish_save
  Shrinks-finish sys now s k sound = Shrinks-update (has_id s.asset_id) _ sys.store (λ r m e.
      record {
        same_id = refl;
        same_key = refl;
        same_type = sym (sound.typed r m s k ((eq_iff r.id s.asset_id).0 e));
        same_purpose = refl;
      })

  pub IsSound-write :
      (sys : MediaSystem) (s : Save)
      → Memᴰ s sys.saves
      → IsSound sys
      → IsSound (record sys { store = write_file s sys.store })
  unfolding write_file
  IsSound-write sys s k sound = record {
    stored = λ r m path o e l. elim (Bool-cases (str_eq s.path path)) [
      | inl same ↦
          let p = (eq_iff s.path path).0 same in
          let object : StoredObject = record { bytes = s.bytes; content_type = none } in
          let found =
            sym (lookup-insert_self s.path object sys.store.objects)
            ∙ ap (λ q. lookup q (insert s.path object sys.store.objects)) p
            ∙ l in
          rw (← ap (λ x. (or_else x object).bytes) found)
            (sound.saving r m s k (e ∙ ap some (sym p)))
      | inr other ↦
          let object : StoredObject = record { bytes = s.bytes; content_type = none } in
          sound.stored r m path o e (
            sym (
              lookup-insert_ne s.path path object sys.store.objects
                (ground (arith, eq_iff s.path path)))
            ∙ l)
    ];
    saving = sound.saving;
    typed = sound.typed;
    apart = sound.apart;
    unique = sound.unique;
  }
