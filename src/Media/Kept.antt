-- ===== src/Media/Kept.antt =====
-- What the cleanup of packages/app/src/storage/media-cleanup.ts leaves alone.
use saa_sweave.Prelude.{
  ℕ, String, Bool, true, false, ◌||◌, none, some, List, [], ◌∷◌, ◌≡◌, ◌≢◌, ◌⊎◌, inl, inr, refl, ap,
  arith, if◌then◌else◌, keep, All, Bool-cases,
}
use saa_sweave.Prelude.Sql.{All_of_mem}
use saa_sweave.Prelude.Members.{mem_of_keep, mem_of_take}
use saa_sweave.Media.Keys.{resolve_safe_media_path}
use saa_sweave.Media.Rows.{is_linked, is_orphan, MediaAsset, StoredObject, MediaStore}
use saa_sweave.Media.Upload.{MediaSettings, StorageCall}
use saa_sweave.Media.Complete.{object_name, delete_media_asset_row}
use saa_sweave.Media.Cleanup.{
  is_older, day_ms, is_expired_pending, is_expired_orphan, is_replaced, chunk_of, expire_pending,
  delete_orphans, delete_replaced, is_path_missing, delete_missing, run_media_lifecycle_cleanup,
}
use saa_sweave.Media.Holds.{
  IsApart, Holds, Holds-delete_row, Holds-expire_pending, Holds-delete_orphans,
  Holds-delete_replaced, chunk-IsApart, is_path_missing-some,
}

module _ (settings : MediaSettings) (r : MediaAsset) (name : String) (o : StoredObject) where
  chunk-alone :
      (p : MediaAsset → Bool) (st : MediaStore)
      → Holds settings r name o st
      → All (λ s. (s ≡ r) ⊎ IsApart settings r name o s) (chunk_of p st)
  chunk-alone p st h =
      All_of_mem (λ s. (s ≡ r) ⊎ IsApart settings r name o s) (chunk_of p st)
        (λ s m.
          h.alone s (mem_of_keep p st.media_asset (mem_of_take 100 (keep p st.media_asset) m)).0)

  -- The path of a missing row has no object, which this row's path has.
  missing-apart :
      resolve_safe_media_path settings.paths r.key ≡ some name
      → (s : MediaAsset) (st : MediaStore) → (s ≡ r) ⊎ IsApart settings r name o s
      → is_path_missing (resolve_safe_media_path settings.paths s.key) st ≡ true
      → Holds settings r name o st
      → s.id ≢ r.id
  missing-apart at s st (inr apart) missing h = apart.0
  missing-apart at s st (inl same) missing h =
      let found = is_path_missing-some settings r name o at st h.object in
      let there =
        ap (λ x. is_path_missing (resolve_safe_media_path settings.paths x.key) st) same in
      absurd (ground (arith, missing, there, found))

  Holds-delete_missing :
      resolve_safe_media_path settings.paths r.key ≡ some name
      → (rs : List MediaAsset) (st : MediaStore)
      → All (λ s. (s ≡ r) ⊎ IsApart settings r name o s) rs
      → Holds settings r name o st
      → Holds settings r name o (delete_missing settings rs st).1
  unfolding delete_missing
  Holds-delete_missing at [] st alone h = h
  Holds-delete_missing at (s ∷ rs) st (a, alone) h =
      elim (Bool-cases (is_path_missing (resolve_safe_media_path settings.paths s.key) st)) [
        | inl e ↦ rw e (
            Holds-delete_missing at rs (delete_media_asset_row s.id st) alone
              (Holds-delete_row settings r name o s.id st (missing-apart at s st a e h) h))
        | inr e ↦ rw e (Holds-delete_missing at rs st alone h)
      ]

  Holds-if :
      (b : Bool) (x y : ℕ × MediaStore)
      → Holds settings r name o x.1
      → (b ≡ false → Holds settings r name o y.1)
      → Holds settings r name o (if b then x else y).1
  Holds-if true x y h k = h
  Holds-if false x y h k = k refl

  local_name :
      object_name settings r.key ≡ some name
      → settings.object_storage ≡ false
      → resolve_safe_media_path settings.paths r.key ≡ some name
  local_name at here = ground (arith, at, here)

  Holds-cleanup :
      (rejects : StorageCall → Bool) (now : ℕ) (st : MediaStore)
      → object_name settings r.key ≡ some name
      → is_expired_pending now r ≡ false
      → is_expired_orphan now r ≡ false
      → is_replaced now r ≡ false
      → Holds settings r name o st
      → Holds settings r name o (run_media_lifecycle_cleanup settings rejects now st).1
  unfolding run_media_lifecycle_cleanup
  Holds-cleanup rejects now st at unexpired linked unreplaced h =
      let expired = chunk_of (is_expired_pending now) st in
      let st1 = expire_pending expired st in
      let h1 =
        Holds-expire_pending settings r name o expired st
          (chunk-IsApart settings r name o (is_expired_pending now) st unexpired h) h in
      let orphans = chunk_of (is_expired_orphan now) st1 in
      let st2 = delete_orphans settings rejects orphans st1 in
      let h2 =
        Holds-delete_orphans settings r name o rejects orphans st1
          (chunk-IsApart settings r name o (is_expired_orphan now) st1 linked h1) h1 in
      let replaced = chunk_of (is_replaced now) st2 in
      let st3 = delete_replaced settings rejects replaced st2 in
      let h3 =
        Holds-delete_replaced settings r name o rejects replaced st2
          (chunk-IsApart settings r name o (is_replaced now) st2 unreplaced h2) h2 in
      let in_use = λ (s : MediaAsset). is_orphan s.status || is_linked s.status in
      let local = chunk_of in_use st3 in
      Holds-if settings.object_storage (0, st3) (delete_missing settings local st3) h3
        (λ here. Holds-delete_missing (local_name at here) local st3 (chunk-alone in_use st3 h3) h3)

  linked_unexpired : (now : ℕ) → is_linked r.status ≡ true → is_expired_pending now r ≡ false
  linked_unexpired now in_use = ground (arith, in_use)

  linked_no_orphan : (now : ℕ) → is_linked r.status ≡ true → is_expired_orphan now r ≡ false
  linked_no_orphan now in_use = ground (arith, in_use)

  -- Whatever the time and whichever calls of the object store are rejected, the media cleanup
  -- keeps the row of a linked asset that has not been replaced, and its object, on the local disk
  -- as in the object store, if the row is there with its object and every other row has another id
  -- and another name of its object.
  pub linked_media_kept :
      (rejects : StorageCall → Bool) (now : ℕ) (st : MediaStore)
      → object_name settings r.key ≡ some name
      → is_linked r.status ≡ true
      → r.replaced_at ≡ none
      → Holds settings r name o st
      → Holds settings r name o (run_media_lifecycle_cleanup settings rejects now st).1
  linked_media_kept rejects now st at in_use unreplaced h =
      let fresh = ap (is_older now day_ms) unreplaced in
      Holds-cleanup rejects now st at (linked_unexpired now in_use) (linked_no_orphan now in_use)
        fresh h
