-- ===== src/Media/Cleanup.antt =====
-- `runMediaLifecycleCleanup` of packages/app/src/storage/media-cleanup.ts with the lists of
-- packages/db/src/media-lifecycle.ts. The row of the audit log is left out, and
-- the clock stands still during a run.
use saa_sweave.Prelude.{
  ℕ, ◌+◌, ◌*◌, String, Bool, false, not, ◌&&◌, ◌||◌, Option, none, some, List, [], ◌∷◌, ltb,
  if◌then◌else◌, keep, take, length, is_some,
}
use saa_sweave.Prelude.Table.{lookup}
use saa_sweave.Media.Keys.{resolve_safe_media_path}
use saa_sweave.Media.Rows.{is_pending, is_linked, is_orphan, MediaAsset, MediaStore}
use saa_sweave.Media.Upload.{MediaSettings, StorageCall}
use saa_sweave.Media.Complete.{
  object_name, delete_named, delete_media_asset_row, delete_media_asset_object,
}

abbrev pub media_cleanup_chunk_size : ℕ
media_cleanup_chunk_size = 100

-- 24 hours, for pending uploads and replaced avatars, and 7 days for orphans
abbrev pub day_ms : ℕ
day_ms = 24 * 60 * 60 * 1000

-- `lt(time, cutoff)`, which is false for null
abbrev pub is_older : (now retention_ms : ℕ) → Option ℕ → Bool
is_older now retention_ms none = false
is_older now retention_ms (some at) = ltb (at + retention_ms) now

abbrev pub is_expired_pending : ℕ → MediaAsset → Bool
is_expired_pending now r = is_pending r.status && is_older now day_ms (some r.created_at)

abbrev pub is_expired_orphan : ℕ → MediaAsset → Bool
is_expired_orphan now r = is_orphan r.status && is_older now (7 * day_ms) r.uploaded_at

abbrev pub is_replaced : ℕ → MediaAsset → Bool
is_replaced now r = is_older now day_ms r.replaced_at

-- The rows of a list, of which the loops read ids, keys and owners.
abbrev pub chunk_of : (MediaAsset → Bool) → MediaStore → List MediaAsset
chunk_of p st = take media_cleanup_chunk_size (keep p st.media_asset)

unfoldable pub expire_pending : List MediaAsset → MediaStore → MediaStore
unfolding delete_media_asset_row
expire_pending [] st = st
expire_pending (r ∷ rs) st = expire_pending rs (delete_media_asset_row r.id st)

module _ (settings : MediaSettings) (rejects : StorageCall → Bool) where
  unfoldable pub delete_orphans : List MediaAsset → MediaStore → MediaStore
  unfolding delete_media_asset_row
  delete_orphans [] st = st
  delete_orphans (r ∷ rs) st =
      delete_orphans rs
        (delete_media_asset_row r.id (delete_named rejects (object_name settings r.key) st))

  unfoldable pub delete_replaced : List MediaAsset → MediaStore → MediaStore
  unfolding delete_media_asset_object
  delete_replaced [] st = st
  delete_replaced (r ∷ rs) st =
      delete_replaced rs (delete_media_asset_object settings rejects r.id r.owner_id st)

-- Whether `cleanupLocalRowsMissingObjects` finds the path of a row without a file.
abbrev pub is_path_missing : Option String → MediaStore → Bool
is_path_missing none st = false
is_path_missing (some path) st = not (is_some (lookup path st.objects))

unfoldable pub delete_missing : MediaSettings → List MediaAsset → MediaStore → ℕ × MediaStore
unfolding delete_media_asset_row
delete_missing settings [] st = (0, st)
delete_missing settings (r ∷ rs) st =
    let missing = is_path_missing (resolve_safe_media_path settings.paths r.key) st in
    let (n, st') =
      delete_missing settings rs (if missing then delete_media_asset_row r.id st else st) in
    (if missing then n + 1 else n, st')

pub record MediaLifecycleCleanupResult : Type 0 where
  pub expired_pending_uploads : ℕ
  pub orphaned_uploads : ℕ
  pub replaced_avatars : ℕ
  pub missing_object_rows : ℕ

unfoldable pub run_media_lifecycle_cleanup :
    MediaSettings
    → (rejects : StorageCall → Bool) → (now : ℕ) → MediaStore
    → MediaLifecycleCleanupResult × MediaStore
unfolding expire_pending delete_orphans delete_replaced delete_missing
run_media_lifecycle_cleanup settings rejects now st =
    let expired = chunk_of (is_expired_pending now) st in
    let st1 = expire_pending expired st in
    let orphans = chunk_of (is_expired_orphan now) st1 in
    let st2 = delete_orphans settings rejects orphans st1 in
    let replaced = chunk_of (is_replaced now) st2 in
    let st3 = delete_replaced settings rejects replaced st2 in
    let local = chunk_of (λ r. is_orphan r.status || is_linked r.status) st3 in
    let (missing, st4) =
      if settings.object_storage then (0, st3) else delete_missing settings local st3 in
    (
      record {
        expired_pending_uploads = length expired;
        orphaned_uploads = length orphans;
        replaced_avatars = length replaced;
        missing_object_rows = missing;
      },
      st4,
    )
