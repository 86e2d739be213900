-- ===== src/Media.antt =====
-- Uploaded media: packages/core/src/media-asset (`Keys`), the magic bytes of
-- packages/core/src/security/image-magic-bytes.ts (`Magic`), packages/app/src/storage/media-asset
-- (`Upload`, `Complete`), packages/app/src/storage/media-cleanup.ts with packages/db/src/media-lifecycle.ts
-- (`Cleanup`), and the route of apps/server/src/routes/media.ts (`Serve`). `Images`, `Holds`, `Kept`, `Late` and `Normal` hold
-- the proofs.
pub mod Keys
pub mod Magic
pub mod Rows
pub mod Upload
pub mod Complete
pub mod Cleanup
pub mod Serve
pub mod Images
pub mod Holds
pub mod Kept
pub mod Late
pub mod Normal
pub mod Tests
