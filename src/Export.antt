-- ===== src/Export.antt =====
-- Exports of a workspace's data: packages/db/src/data-export-request.ts (`Requests`) and
-- packages/app/src/data-export: strip-secrets.ts (`Secrets`), stream-export.ts (`Stream`, with the
-- proofs of `Pages` and `Paging`) and process.ts (`Process`, with the
-- proofs of `Lifecycle`).
pub mod Requests
pub mod Secrets
pub mod Stream
pub mod Paging
pub mod Pages
pub mod Process
pub mod Lifecycle
mod Tests
