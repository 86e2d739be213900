-- ===== src/ApiKeys.antt =====
-- API keys: packages/core/src/api-keys/scopes.ts, packages/api/src/lib/api-keys.ts and
-- api-key-scopes.ts (`Scopes`, `Keys`), over the cache. The proofs are in the modules after `Verify`.
pub mod Scopes
pub mod Keys
pub mod Verify
pub mod Granted
pub mod Checks
pub mod Answers
pub mod Revoked
pub mod Tests
