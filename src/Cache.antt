-- ===== src/Cache.antt =====
-- The cache of packages/cache/src/cache.ts: the keys (`Keys`), the entries in process memory
-- (`Memory`, with the proofs of `Bounds`, `Reads` and `Refine`), the operations over Redis with
-- their fallback (`Redis`, with `Failures` and `Versions`) and `cacheWrap` (`Wrap`, with `Flights`).
pub mod Keys
pub mod Memory
pub mod Tags
pub mod Bounds
pub mod Reads
pub mod Ideal
pub mod Refine
pub mod Client
pub mod Redis
pub mod Failures
pub mod Versions
pub mod Commands
pub mod Others
pub mod Invalidation
pub mod Wrap
pub mod Flights
pub mod Stale
pub mod Unlink
mod Tests
pub mod Server
pub mod ServerTests
