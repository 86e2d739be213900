-- ===== src/Outbound.antt =====
-- Outbound HTTP requests to URLs that tenants choose: the policy of
-- packages/core/src/security/outbound-url-policy.ts (`Address`, `Url`, with the proofs of
-- `Blocks`), the client of packages/db/src/outbound-http/client.ts (`Client` and `Body`, with
-- `Hops` and `Bounded`).
pub mod Address
pub mod Blocks
pub mod SixToFour
pub mod Url
pub mod Body
pub mod Hop
pub mod Client
pub mod Hops
pub mod Redirects
pub mod Bounded
pub mod Tests
