-- ===== src/Webhooks.antt =====
-- Webhooks: packages/db/src/webhooks.ts (`Endpoints`, `Deliver`) and
-- packages/jobs/src/webhook-dispatch.ts (`Dispatch`), over Outbound.
pub mod Endpoints
pub mod Deliver
pub mod Dispatch
pub mod Recorded
pub mod Fanout
pub mod Disabled
pub mod Tests
