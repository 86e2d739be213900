-- ===== src/Lib.antt =====
-- SaaSWeave: a multi-tenant SaaS starter in TypeScript. This library models the parts of its server
-- packages that carry state and rules, and proves what makes them correct.
--
-- Parts and files:
-- - Prelude: shared names, lists, tables of rows with the SQL statements the program writes
--   (`Sql`, `Members`), JavaScript's `Map` (`Table`), texts, signed numbers, JSON values, and masks
--   (`Bits`).
-- - RateLimit: packages/cache/src/rate-limit.ts and security-policy.ts. `check_memory` is
--   checkMemory, `check_rate_limit` is checkRateLimit over an answer of Redis, `Script` the Lua
--   script over a record of the Redis commands that it calls. State: the buckets and the hit metric.
-- - BatchJob: packages/db/src/batch-job.ts, one function for each query on the two tables, whose
--   rows are in `Tables`. `Process` is packages/app/src/batch-jobs/process.ts and handlers.ts, one
--   function for each nested loop. `Item`, `Counts`, `Claimable`, `Claims`, `Rounds` and
--   `Completion` are about a run, `Creation` about a new job; `Lease` and `Race` put other workers
--   and a cancel beside a run.
-- - Retention: packages/db/src/retention-purge.ts and packages/core/src/retention. `Tables` holds the
--   rows, options and conditions, `Purge` the selection and deletion that every purge repeats, the
--   parent one purge for each table and the pass. `Hold`, `Deletions`, `Exports` and `Pass` hold the
--   proofs.
-- - Stripe: packages/app/src/stripe/webhook-apply.ts and webhook-process.ts with the guard of
--   packages/db/src/stripe-webhook-ordering.ts and stripe-webhook.ts. `Events` holds the rows and
--   events, `apply_ordered` is applyOrderedStripeWebhookEvent; `Order` and `Loss` hold the proofs.
-- - Ip: packages/core/src/security/ip-allowlist.ts, packages/db/src/organization-ip-rules.ts and
--   packages/api/src/lib/ip-allowlist.ts. `Cidr` is about matching, `Rules` about the table of rules.
-- - Export: packages/db/src/data-export-request.ts and packages/app/src/data-export. `Requests` holds
--   the queries, `Secrets` stripSecretFields, `Stream` the records and the paging loop, which the
--   source writes out for each table, `Process` processDataExportRequest. `Pages` and `Paging` are
--   about paging, with and without whole milliseconds, `Lifecycle` about a run.
-- - Features: packages/api/src/lib/feature-rollout.ts and features.ts; `Rollout` and `Overrides`.
-- - Cache: packages/cache/src/cache.ts and connectRedis of redis.ts. `Keys` makes the keys,
--   `Memory` is the entries in process memory (memoryCache and memoryTagVersions), with `Bounds`,
--   `Reads` and `Refine`, which sets them against an ideal cache (`Ideal`). `Client` is the Redis
--   client, `Redis` cacheGet, cacheSet, cacheDelete and cacheInvalidateTag with their fallback,
--   `Unlink` cacheUnlinkKeys. `Failures` is about the failure modes; `Versions`, `Commands`,
--   `Others` and `Invalidation` about a Redis that serves every command. `Wrap` is cacheWrap cut at
--   its awaits, `Flights` its interleavings, `Stale` a load that an invalidation overtakes.
-- - Outbound: packages/core/src/security/outbound-url-policy.ts and packages/db/src/outbound-http.
--   `Address` is isBlockedOutboundAddress, `Url` parseOutboundUrl, `Hop` executeHop, `Body`
--   readBoundedBody and `Client` hardenedOutboundRequest. `Blocks` and `SixToFour` are about addresses,
--   `Hops` and `Redirects` about the loop of redirects, `Bounded` about the body.
-- - ApiKeys: packages/core/src/api-keys/scopes.ts (`Scopes`, with
--   packages/api/src/lib/api-key-scopes.ts) and packages/api/src/lib/api-keys.ts: `Keys` lists and
--   creates, `Verify` revokes and checks, over the operations of Cache. `Granted` is about what a
--   new key may do, `Answers` and `Checks` about what a check answers and leaves alone, `Revoked`
--   about a revoked key.
-- - Webhooks: packages/db/src/webhooks.ts, packages/core/src/webhooks/types.ts and
--   packages/jobs/src/webhook-dispatch.ts. `Endpoints` holds the tables and their queries, `Deliver` a
--   delivery over Outbound, `Dispatch` the fan-out and the attempts at queued jobs. `Recorded` is about
--   the rows that a delivery leaves, `Fanout` about who is reached, `Disabled` about endpoints that are
--   disabled or deleted while jobs wait.
-- - Access: packages/auth/src/permissions.ts, impersonation-policy.ts and platform-policy.ts, and
--   packages/api/src/lib/console-access.ts; `Impersonation` and `Seats` hold the proofs.
-- - Media: uploaded files. `Keys` is packages/core/src/media-asset/utils.ts, `Magic`
--   packages/core/src/security/image-magic-bytes.ts, `Rows` the table media_asset and the stored
--   objects. `Upload` and `Complete` are packages/app/src/storage/media-asset/index.ts, in which
--   saveUploadedMediaObject is also cut into its check (`check_upload`), its file (`write_file`) and
--   its last update (`finish_save`). `Cleanup` is packages/app/src/storage/media-cleanup.ts with
--   packages/db/src/media-lifecycle.ts, `Serve` apps/server/src/routes/media.ts over RequestBody.
--   `Images` puts the steps of uploads in any order, `Holds` and `Kept` are about the cleanup, `Late`
--   is about a save that ends late, `Normal` about keys.
-- - RequestBody: packages/core/src/security/bounded-request-body.ts; `Whole` sets the loop over chunks
--   against the bytes as a whole.
--
-- The worker and the retention pass share the tables of batch jobs and of exports: Retention uses the
-- rows of BatchJob, Export the statuses of Retention.
--
-- Modelling. The clock is an argument in milliseconds; a run of the worker reads it once in a
-- round, a query once. A database is a record of lists of rows, a query a function on it; a query
-- runs alone, and interleavings are sequences of such steps. Ids that the program draws at random
-- are arguments, and numbers where they are only compared. Four loops recurse on fuel:
-- `process_rounds`, for which one round more than the job has open items is enough,
-- `export_table`, for which one page more than the table has rows is enough, `chunks`, for which
-- as many rounds as there are keys are enough, and `follow`, for which one turn more than
-- redirects are allowed is enough. All other loops are structural. Numbers are natural, and signed
-- where the code subtracts; JavaScript's numbers are exact in the ranges used here.
--
-- Parameters: the SHA-256 digest of a key's secret and the first bytes of one, random ids and
-- tokens, JavaScript's `toUpperCase`, the message of a failed zod parse, the deletion of an
-- export's file from the object store, the plan catalog's names, the bytes of a line of an export,
-- what isDataExportCanceled answers during an export, the Redis commands INCR, PEXPIRE and PTTL
-- with their documented effects on the key, the Redis client of the cache, whose commands may
-- reject (`Serves` states what they do on a server that answers, while no key expires and no other
-- process writes), the JSON text of a cache envelope, the JSON text of a webhook's payload, its
-- HMAC, the redaction of failure messages, the parser of URLs, Node's `isIP` for IPv6,
-- JavaScript's `toLowerCase`, and the network (DNS and servers), which may answer anything, also
-- by what has been sent before. For media: Node's `resolve` of two paths and `extname`, the
-- verdict on an upload token, whether a file is written, and which calls of the object store or of
-- unlink are rejected. A file is written at once, since the source renames it into place, and its
-- directory can be made; of the rows that a query limits to 100, which the database may choose,
-- the first are taken.
--
-- Not modelled: the web application, mail templates, logging, metrics, environment parsing, the
-- schema migrations, and the calls of Stripe, BullMQ and S3, which are input and output.
pub mod Prelude
pub mod RateLimit
pub mod BatchJob
pub mod Retention
pub mod Stripe
pub mod Webhooks
pub mod Access
pub mod RequestBody
pub mod Media
pub mod Ip
pub mod Export
pub mod Features
pub mod Cache
pub mod Outbound
pub mod ApiKeys
