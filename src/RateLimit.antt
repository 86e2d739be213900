-- ===== src/RateLimit.antt =====
-- packages/cache/src/rate-limit.ts: the fixed-window rate limiter, in process memory and by the
-- Redis script, and packages/cache/src/security-policy.ts. Times are milliseconds.
mod Script
pub mod Window
pub mod Policy
mod Tests
pub use Script.{RedisCounter, rate_limit_script}
use saa_sweave.Prelude.{
  ℕ, ◌+◌, ◌-◌, ◌*◌, ◌/◌, max, String, Bool, true, false, not, ◌&&◌, Option, none, some, List, [],
  ◌∷◌, ltb, leb, if◌then◌else◌,
}
use saa_sweave.Prelude.Int.{ℤ, pos, sub_ℕ, pos_part}
use saa_sweave.Prelude.Table.{Table, lookup, insert}
use saa_sweave.Prelude.Text.{before, is_empty}

pub record RateLimitResult : Type 0 where
  pub allowed : Bool
  pub remaining : ℤ
  pub retry_after_seconds : ℕ

pub data RateLimitFailureMode : Type 0 where
  fail_closed fail_open : RateLimitFailureMode

abbrev pub rate_limit_unavailable : RateLimitResult
rate_limit_unavailable = record { allowed = false; remaining = pos 0; retry_after_seconds = 60 }

pub record Bucket : Type 0 where
  pub count : ℕ
  pub reset_at : ℕ

-- `memoryBuckets`, and the scopes counted by `rateLimitHitsTotal`, the latest first.
pub record Limiter : Type 0 where
  pub memory_buckets : Table Bucket
  pub hits : List String

abbrev scope_of : String → String
scope_of key = let scope = before b':' key in if is_empty scope then "unknown" else scope

pub record_rate_limit_hit : String → Limiter → Limiter
record_rate_limit_hit key s = record s { hits = scope_of key ∷ s.hits }

-- `Math.max(1, Math.ceil(ms / 1000))`
abbrev pub retry_seconds : ℕ → ℕ
retry_seconds ms = max 1 ((ms + 999) / 1000)

abbrev allow : ℤ → RateLimitResult
allow remaining = record { allowed = true; remaining = remaining; retry_after_seconds = 0 }

abbrev deny : ℕ → RateLimitResult
deny ms = record { allowed = false; remaining = pos 0; retry_after_seconds = retry_seconds ms }

abbrev open_window : ℕ → String → ℕ → ℕ → Limiter → RateLimitResult × Limiter
open_window now key limit window_ms s = (
  allow (sub_ℕ limit 1),
  record s {
    memory_buckets = insert key (record { count = 1; reset_at = now + window_ms }) s.memory_buckets;
  },
)

abbrev count_request : ℕ → String → ℕ → Bucket → Limiter → RateLimitResult × Limiter
count_request now key limit b s =
    if leb limit b.count then (deny (b.reset_at - now), record_rate_limit_hit key s) else (
      allow (sub_ℕ limit (b.count + 1)),
      record s { memory_buckets = insert key (record b { count = b.count + 1 }) s.memory_buckets },
    )

abbrev with_bucket : Option Bucket → ℕ → String → ℕ → ℕ → Limiter → RateLimitResult × Limiter
with_bucket none now key limit window_ms s = open_window now key limit window_ms s
with_bucket (some b) now key limit window_ms s =
    if leb b.reset_at now
    then open_window now key limit window_ms s
    else count_request now key limit b s

pub check_memory : ℕ → String → ℕ → ℕ → Limiter → RateLimitResult × Limiter
unfolding record_rate_limit_hit
check_memory now key limit window_ms s =
    with_bucket (lookup key s.memory_buckets) now key limit window_ms s

-- What one call meets of Redis: no connection, a script that throws, or its answer `[count, ttl]`.
pub data RedisAnswer : Type 0 where
  unavailable : RedisAnswer
  throws : RedisAnswer
  replies : (count : ℕ) (ttl : ℤ) → RedisAnswer

abbrev fall_back : RateLimitFailureMode → ℕ → String → ℕ → ℕ → Limiter → RateLimitResult × Limiter
fall_back fail_closed now key limit window_ms s = (rate_limit_unavailable, s)
fall_back fail_open now key limit window_ms s = check_memory now key limit window_ms s

-- A negative `ttl` rounds up to at most 0, so that the wait is one second.
pub check_rate_limit :
    RedisAnswer → RateLimitFailureMode → ℕ → String → ℕ → ℕ → Limiter → RateLimitResult × Limiter
unfolding check_memory
check_rate_limit unavailable mode now key limit window_seconds s =
    fall_back mode now key limit (window_seconds * 1000) s
check_rate_limit throws mode now key limit window_seconds s =
    fall_back mode now key limit (window_seconds * 1000) s
check_rate_limit (replies count ttl) mode now key limit window_seconds s =
    if ltb limit count
    then (deny (pos_part ttl), record_rate_limit_hit key s)
    else (allow (sub_ℕ limit count), s)

-- `resolveSecurityFailureMode`, over the environment's three settings.
pub resolve_security_failure_mode :
    (is_production has_redis_url allow_single_instance_fallback : Bool) → RateLimitFailureMode
resolve_security_failure_mode is_production has_redis_url fallback =
    if is_production && has_redis_url && not fallback then fail_closed else fail_open
