-- ===== src/RateLimit/Policy.antt =====
-- The failure modes of `checkRateLimit`.
use saa_sweave.Prelude.{
  ℕ, ◌≤◌, String, ◌≡◌, refl, ◌⊎◌, inl, inr, true, false, arith, Bool-cases, ltb,
}
use saa_sweave.Prelude.Int.{ℤ}
use saa_sweave.RateLimit.{
  Limiter, RedisAnswer, unavailable, throws, replies, check_rate_limit,
  resolve_security_failure_mode,
}

-- A production deployment with Redis that does not allow the single-instance fallback admits a
-- request only when Redis has answered with a count within the limit, and never touches the
-- buckets in process memory.
pub production_needs_redis :
    (answer : RedisAnswer) (now : ℕ) (key : String) (limit window_seconds : ℕ) (s : Limiter)
    → let (r, s') =
        check_rate_limit answer
          (resolve_security_failure_mode true true false)
          now
          key
          limit
          window_seconds
          s in
      ((r.allowed ≡ false)
        ⊎ ((count : ℕ) × (ttl : ℤ) × (answer ≡ replies count ttl) × (count ≤ limit)))
      × (s'.memory_buckets ≡ s.memory_buckets)
unfolding check_rate_limit resolve_security_failure_mode
production_needs_redis unavailable now key limit window_seconds s = (inl refl, refl)
production_needs_redis throws now key limit window_seconds s = (inl refl, refl)
production_needs_redis (replies count ttl) now key limit window_seconds s =
    elim (Bool-cases (ltb limit count)) [
      | inl over ↦ rw over (inl refl, refl)
      | inr within ↦ rw within (inr (count, ttl, refl, ground arith), refl)
    ]
