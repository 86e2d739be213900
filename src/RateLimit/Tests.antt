-- ===== src/RateLimit/Tests.antt =====
-- Runs of the limiter, and the theorems on it at concrete inputs.
use saa_sweave.Prelude.{ℕ, suc, ◌≤◌, ◌≡◌, refl, ◌⊎◌, inl, true, false, [], ◌∷◌, arith}
use saa_sweave.Prelude.Int.{ℤ, pos}
use saa_sweave.Prelude.Table.{lookup}
use saa_sweave.RateLimit.{
  Limiter, replies, check_memory, check_rate_limit, rate_limit_script, RedisCounter,
  resolve_security_failure_mode,
}
use saa_sweave.RateLimit.Script.{rate_limit_script_expires, is_negative}
use saa_sweave.RateLimit.Window.{passed_of, requests_of, window_quota, retry_after_allows}
use saa_sweave.RateLimit.Policy.{production_needs_redis}

abbrev empty_limiter : Limiter
empty_limiter = record { memory_buckets = []; hits = [] }

-- Three requests of one address inside a window of two, with another address between them.
window_quota_example :
    passed_of "login:a" 2 1000
      ((5000, "login:a") ∷ (5100, "login:b") ∷ (5200, "login:a") ∷ (5999, "login:a") ∷ [])
      empty_limiter
    ≡ 2
unfolding requests_of lookup
window_quota_example =
    window_quota "login:a" 2 1000 5000
      ((5100, "login:b") ∷ (5200, "login:a") ∷ (5999, "login:a") ∷ []) empty_limiter (inl refl)
      (omega arith, (omega arith, (omega arith, tt)))

abbrev full_limiter : Limiter
full_limiter = record {
  memory_buckets = record { key = "login:a"; value = record { count = 2; reset_at = 6000 } } ∷ [];
  hits = [];
}

retry_after_allows_test :
    (1 ≤ (check_memory 5200 "login:a" 2 1000 full_limiter).0.retry_after_seconds)
    × ((check_memory 6200 "login:a" 2 1000
          (check_memory 5200 "login:a" 2 1000 full_limiter).1).0.allowed
        ≡ true)
unfolding check_memory lookup
retry_after_allows_test =
    retry_after_allows 5200 "login:a" 2 1000 6200 full_limiter refl (omega arith)

production_needs_redis_test :
    let (r, s') =
      check_rate_limit
        (replies 2 (pos 800))
        (resolve_security_failure_mode true true false)
        5000
        "login:a"
        2
        1
        empty_limiter in
    ((r.allowed ≡ false)
      ⊎ ((count : ℕ) × (ttl : ℤ) × (replies 2 (pos 800) ≡ replies count ttl) × (count ≤ 2)))
    × (s'.memory_buckets ≡ [])
production_needs_redis_test =
    production_needs_redis (replies 2 (pos 800)) 5000 "login:a" 2 1 empty_limiter

-- A server with one count and one time to live, for every key.
abbrev one_counter : RedisCounter
one_counter = record {
  Store = ℕ × ℤ;
  value = λ s k. s.0;
  pttl = λ s k. s.1;
  incr = λ s k. (suc s.0, s.1);
  pexpire = λ s k w. (s.0, pos w);
  incr_value = λ s k. refl;
  pexpire_value = λ s k w. refl;
  pexpire_pttl = λ s k w. refl;
}

rate_limit_script_expires_test :
    let ((count, ttl), s') = rate_limit_script one_counter "login:a" 1000 (4, ℤ.negsuc 0) in
    (count ≡ 5) × (s'.0 ≡ count) × (s'.1 ≡ ttl) × (is_negative ttl ≡ false)
rate_limit_script_expires_test =
    rate_limit_script_expires one_counter "login:a" 1000 (4, ℤ.negsuc 0)
