-- ===== src/RateLimit/Window.antt =====
-- The fixed window of `checkMemory`: quotas, independence of keys, and the wait it announces.
use saa_sweave.Prelude.{
  ℕ, suc, ◌+◌, ◌-◌, ◌*◌, ◌≤◌, ◌<◌, min, String, ◌≡◌, ap, ◌∙◌, ◌≢◌, inl, inr, true, false, ◌⊎◌, none,
  some, List, [], ◌∷◌, arith, eq_iff, All, Bool-cases, if◌then◌else◌,
}
use text.Mathlib.Text.{◌==◌}
use text.Mathlib.TextPositions.{eq_refl}
use saa_sweave.Prelude.Table.{lookup, lookup-insert_self, lookup-insert_ne}
use saa_sweave.RateLimit.{Bucket, Limiter, RateLimitResult, check_memory}

-- A request for one key leaves the bucket of every other key as it is.
pub check_memory_other :
    (now : ℕ) (key other : String) (limit window_ms : ℕ) (s : Limiter)
    → key ≢ other
    → lookup other (check_memory now key limit window_ms s).1.memory_buckets
      ≡ lookup other s.memory_buckets
unfolding check_memory
check_memory_other now key other limit window_ms s h =
    grind (arith, λ (b : Bucket). lookup-insert_ne key other b s.memory_buckets h)

-- In an open window with room the request is counted; without room nothing is written.
abbrev WithinWindow : String → ℕ → Bucket → RateLimitResult × Limiter → Type 0
WithinWindow key limit b (r, s) =
    (r.allowed ≡ true)
      × (b.count < limit)
      × (lookup key s.memory_buckets ≡ some (record b { count = b.count + 1 }))
    ⊎ (r.allowed ≡ false) × (limit ≤ b.count) × (lookup key s.memory_buckets ≡ some b)

check_memory-WithinWindow :
    (now : ℕ) (key : String) (limit window_ms : ℕ) (b : Bucket) (s : Limiter)
    → lookup key s.memory_buckets ≡ some b
    → now < b.reset_at
    → WithinWindow key limit b (check_memory now key limit window_ms s)
unfolding check_memory
check_memory-WithinWindow now key limit window_ms b s e h =
    ground (arith, lookup-insert_self key (record b { count = b.count + 1 }) s.memory_buckets)

-- A trace of requests, each a time and a key: how many were for `key`, and how many of them passed.
unfoldable pub requests_of : String → List (ℕ × String) → ℕ
requests_of key [] = 0
requests_of key ((t, k) ∷ rest) = let n = requests_of key rest in if k == key then suc n else n

unfoldable pub passed_of : String → ℕ → ℕ → List (ℕ × String) → Limiter → ℕ
passed_of key limit window_ms [] s = 0
passed_of key limit window_ms ((t, k) ∷ rest) s =
    let (r, s') = check_memory t k limit window_ms s in
    let n = passed_of key limit window_ms rest s' in
    if k == key then (if r.allowed then suc n else n) else n

quota :
    (key : String) (limit window_ms : ℕ) (reqs : List (ℕ × String)) (b : Bucket) (s : Limiter)
    → lookup key s.memory_buckets ≡ some b
    → All (λ q. q.0 < b.reset_at) reqs
    → passed_of key limit window_ms reqs s ≡ min (requests_of key reqs) (limit - b.count)
unfolding passed_of requests_of
quota key limit window_ms [] b s e h = omega arith
quota key limit window_ms ((t, k) ∷ rest) b s e h = elim (Bool-cases (k == key)) [
  | inl same ↦
      rw ((eq_iff k key).0 same, eq_refl)
        (elim (check_memory-WithinWindow t key limit window_ms b s e h.0) [
          | inl (passed, room, next) ↦ rw passed (
              omega (
                arith,
                quota key limit window_ms rest (record b { count = b.count + 1 })
                    (check_memory t key limit window_ms s).1 next h.1,
              ))
          | inr (denied, full, next) ↦ rw denied (
              omega (
                arith,
                quota key limit window_ms rest b (check_memory t key limit window_ms s).1 next h.1,
              ))
        ])
  | inr other ↦
      let ne : k ≢ key = λ p. ground (arith, eq_iff k key) in
      rw other (
        quota key limit window_ms rest b (check_memory t k limit window_ms s).1
          (check_memory_other t k key limit window_ms s ne ∙ e) h.1)
]

-- A key's window opens at its first request, or at the first one after the last window's end.
abbrev IsExpired : String → ℕ → Limiter → Type 0
IsExpired key now s =
    (lookup key s.memory_buckets ≡ none)
    ⊎ ((b : Bucket) × (lookup key s.memory_buckets ≡ some b) × (b.reset_at ≤ now))

opens_window :
    (now : ℕ) (key : String) (limit window_ms : ℕ) (s : Limiter)
    → IsExpired key now s
    → ((check_memory now key limit window_ms s).0.allowed ≡ true)
      × (lookup key (check_memory now key limit window_ms s).1.memory_buckets
          ≡ some (record { count = 1; reset_at = now + window_ms }))
unfolding check_memory
opens_window now key limit window_ms s h = ground (
  arith,
  lookup-insert_self key (record { count = 1; reset_at = now + window_ms }) s.memory_buckets,
)

-- In any run of requests, for this and other keys in any order, that starts with a request for
-- `key` when it has no open window and stays inside the window opened then, as many requests for
-- `key` pass as were made, up to the limit (but at least the first, even with limit 0).
pub window_quota :
    (key : String) (limit window_ms now : ℕ) (rest : List (ℕ × String)) (s : Limiter)
    → IsExpired key now s
    → All (λ q. q.0 < now + window_ms) rest
    → passed_of key limit window_ms ((now, key) ∷ rest) s
      ≡ suc (min (requests_of key rest) (limit - 1))
unfolding passed_of
window_quota key limit window_ms now rest s fresh h =
    let (passed, next) = opens_window now key limit window_ms s fresh in
    rw (eq_refl, passed)
      (ap suc (
        quota key limit window_ms rest (record { count = 1; reset_at = now + window_ms })
          (check_memory now key limit window_ms s).1 next h))

-- A request that is denied waits at least one second and is told truly: asked again for the same
-- key once the announced seconds have passed, it is allowed.
pub retry_after_allows :
    (now : ℕ) (key : String) (limit window_ms later : ℕ) (s : Limiter)
    → (check_memory now key limit window_ms s).0.allowed ≡ false
    → now + 1000 * (check_memory now key limit window_ms s).0.retry_after_seconds ≤ later
    → (1 ≤ (check_memory now key limit window_ms s).0.retry_after_seconds)
      × ((check_memory later key limit window_ms
            (check_memory now key limit window_ms s).1).0.allowed
          ≡ true)
unfolding check_memory
retry_after_allows now key limit window_ms later s denied h = ground arith
