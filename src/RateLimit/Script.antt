-- ===== src/RateLimit/Script.antt =====
-- RATE_LIMIT_SCRIPT of packages/cache/src/rate-limit.ts, over the Redis commands that it calls.
use saa_sweave.Prelude.{ℕ, suc, ◌≡◌, refl, Bool, true, false, arith, ◌==◌, if◌then◌else◌, String}
use saa_sweave.Prelude.Int.{ℤ, pos, negsuc}

-- The documented behaviour of INCR, PEXPIRE and PTTL on one key, at one instant: INCR adds one to
-- the count and keeps the time to live; PEXPIRE sets it; PTTL is negative on a key without one.
pub record RedisCounter : Type 1 where
  pub Store : Type 0
  pub value : Store → String → ℕ
  pub pttl : Store → String → ℤ
  pub incr : Store → String → Store
  pub pexpire : Store → String → ℕ → Store
  pub incr_value : (s : Store) (k : String) → value (incr s k) k ≡ suc (value s k)
  pub pexpire_value : (s : Store) (k : String) (w : ℕ) → value (pexpire s k w) k ≡ value s k
  pub pexpire_pttl : (s : Store) (k : String) (w : ℕ) → pttl (pexpire s k w) k ≡ pos w

abbrev pub is_negative : ℤ → Bool
is_negative (pos n) = false
is_negative (negsuc n) = true

module _ (r : RedisCounter) where
  open r use {Store, value, pttl, incr, pexpire, incr_value, pexpire_value, pexpire_pttl}

  arm : String → ℕ → Store → Store
  arm key window_ms counted =
      if value counted key == 1
      then pexpire counted key window_ms
      else if is_negative (pttl counted key)
      then pexpire counted key window_ms
      else counted

  unfoldable pub rate_limit_script : String → ℕ → Store → (ℕ × ℤ) × Store
  unfolding arm
  rate_limit_script key window_ms s =
      let armed = arm key window_ms (incr s key) in
      ((value (incr s key) key, pttl armed key), armed)

  arm_value :
      (key : String) (window_ms : ℕ) (s : Store) → value (arm key window_ms s) key ≡ value s key
  unfolding arm
  arm_value key window_ms s = ground (arith, pexpire_value s key window_ms)

  arm_pttl :
      (key : String) (window_ms : ℕ) (s : Store)
      → is_negative (pttl (arm key window_ms s) key) ≡ false
  unfolding arm
  arm_pttl key window_ms s = ground (arith, pexpire_pttl s key window_ms)

  -- The script counts one more request, answers with that count, and leaves the key with a time to
  -- live that is not negative: a counter cannot outlive its window and lock a client out.
  pub rate_limit_script_expires :
      (key : String) (window_ms : ℕ) (s : Store)
      → let ((count, ttl), s') = rate_limit_script key window_ms s in
        (count ≡ suc (value s key))
        × (value s' key ≡ count)
        × (pttl s' key ≡ ttl)
        × (is_negative ttl ≡ false)
  unfolding rate_limit_script
  rate_limit_script_expires key window_ms s = (
    incr_value s key,
    arm_value key window_ms (incr s key),
    refl,
    arm_pttl key window_ms (incr s key),
  )
