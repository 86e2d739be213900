-- ===== src/Cache/Wrap.antt =====
-- `cacheWrap` of packages/cache/src/cache.ts as the steps between its awaits: the read of the
-- cache, the entry (from the answer of that read to the return of a promise), the `then` with
-- `cacheSet`, and the `finally`. A promise is a number; the loader is what settles it.
use saa_sweave.Prelude.{ℕ, String, not, ◌&&◌, Option, none, some, ◌∷◌, ◌==◌, keep}
use text.Mathlib.Text.{◌==◌ as str_eq}
use saa_sweave.Prelude.Table.{Table, lookup, insert}
use saa_sweave.Cache.Client.{RedisClient, Codec, Settings, CacheSetOptions, State}
use saa_sweave.Cache.Redis.{cache_get, cache_set}

-- The state of the cache, `inFlight`, and the loads that have been started and not finished.
pub record Wrapping (S T : Type 0) : Type 0 where
  pub state : State S T
  pub in_flight : Table ℕ
  pub loads : Table ℕ

-- What a call goes on with: the cached value, or a promise, its own or another call's.
pub data Entered (T : Type 0) : Type 0 where
  cached : T → Entered T
  joined : ℕ → Entered T
  started : ℕ → Entered T

-- `inFlight.delete(fullKey)`
abbrev pub delete_flight : String → Table ℕ → Table ℕ
delete_flight key = keep (λ e. not (str_eq e.key key))

-- The load with the key and the promise has ended.
abbrev pub end_load : String → ℕ → Table ℕ → Table ℕ
end_load key promise = keep (λ e. not (str_eq e.key key && e.value == promise))

module _ {S T : Type 0} where
  unfoldable pub join : String → ℕ → Option ℕ → Wrapping S T → Entered T × Wrapping S T
  join name promise (some existing) w = (joined existing, w)
  join name promise none w = (
    started promise,
    record w {
      in_flight = insert name promise w.in_flight;
      loads = record { key = name; value = promise } ∷ w.loads;
    },
  )

  -- After the read of the cache, with what it found; `promise` is new.
  unfoldable pub wrap_enter : String → ℕ → Option T → Wrapping S T → Entered T × Wrapping S T
  unfolding join
  wrap_enter name promise (some value) w = (cached value, w)
  wrap_enter name promise none w = join name promise (lookup name w.in_flight) w

  -- The `finally`.
  unfoldable pub wrap_finish : String → ℕ → Wrapping S T → Wrapping S T
  wrap_finish name promise w = record w {
    in_flight = delete_flight name w.in_flight;
    loads = end_load name promise w.loads;
  }

module _ {S T : Type 0} (client : RedisClient S) (codec : Codec T) (settings : Settings) where
  unfoldable pub wrap_read : ℕ → String → CacheSetOptions → Wrapping S T → Option T × Wrapping S T
  wrap_read now key options w =
      let (found, state) = cache_get client codec settings now key options w.state in
      (found, record w { state = state })

  -- The `then`, when the loader has a value.
  unfoldable pub wrap_store : ℕ → String → Option T → CacheSetOptions → Wrapping S T → Wrapping S T
  wrap_store now key value options w = record w {
    state = cache_set client codec settings now key value options w.state;
  }
