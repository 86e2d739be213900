-- ===== src/Cache/Failures.antt =====
-- The failure modes of the operations of packages/cache/src/cache.ts.
use saa_sweave.Prelude.{
  ℕ, String, Bool, true, false, Option, none, some, List, [], ◌≡◌, refl, or_else,
}
use saa_sweave.RateLimit.{fail_open, fail_closed}
use saa_sweave.Cache.Memory.{Memory}
use saa_sweave.Cache.Ideal.{read, write, remove, invalidate, step}
use saa_sweave.Cache.Client.{
  RedisClient, Codec, approximate_bytes, Settings, CacheSetOptions, State, resolve_failure_mode,
  full_key, redis_or_null,
}
use saa_sweave.Cache.Redis.{
  with_client, try_get, got, after_set, after_delete, after_invalidate, cache_get, cache_set,
  cache_delete, cache_invalidate_tag,
}

-- The options in the mode `failClosed`.
abbrev pub closed : CacheSetOptions → CacheSetOptions
closed options = record options { failure_mode = some fail_closed }

module _ {S T : Type 0} (client : RedisClient S) (codec : Codec T) (settings : Settings) where
  got_closed :
      (now : ℕ) (key : String) (answer : Option (Option T)) (st : State S T)
      → (got client codec settings now key fail_closed answer st).1.memory ≡ st.memory
  unfolding got
  got_closed now key none st = refl
  got_closed now key (some value) st = refl

  got_closed_answer :
      (now : ℕ) (key : String) (answer : Option (Option T)) (st st' : State S T)
      → (got client codec settings now key fail_closed answer st).0
        ≡ (got client codec settings now key fail_closed answer st').0
  unfolding got
  got_closed_answer now key none st st' = refl
  got_closed_answer now key (some value) st st' = refl

  after_set_closed :
      (now : ℕ) (key : String) (value : Option T) (ttl : ℕ) (tags : List String) (returned : Bool)
      (st : State S T)
      → (after_set client codec settings now key value ttl tags fail_closed returned st).memory
        ≡ st.memory
  unfolding after_set
  after_set_closed now key value ttl tags true st = refl
  after_set_closed now key value ttl tags false st = refl

  after_delete_closed :
      (key : String) (deleted : Bool) (st : State S T)
      → (after_delete client codec settings key fail_closed deleted st).memory ≡ st.memory
  unfolding after_delete
  after_delete_closed key true st = refl
  after_delete_closed key false st = refl

  after_invalidate_closed :
      (tag : String) (returned : Bool) (st : State S T)
      → (after_invalidate client codec settings tag fail_closed returned st).1.memory ≡ st.memory
  unfolding after_invalidate
  after_invalidate_closed tag true st = refl
  after_invalidate_closed tag false st = refl

  -- In the mode `failClosed` no operation reads or writes the process memory, whatever Redis does:
  -- the memory stays as it is, and another memory would give the same answer.
  pub fail_closed_keeps_memory :
      (now : ℕ) (key tag : String) (value : Option T) (options : CacheSetOptions) (m : Memory T)
      (st : State S T)
      → ((cache_get client codec settings now key (closed options) st).1.memory ≡ st.memory)
        × ((cache_set client codec settings now key value (closed options) st).memory ≡ st.memory)
        × ((cache_delete client codec settings key (closed options) st).memory ≡ st.memory)
        × ((cache_invalidate_tag client codec settings tag (some fail_closed) st).1.memory
            ≡ st.memory)
        × ((cache_get client codec settings now key (closed options) (record st { memory = m })).0
            ≡ (cache_get client codec settings now key (closed options) st).0)
  unfolding cache_get cache_set cache_delete cache_invalidate_tag
  fail_closed_keeps_memory now key tag value options m st =
      let name = full_key settings key options in
      let tags = or_else options.tags [] in
      let reached = redis_or_null client settings st.redis in
      let (answer, s) = with_client none (try_get client codec settings name) reached in
      (
        got_closed now name answer (record st { redis = s }),
        after_set_closed now name value
            (or_else options.ttl_seconds settings.cache_default_ttl_seconds) tags _ _,
        after_delete_closed name _ _,
        after_invalidate_closed tag _ _,
        got_closed_answer now name answer (record { redis = s; memory = m })
            (record st { redis = s }),
      )

  -- Without a configured Redis, and not in the mode `failClosed`, the operations are the calls on
  -- the process memory, under the full keys, and leave the Redis client alone.
  pub without_redis_is_memory :
      (now : ℕ) (key tag : String) (value : Option T) (options : CacheSetOptions) (st : State S T)
      → settings.redis_configured ≡ false
      → resolve_failure_mode options ≡ fail_open
      → let name = full_key settings key options in
        let ttl = or_else options.ttl_seconds settings.cache_default_ttl_seconds in
        let tags = or_else options.tags [] in
        let bytes = approximate_bytes (codec.stringify_value value) in
        let (found, m) = step (read now name) st.memory in
        (cache_get client codec settings now key options st ≡ (found, record st { memory = m }))
        × (cache_set client codec settings now key value options st
            ≡ record st { memory = (step (write now bytes name value ttl tags) st.memory).1 })
        × (cache_delete client codec settings key options st
            ≡ record st { memory = (step (remove name) st.memory).1 })
        × ((cache_invalidate_tag client codec settings tag none st).1
            ≡ record st { memory = (step (invalidate tag) st.memory).1 })
  unfolding cache_get cache_set cache_delete cache_invalidate_tag redis_or_null got after_set
      after_delete after_invalidate step
  without_redis_is_memory now key tag value options st off mode =
      rw (off, mode) (refl, refl, refl, refl)
