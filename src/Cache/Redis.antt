-- ===== src/Cache/Redis.antt =====
-- The operations of packages/cache/src/cache.ts over Redis, with the fallback to process memory.
use saa_sweave.Prelude.{
  ℕ, String, Bool, true, false, Option, none, some, List, [], ltb, if◌then◌else◌, or_else, any, map,
  length,
}
use saa_sweave.Prelude.Table.{Table, lookup}
use saa_sweave.Prelude.Text.{is_empty}
use saa_sweave.RateLimit.{RateLimitFailureMode, fail_open, fail_closed}
use saa_sweave.Cache.Keys.{tag_version_key}
use saa_sweave.Cache.Memory.{
  delete, invalidate_memory_tag, read_memory, write_memory, current_versions,
}
use saa_sweave.Cache.Client.{
  RedisClient, CacheEnvelope, Codec, approximate_bytes, Settings, CacheSetOptions, State,
  max_tag_cardinality, resolve_failure_mode, full_key, is_below, redis_or_null,
  resolve_tag_versions,
}

-- Whether the version of some tag has moved past the one that was stored.
unfoldable pub is_superseded : Table (Option ℕ) → List String → Table (Option ℕ) → Bool
is_superseded stored tags current =
    any
      (λ tag.
        is_below (or_else (lookup tag current) (some 0))
          (or_else (or_else (lookup tag stored) (some 0)) 0))
      tags

-- Runs a `try` block with the client that there is; `failed` stands for no client, and for a
-- command that threw: the operations go on in the same way after both.
abbrev pub with_client {ℓ} : {S : Type 0} {R : Type ℓ} → R → (S → R × S) → Bool × S → R × S
with_client failed block (false, s) = (failed, s)
with_client failed block (true, s) = block s

module _ {S T : Type 0} (client : RedisClient S) (codec : Codec T) (settings : Settings) where
  -- The `try` block of `cacheGet`: `none` means that it throws.
  abbrev served : CacheEnvelope T → Option (Table (Option ℕ)) → Option (Option T)
  served envelope none = none
  served envelope (some versions) =
      if is_superseded envelope.tag_versions (map (λ e. e.key) envelope.tag_versions) versions
      then some none
      else some envelope.value

  unfoldable pub open_envelope : Option (CacheEnvelope T) → S → Option (Option T) × S
  unfolding is_superseded
  open_envelope none s = (none, s)
  open_envelope (some envelope) s =
      let (versions, s') =
        resolve_tag_versions client settings (map (λ e. e.key) envelope.tag_versions) s in
      if ltb 0 (length envelope.tag_versions)
      then (served envelope versions, s')
      else (some envelope.value, s)

  unfoldable pub read_raw : Option (Option String) → S → Option (Option T) × S
  unfolding open_envelope
  read_raw none s = (none, s)
  read_raw (some none) s = (some none, s)
  read_raw (some (some raw)) s =
      if is_empty raw then (some none, s) else open_envelope (codec.parse raw) s

  unfoldable pub try_get : String → S → Option (Option T) × S
  unfolding read_raw
  try_get key s = let (raw, s') = client.get key s in read_raw raw s'

  unfoldable pub got :
      ℕ → String → RateLimitFailureMode → Option (Option T) → State S T → Option T × State S T
  got now key mode (some value) st = (value, st)
  got now key fail_closed none st = (none, st)
  got now key fail_open none st =
      let (value, memory) = read_memory now key st.memory in (value, record st { memory = memory })

  unfoldable pub cache_get : ℕ → String → CacheSetOptions → State S T → Option T × State S T
  unfolding try_get redis_or_null got
  cache_get now key options st =
      let name = full_key settings key options in
      let mode = resolve_failure_mode options in
      let (answer, s) = with_client none (try_get name) (redis_or_null client settings st.redis) in
      got now name mode answer (record st { redis = s })

  -- The `try` block of `cacheSet`: whether it returns.
  abbrev pub store_text : String → ℕ → Option String → S → Bool × S
  store_text key ttl none s = (false, s)
  store_text key ttl (some text) s = client.set key text (some ttl) s

  abbrev store : ℕ → String → Option T → ℕ → Option (Table (Option ℕ)) → S → Bool × S
  store now key value ttl none s = (false, s)
  store now key value ttl (some versions) s =
      store_text key ttl
        (codec.stringify (record { stored_at = now; tag_versions = versions; value = value })) s

  unfoldable pub try_set : ℕ → String → Option T → ℕ → List String → S → Bool × S
  try_set now key value ttl tags s =
      let (versions, s') = resolve_tag_versions client settings tags s in
      if ltb 0 (length tags)
      then store now key value ttl versions s'
      else store now key value ttl (some []) s

  unfoldable pub after_set :
      ℕ → String → Option T → ℕ → List String → RateLimitFailureMode → Bool → State S T → State S T
  after_set now key value ttl tags mode true st = st
  after_set now key value ttl tags fail_closed false st = st
  after_set now key value ttl tags fail_open false st =
      let bytes = approximate_bytes (codec.stringify_value value) in
      let versions = current_versions tags st.memory.versions in
      record st { memory = write_memory now bytes key value ttl tags versions st.memory }

  -- `cacheSet` returns the value that it is given; this is its state.
  unfoldable pub cache_set : ℕ → String → Option T → CacheSetOptions → State S T → State S T
  unfolding try_set redis_or_null after_set
  cache_set now key value options st =
      let name = full_key settings key options in
      let ttl = or_else options.ttl_seconds settings.cache_default_ttl_seconds in
      let mode = resolve_failure_mode options in
      let tags = or_else options.tags [] in
      let (returned, s) =
        with_client false (try_set now name value ttl tags)
          (redis_or_null client settings st.redis) in
      after_set now name value ttl tags mode returned (record st { redis = s })

  unfoldable pub after_delete : String → RateLimitFailureMode → Bool → State S T → State S T
  after_delete key mode true st = st
  after_delete key fail_closed false st = st
  after_delete key fail_open false st =
      let m = st.memory in record st { memory = record m { cache = delete key m.cache } }

  unfoldable pub cache_delete : String → CacheSetOptions → State S T → State S T
  unfolding redis_or_null after_delete
  cache_delete key options st =
      let name = full_key settings key options in
      let mode = resolve_failure_mode options in
      let (deleted, s) =
        with_client false (client.del name) (redis_or_null client settings st.redis) in
      after_delete name mode deleted (record st { redis = s })

  -- The `try` block of `cacheInvalidateTag`: whether it returns.
  unfoldable pub reset_version : String → ℕ → S → Bool × S
  reset_version key next s =
      if ltb max_tag_cardinality next then client.set key "1" none s else (true, s)

  abbrev renew : String → Bool → S → Bool × S
  renew key false s = (false, s)
  renew key true s = client.expire_gt key settings.cache_default_ttl_seconds s

  abbrev bumped : String → Option ℕ → S → Bool × S
  bumped key none s = (false, s)
  bumped key (some next) s = let (returned, s') = reset_version key next s in renew key returned s'

  unfoldable pub try_invalidate : String → S → Bool × S
  try_invalidate key s = let (next, s') = client.incr key s in bumped key next s'

  unfoldable pub after_invalidate : String → RateLimitFailureMode → Bool → State S T → ℕ × State S T
  after_invalidate tag mode true st = (1, st)
  after_invalidate tag fail_closed false st = (0, st)
  after_invalidate tag fail_open false st =
      let (removed, memory) = invalidate_memory_tag tag st.memory in
      (removed, record st { memory = memory })

  unfoldable pub cache_invalidate_tag :
      String → Option RateLimitFailureMode → State S T → ℕ × State S T
  unfolding try_invalidate redis_or_null after_invalidate
  cache_invalidate_tag tag failure_mode st =
      let mode = or_else failure_mode fail_open in
      let (returned, s) =
        with_client false (try_invalidate (tag_version_key settings.cache_prefix tag))
          (redis_or_null client settings st.redis) in
      after_invalidate tag mode returned (record st { redis = s })
