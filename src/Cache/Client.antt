-- ===== src/Cache/Client.antt =====
-- The Redis client that packages/cache/src/cache.ts uses, its options and its tag versions, and
-- `connectRedis` of packages/cache/src/redis.ts. The client of ioredis and the JSON text of an
-- envelope are parameters; logging is left out.
use saa_sweave.Prelude.{
  ℕ, String, Bool, true, false, Option, none, some, List, [], ◌∷◌, ltb, if◌then◌else◌, or_else,
}
use Prim.Native.String.{len}
use saa_sweave.Prelude.Table.{Table, insert}
use saa_sweave.Prelude.Text.{is_empty, to_number}
use saa_sweave.RateLimit.{RateLimitFailureMode, fail_open, fail_closed}
use saa_sweave.Cache.Keys.{cache_key, tag_version_key}
use saa_sweave.Cache.Memory.{Memory}

abbrev pub max_tag_cardinality : ℕ
max_tag_cardinality = 10000

-- The connection states of ioredis that the code tells apart.
pub data Status : Type 0 where
  ready wait ended other : Status

-- A client over a state `S` that holds the server, the network and what other processes do. Each
-- command answers `none` (or false) when its promise rejects. `set` takes the seconds of EX.
pub record RedisClient (S : Type 0) : Type 0 where
  pub status : S → Status
  pub connect : S → Bool × S
  pub get : String → S → Option (Option String) × S
  pub set : String → String → Option ℕ → S → Bool × S
  pub del : String → S → Bool × S
  pub incr : String → S → Option ℕ × S
  pub expire_gt : String → ℕ → S → Bool × S
  pub unlink : List String → S → Option ℕ × S

-- A tag's version is `none` where JavaScript has NaN, or null in the JSON text.
pub record CacheEnvelope (T : Type 0) : Type 0 where
  pub stored_at : ℕ
  pub tag_versions : Table (Option ℕ)
  pub value : Option T

-- `JSON.stringify` and `JSON.parse` of an envelope and `JSON.stringify` of a value (`none`: they
-- throw).
pub record Codec (T : Type 0) : Type 0 where
  pub stringify : CacheEnvelope T → Option String
  pub parse : String → Option (CacheEnvelope T)
  pub stringify_value : Option T → Option String

-- `approximateBytes`, of the text of a value.
unfoldable pub approximate_bytes : Option String → ℕ
approximate_bytes none = 256
approximate_bytes (some text) = len text

pub record Settings : Type 0 where
  pub redis_configured : Bool
  pub cache_prefix : String
  pub cache_default_ttl_seconds : ℕ

pub record CacheSetOptions : Type 0 where
  pub failure_mode : Option RateLimitFailureMode
  pub namespace : Option String
  pub tags : Option (List String)
  pub ttl_seconds : Option ℕ

pub record State (S T : Type 0) : Type 0 where
  pub redis : S
  pub memory : Memory T

abbrev pub resolve_failure_mode : CacheSetOptions → RateLimitFailureMode
resolve_failure_mode options = or_else options.failure_mode fail_open

abbrev pub is_closed : RateLimitFailureMode → Bool
is_closed fail_closed = true
is_closed fail_open = false

abbrev pub full_key : Settings → String → CacheSetOptions → String
full_key settings key options =
    cache_key settings.cache_prefix key (or_else options.namespace "app")

-- `current ? Number(current) : 0`
unfoldable pub version_of : Option String → Option ℕ
version_of none = some 0
version_of (some text) = if is_empty text then some 0 else to_number text

-- `stored < current`, which is false for NaN
abbrev pub is_below : Option ℕ → ℕ → Bool
is_below none stored = false
is_below (some current) stored = ltb stored current

module _ {S : Type 0} (client : RedisClient S) (settings : Settings) where
  unfoldable connected : Status → S → Bool × S
  connected ready s = (true, s)
  connected wait s = client.connect s
  connected ended s = client.connect s
  connected other s = (true, s)

  -- `redisOrNull`: whether there is a client to use. The failure mode only chooses the log line.
  unfoldable pub redis_or_null : S → Bool × S
  unfolding connected
  redis_or_null s = if settings.redis_configured then connected (client.status s) s else (false, s)

  -- The rest of `resolveTagVersions`, after the answer for a tag; `rest` is the remaining loop.
  abbrev resolved :
      String
      → Option (Option String)
      → (Table (Option ℕ) → Option (Table (Option ℕ)) × S)
      → Table (Option ℕ)
      → S
      → Option (Table (Option ℕ)) × S
  resolved tag none rest versions s = (none, s)
  resolved tag (some current) rest versions s = rest (insert tag (version_of current) versions)

  unfoldable pub resolve_from : List String → Table (Option ℕ) → S → Option (Table (Option ℕ)) × S
  unfolding version_of
  resolve_from [] versions s = (some versions, s)
  resolve_from (tag ∷ tags) versions s =
      let (answer, s') = client.get (tag_version_key settings.cache_prefix tag) s in
      resolved tag answer (λ v. resolve_from tags v s') versions s'

  -- `resolveTagVersions`; `none` means that it throws.
  unfoldable pub resolve_tag_versions : List String → S → Option (Table (Option ℕ)) × S
  unfolding resolve_from
  resolve_tag_versions tags s = resolve_from tags [] s
