-- ===== src/Cache/Stale.antt =====
-- A load of `cacheWrap` of packages/cache/src/cache.ts that is running when its tag is invalidated.
-- A load of `cacheWrap` of packages/cache/src/cache.ts that is running when its tag is invalidated.
use saa_sweave.Prelude.{
  ℕ, ◌+◌, ◌<◌, String, true, Option, none, some, ◌≡◌, refl, ap, ◌∙◌, arith, or_else,
}
use saa_sweave.Prelude.Table.{lookup, lookup-insert_self}
use saa_sweave.RateLimit.{RateLimitFailureMode}
use saa_sweave.Cache.Memory.{includes_tag}
use saa_sweave.Cache.Client.{
  RedisClient, CacheEnvelope, Codec, Settings, CacheSetOptions, State, max_tag_cardinality,
  full_key,
}
use saa_sweave.Cache.Redis.{cache_set, cache_invalidate_tag}
use saa_sweave.Cache.Commands.{tags_of, try_invalidate_lem, cache_invalidate_tag_lem}
use saa_sweave.Cache.Versions.{Serves, RoundTrips, version_key, version, lookup-recorded}
use saa_sweave.Cache.Invalidation.{HasOwnKey, envelope, cache_set-stored, cache_get-cache_set}
use saa_sweave.Cache.Wrap.{Wrapping, joined, started, join, wrap_enter, wrap_read, wrap_store}

module _ {S T : Type 0} where
  join_state :
      (name : String) (promise : ℕ) (found : Option ℕ) (w : Wrapping S T)
      → (join name promise found w).1.state ≡ w.state
  unfolding join
  join_state name promise none w = refl
  join_state name promise (some p) w = refl

  wrap_enter-state :
      (name : String) (promise : ℕ) (w : Wrapping S T)
      → (wrap_enter name promise none w).1.state ≡ w.state
  unfolding wrap_enter
  wrap_enter-state name promise w = join_state name promise (lookup name w.in_flight) w

  wrap_enter-started :
      (name : String) (promise : ℕ) (w : Wrapping S T)
      → lookup name w.in_flight ≡ none
      → (wrap_enter name promise none w).0 ≡ started promise
  unfolding wrap_enter join
  wrap_enter-started name promise w idle = rw idle refl

  -- A call while that load runs.
  wrap_enter-joined :
      (name : String) (promise other : ℕ) (w : Wrapping S T) (st : State S T)
      → lookup name w.in_flight ≡ none
      → (wrap_enter name other none (record (wrap_enter name promise none w).1 { state = st })).0
        ≡ joined promise
  unfolding wrap_enter join
  wrap_enter-joined name promise other w st idle =
      rw idle (rw (lookup-insert_self name promise w.in_flight) refl)

-- Redis holds an envelope with the value under the key, and it records the version of the tag.
abbrev pub HasVersion :
    {S T : Type 0} {client : RedisClient S}
    → Serves client
    → Codec T
    → S
    → (name tag : String) → (n : ℕ) → Option T
    → Type 0
HasVersion {T = T} serves codec s name tag n v =
    (text : String) × (e : CacheEnvelope T) × (serves.value s name ≡ some text)
    × (codec.parse text ≡ some e)
    × (lookup tag e.tag_versions ≡ some (some n))
    × (e.value ≡ v)

module _ {S T : Type 0} {client : RedisClient S} (serves : Serves client) (codec : Codec T)
    (settings : Settings) (configured : settings.redis_configured ≡ true) (tag : String)
    (mode : Option RateLimitFailureMode) (n : ℕ) (st : State S T)
    (before : version serves settings st.redis tag ≡ some n) (below : n < max_tag_cardinality) where
  abbrev cleared : State S T
  cleared = (cache_invalidate_tag client codec settings tag mode st).1

  invalidate-answer : (cache_invalidate_tag client codec settings tag mode st).0 ≡ 1
  invalidate-answer =
      ap (λ p. p.0) (cache_invalidate_tag_lem serves codec settings configured tag mode n st before)

  version-cleared : version serves settings cleared.redis tag ≡ some (n + 1)
  version-cleared =
      let key = version_key serves settings tag in
      let (returned, at, others) =
        try_invalidate_lem serves codec settings configured key n st.redis before in
      ap (λ p. version serves settings p.1.redis tag)
        (cache_invalidate_tag_lem serves codec settings configured tag mode n st before)
      ∙ at
      ∙ ground (arith, below)

  stored-HasVersion :
      (now : ℕ) (key : String) (v : Option T) (options : CacheSetOptions)
      → includes_tag tag (tags_of options) ≡ true
      → RoundTrips codec (envelope serves settings cleared.redis now v (tags_of options))
      → HasOwnKey settings (full_key settings key options) (tags_of options)
      → HasVersion serves codec
          (cache_set client codec settings now key v options cleared).redis
          (full_key settings key options)
          tag
          (n + 1)
          v
  stored-HasVersion now key v options listed round own =
      let name = full_key settings key options in
      let ttl = or_else options.ttl_seconds settings.cache_default_ttl_seconds in
      (
        round.text,
        envelope serves settings cleared.redis now v (tags_of options),
        ap (λ s. serves.value s.redis name)
              (cache_set-stored serves codec settings configured now key v options cleared round
                own)
            ∙ serves.set_self name round.text (some ttl) cleared.redis,
        round.parse-text,
        lookup-recorded serves settings cleared.redis tag (tags_of options) listed
            ∙ ap some version-cleared,
        refl,
      )

-- Over a configured Redis that serves every command, when a call of cacheWrap finds nothing and no
-- load under its key is running, it starts one; an invalidation of one of its tags during the
-- load, at a version below 10,000, answers 1 and raises the version by one, and yet a call after
-- it that finds nothing joins that load, the loaded value is stored with the raised version of the
-- tag, and a read of the cache answers it, if its envelope survives its JSON text and its key is
-- not that of the version of one of its tags.
pub load_across_invalidation_is_served :
    {S T : Type 0} {client : RedisClient S} (serves : Serves client) (codec : Codec T)
    (settings : Settings)
    → settings.redis_configured ≡ true
    → (now later : ℕ) (key : String) (v : Option T) (options : CacheSetOptions) (tag : String)
      (mode : Option RateLimitFailureMode) (promise other n : ℕ) (w : Wrapping S T)
    → let name = full_key settings key options in
      let (answer, called) = wrap_enter name promise none w in
      let (count, cleared) = cache_invalidate_tag client codec settings tag mode called.state in
      let between = record called { state = cleared } in
      let stored = wrap_store client codec settings now key v options between in
      lookup name w.in_flight ≡ none
      → version serves settings w.state.redis tag ≡ some n
      → n < max_tag_cardinality
      → includes_tag tag (tags_of options) ≡ true
      → RoundTrips codec (envelope serves settings cleared.redis now v (tags_of options))
      → HasOwnKey settings name (tags_of options)
      → (answer ≡ started promise)
        × (count ≡ 1)
        × (version serves settings cleared.redis tag ≡ some (n + 1))
        × ((wrap_enter name other none between).0 ≡ joined promise)
        × HasVersion serves codec stored.state.redis name tag (n + 1) v
        × ((wrap_read client codec settings later key options stored).0 ≡ v)
unfolding wrap_read wrap_store
load_across_invalidation_is_served {client = client} serves codec settings configured now later key
      v options tag mode promise other n w idle before below listed round own =
    let name = full_key settings key options in
    let called = (wrap_enter name promise none w).1 in
    let same : called.state ≡ w.state = wrap_enter-state name promise w in
    let before' = ap (λ s. version serves settings s.redis tag) same ∙ before in
    let st = (cache_invalidate_tag client codec settings tag mode called.state).1 in
    (
      wrap_enter-started name promise w idle,
      invalidate-answer serves codec settings configured tag mode n called.state before' below,
      version-cleared serves codec settings configured tag mode n called.state before' below,
      wrap_enter-joined name promise other w st idle,
      stored-HasVersion serves codec settings configured tag mode n called.state before' below now
          key v options listed round own,
      cache_get-cache_set serves codec settings configured now key v options st round own later,
    )
