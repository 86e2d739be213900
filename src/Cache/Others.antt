-- ===== src/Cache/Others.antt =====
-- What `cacheGet` and `cacheSet` of packages/cache/src/cache.ts leave alone in a Redis that serves every
-- command.
use saa_sweave.Prelude.{
  ℕ, String, Bool, true, false, Option, none, some, List, [], ◌∷◌, ◌≡◌, ◌≢◌, refl, ap, ◌∙◌, arith,
  or_else, length, Bool-cases, inl, inr, lt→ltb, suc,
}
use saa_sweave.Prelude.Text.{is_empty}
use saa_sweave.RateLimit.{RateLimitFailureMode, fail_open, fail_closed}
use saa_sweave.Cache.Client.{
  RedisClient, CacheEnvelope, Codec, Settings, CacheSetOptions, State, full_key,
  resolve_failure_mode,
}
use saa_sweave.Cache.Redis.{
  read_raw, try_get, store_text, try_set, got, after_set, cache_get, cache_set, open_envelope,
}
use saa_sweave.Cache.Versions.{Serves}
use saa_sweave.Cache.Commands.{tags_of, connected_lem, resolve_lem, open_envelope-worth}

module _ {S T : Type 0} {client : RedisClient S} (serves : Serves client) (codec : Codec T)
    (settings : Settings) (configured : settings.redis_configured ≡ true) where
  open serves use {value, get_lem, set_ne}

  open_envelope-state :
      (e : Option (CacheEnvelope T)) (s : S) → (open_envelope client codec settings e s).1 ≡ s
  unfolding open_envelope
  open_envelope-state none s = refl
  open_envelope-state (some e) s =
      ap (λ p. p.1)
        (open_envelope-worth serves codec settings configured s e.stored_at e.tag_versions e.value)

  read_raw-state :
      (raw : Option String) (s : S) → (read_raw client codec settings (some raw) s).1 ≡ s
  unfolding read_raw
  read_raw-state none s = refl
  read_raw-state (some raw) s = elim (Bool-cases (is_empty raw)) [
    | inl e ↦ rw e refl
    | inr e ↦ rw e (open_envelope-state (codec.parse raw) s)
  ]

  got-redis :
      (now : ℕ) (name : String) (mode : RateLimitFailureMode) (answer : Option (Option T))
      (st : State S T)
      → (got client codec settings now name mode answer st).1.redis ≡ st.redis
  unfolding got
  got-redis now name mode (some v) st = refl
  got-redis now name fail_closed none st = refl
  got-redis now name fail_open none st = refl

  pub cache_get-redis :
      (now : ℕ) (key : String) (options : CacheSetOptions) (st : State S T)
      → (cache_get client codec settings now key options st).1.redis ≡ st.redis
  unfolding cache_get try_get
  cache_get-redis now key options st =
      let name = full_key settings key options in
      rw (connected_lem serves codec settings configured st.redis, get_lem name st.redis)
        (got-redis now name (resolve_failure_mode options) _ _
          ∙ read_raw-state (value st.redis name) st.redis)

  after_set-redis :
      (now : ℕ) (name : String) (v : Option T) (ttl : ℕ) (tags : List String)
      (mode : RateLimitFailureMode) (returned : Bool) (st : State S T)
      → (after_set client codec settings now name v ttl tags mode returned st).redis ≡ st.redis
  unfolding after_set
  after_set-redis now name v ttl tags mode true st = refl
  after_set-redis now name v ttl tags fail_closed false st = refl
  after_set-redis now name v ttl tags fail_open false st = refl

  store_text-others :
      (name j : String) (ttl : ℕ) (text : Option String) (s : S)
      → name ≢ j
      → value (store_text client codec settings name ttl text s).1 j ≡ value s j
  store_text-others name j ttl none s other = refl
  store_text-others name j ttl (some text) s other = set_ne name j text (some ttl) s other

  try_set-others :
      (now : ℕ) (name j : String) (v : Option T) (ttl : ℕ) (tags : List String) (s : S)
      → name ≢ j
      → value (try_set client codec settings now name v ttl tags s).1 j ≡ value s j
  unfolding try_set
  try_set-others now name j v ttl [] s other = store_text-others name j ttl _ s other
  try_set-others now name j v ttl (tag ∷ tags) s other =
      rw
        (
          resolve_lem serves codec settings configured (tag ∷ tags) s,
          lt→ltb 0 (suc (length tags)) (omega arith),
        )
        (store_text-others name j ttl _ s other)

  pub cache_set-others :
      (now : ℕ) (key : String) (v : Option T) (options : CacheSetOptions) (st : State S T)
      (j : String)
      → full_key settings key options ≢ j
      → value (cache_set client codec settings now key v options st).redis j ≡ value st.redis j
  unfolding cache_set
  cache_set-others now key v options st j other =
      let name = full_key settings key options in
      let ttl = or_else options.ttl_seconds settings.cache_default_ttl_seconds in
      rw (connected_lem serves codec settings configured st.redis) (
        ap (λ s. value s j)
          (after_set-redis now name v ttl (tags_of options) (resolve_failure_mode options) _ _)
        ∙ try_set-others now name j v ttl (tags_of options) st.redis other)
