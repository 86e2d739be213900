-- ===== src/Cache/Invalidation.antt =====
-- What `cacheGet` of packages/cache/src/cache.ts answers through Redis after `cacheSet`, and after
-- `cacheInvalidateTag` as well.
use saa_sweave.Prelude.{
  ℕ, suc, ◌≤◌, ◌<◌, String, true, false, Option, none, some, List, [], ◌∷◌, ◌≡◌, ◌≢◌, refl, sym, ap,
  ◌∙◌, arith, lt→ltb, if◌then◌else◌, or_else, length, All, Bool-cases, inl, inr, eq_iff,
}
use text.Mathlib.Text.{◌==◌ as str_eq}
use saa_sweave.RateLimit.{RateLimitFailureMode}
use saa_sweave.Cache.Memory.{includes_tag}
use saa_sweave.Cache.Keys.{tag_version_key}
use saa_sweave.Cache.Tags.{All_of_includes}
use saa_sweave.Cache.Client.{
  RedisClient, CacheEnvelope, Codec, Settings, CacheSetOptions, State, max_tag_cardinality,
  full_key, version_of,
}
use saa_sweave.Cache.Redis.{
  read_raw, try_get, try_set, try_invalidate, got, after_set, cache_get, cache_set,
  cache_invalidate_tag,
}
use saa_sweave.Cache.Versions.{
  Serves, RoundTrips, version_key, version, found, moved, test, not_superseded, superseded,
}
use saa_sweave.Cache.Commands.{
  tags_of, returned_lem, connected_lem, resolve_lem, open_envelope-worth, try_invalidate_lem,
  cache_invalidate_tag_lem,
}

-- The key of the value is not that of the version of one of its tags.
abbrev pub HasOwnKey : Settings → String → List String → Type 0
HasOwnKey settings name = All (λ tag. name ≢ tag_version_key settings.cache_prefix tag)

-- What `cacheSet` stores when it finds Redis in state `s`.
abbrev pub envelope :
    {S T : Type 0} {client : RedisClient S}
    → Serves client
    → Settings
    → S
    → ℕ
    → Option T
    → List String
    → CacheEnvelope T
envelope serves settings s now v tags = record {
  stored_at = now;
  tag_versions = found serves settings s tags [];
  value = v;
}

module _ {S T : Type 0} {client : RedisClient S} (serves : Serves client) (codec : Codec T)
    (settings : Settings) (configured : settings.redis_configured ≡ true) (now : ℕ) (key : String)
    (v : Option T) (options : CacheSetOptions) (st : State S T)
    (round : RoundTrips codec (envelope serves settings st.redis now v (tags_of options)))
    (own : HasOwnKey settings (full_key settings key options) (tags_of options)) where
  open serves use {value, get_lem, set_lem, set_self, set_ne}
  open round use {text, stringify_lem, parse-text, text_not_empty}

  abbrev name : String
  name = full_key settings key options

  abbrev tags : List String
  tags = tags_of options

  abbrev ttl : ℕ
  ttl = or_else options.ttl_seconds settings.cache_default_ttl_seconds

  own_key : (tag : String) → includes_tag tag tags ≡ true → name ≢ version_key serves settings tag
  own_key tag listed =
      All_of_includes (λ t. name ≢ version_key serves settings t) tag tags own listed

  abbrev stored : S
  stored = (client.set name text (some ttl) st.redis).1

  try_set_lem :
      (ts : List String)
      → codec.stringify (envelope serves settings st.redis now v ts) ≡ some text
      → try_set client codec settings now name v ttl ts st.redis ≡ (true, stored)
  unfolding try_set
  try_set_lem [] h = unfold found in rw h (returned_lem _ (set_lem name text (some ttl) st.redis))
  try_set_lem (tag ∷ ts) h =
      rw
        (
          resolve_lem serves codec settings configured (tag ∷ ts) st.redis,
          lt→ltb 0 (suc (length ts)) (omega arith),
          h,
        )
        (returned_lem _ (set_lem name text (some ttl) st.redis))

  pub cache_set-stored :
      cache_set client codec settings now key v options st ≡ record st { redis = stored }
  unfolding cache_set after_set
  cache_set-stored =
      rw (connected_lem serves codec settings configured st.redis)
        (rw (try_set_lem tags stringify_lem) refl)

  cache_get-stored :
      (later : ℕ) (st' : State S T)
      → value st'.redis name ≡ some text
      → cache_get client codec settings later key options st'
        ≡ ((if test serves settings st.redis st'.redis tags then none else v), st')
  unfolding cache_get got try_get read_raw
  cache_get-stored later st' h = rw (connected_lem serves codec settings configured st'.redis) (
      rw (get_lem name st'.redis, h, text_not_empty, parse-text)
        (rw
          (open_envelope-worth serves codec settings configured st'.redis now
            (found serves settings st.redis tags []) v)
          refl))

  version-stored :
      (tag : String)
      → includes_tag tag tags ≡ true
      → version serves settings stored tag ≡ version serves settings st.redis tag
  version-stored tag listed =
      ap version_of (
        set_ne name (version_key serves settings tag) text (some ttl) st.redis (own_key tag listed))

  moved_same :
      (s' : S) (tag : String)
      → version serves settings s' tag ≡ version serves settings st.redis tag
      → moved serves settings st.redis s' tag ≡ false
  moved_same s' tag same = ground arith

  -- What `cacheSet` stores through Redis is what `cacheGet` answers, as long as Redis keeps it.
  pub cache_get-cache_set :
      (later : ℕ)
      → (cache_get client codec settings later key options
          (cache_set client codec settings now key v options st)).0
        ≡ v
  cache_get-cache_set later =
      rw
        (
          cache_set-stored,
          cache_get-stored later (record st { redis = stored })
              (set_self name text (some ttl) st.redis),
        )
        (rw
          (not_superseded serves settings st.redis stored tags
            (λ tag listed. moved_same stored tag (version-stored tag listed)))
          refl)

  module _ (later : ℕ) (tag : String) (mode : Option RateLimitFailureMode) (n : ℕ)
      (listed : includes_tag tag (tags_of options) ≡ true)
      (before : version serves settings st.redis tag ≡ some n) where
    abbrev tag_key : String
    tag_key = version_key serves settings tag

    abbrev invalidated : S
    invalidated = (try_invalidate client codec settings tag_key stored).1

    at_stored : version serves settings stored tag ≡ some n
    at_stored = version-stored tag listed ∙ before

    answer-test :
        cache_get client codec settings later key options
          (cache_invalidate_tag client codec settings tag mode
            (cache_set client codec settings now key v options st)).1
        ≡ (
          if test serves settings st.redis invalidated tags then none else v,
          record st { redis = invalidated },
        )
    answer-test =
        let (returned, at, others) =
          try_invalidate_lem serves codec settings configured tag_key n stored at_stored in
        rw
          (
            cache_set-stored,
            cache_invalidate_tag_lem serves codec settings configured tag mode n
                (record st { redis = stored }) at_stored,
            cache_get-stored later (record st { redis = invalidated })
                (others name (λ e. own_key tag listed (sym e))
                  ∙ set_self name text (some ttl) st.redis),
          )
          refl

    invalidate-set :
        cache_invalidate_tag client codec settings tag mode
          (cache_set client codec settings now key v options st)
        ≡ (1, record st { redis = invalidated })
    invalidate-set = rw cache_set-stored (
        cache_invalidate_tag_lem serves codec settings configured tag mode n
          (record st { redis = stored }) at_stored)

    -- Such a value is also missed, by a read that changes nothing, in a later state in which Redis
    -- has the same text under its key and the same version of the tag.
    pub invalidated_is_missed :
        n < max_tag_cardinality
        → (st' : State S T)
        → let cleared =
            (cache_invalidate_tag client codec settings tag mode
              (cache_set client codec settings now key v options st)).1.redis in
          value st'.redis name ≡ value cleared name
          → version serves settings st'.redis tag ≡ version serves settings cleared tag
          → cache_get client codec settings later key options st' ≡ (none, st')
    invalidated_is_missed below st' same_text same_version =
        let (returned, at, others) =
          try_invalidate_lem serves codec settings configured tag_key n stored at_stored in
        let redis_is = ap (λ p. p.1.redis) invalidate-set in
        let held =
          same_text
          ∙ ap (λ s. value s name) redis_is
          ∙ others name (λ e. own_key tag listed (sym e))
          ∙ set_self name text (some ttl) st.redis in
        let now_at = same_version ∙ ap (λ s. version serves settings s tag) redis_is ∙ at in
        rw
          (
            cache_get-stored later st' held,
            superseded serves settings st.redis st'.redis tag tags listed
                (rw (now_at, before) (ground arith)),
          )
          refl

    -- A value stored with tags is not served after the invalidation of one of them, as long as the
    -- tag's version in Redis was below 10,000.
    pub invalidated_is_not_served :
        n < max_tag_cardinality
        → (cache_get client codec settings later key options
            (cache_invalidate_tag client codec settings tag mode
              (cache_set client codec settings now key v options st)).1).0
          ≡ none
    invalidated_is_not_served below =
        let cleared =
          (cache_invalidate_tag client codec settings tag mode
            (cache_set client codec settings now key v options st)).1 in
        ap (λ p. p.0) (invalidated_is_missed below cleared refl refl)

    still_current :
        max_tag_cardinality ≤ n
        → (t : String) → includes_tag t tags ≡ true
        → moved serves settings st.redis invalidated t ≡ false
    still_current full t known =
        let (returned, at, others) =
          try_invalidate_lem serves codec settings configured tag_key n stored at_stored in
        let key_t = version_key serves settings t in
        elim (Bool-cases (str_eq tag_key key_t)) [
          | inl same ↦
              let equal = (eq_iff tag_key key_t).0 same in
              rw (← equal) (rw (at, before) (ground arith))
          | inr other ↦ moved_same invalidated t (
              ap version_of (others key_t (ground (arith, eq_iff tag_key key_t)))
              ∙ version-stored t known)
        ]

    -- Over a configured Redis that serves every command, the invalidation of a tag whose version
    -- is 10,000 or more answers 1 and leaves the version at 1, and cacheGet answers the value
    -- stored with the tag directly before as if nothing had been invalidated, if its envelope
    -- survives its JSON text and its key is not that of the version of one of its tags.
    pub invalidation_at_cap_is_lost :
        max_tag_cardinality ≤ n
        → let (count, cleared) =
            cache_invalidate_tag client codec settings tag mode
              (cache_set client codec settings now key v options st) in
          (count ≡ 1)
          × (version serves settings cleared.redis tag ≡ some 1)
          × ((cache_get client codec settings later key options cleared).0 ≡ v)
    invalidation_at_cap_is_lost full =
        let (returned, at, others) =
          try_invalidate_lem serves codec settings configured tag_key n stored at_stored in
        (
          ap (λ p. p.0) invalidate-set,
          ap (λ p. version serves settings p.1.redis tag) invalidate-set
              ∙ at
              ∙ ground (arith, full),
          ap (λ p. p.0) answer-test
              ∙ rw (not_superseded serves settings st.redis invalidated tags (still_current full))
                  refl,
        )
