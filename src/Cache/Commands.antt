-- ===== src/Cache/Commands.antt =====
-- The steps of the operations of packages/cache/src/cache.ts over a Redis that serves every
-- command: the versions found, the worth of an envelope, and the invalidation of a tag.
use saa_sweave.Prelude.{
  ℕ, suc, ◌+◌, String, Bool, true, Option, none, some, List, [], ◌∷◌, ◌≡◌, ◌≢◌, refl, ap, ◌∙◌,
  arith, ltb, lt→ltb, if◌then◌else◌, or_else, length, Bool-cases, inl, inr,
}
use saa_sweave.Prelude.Table.{Table}
use saa_sweave.Prelude.Text.{to_number}
use saa_sweave.RateLimit.{RateLimitFailureMode}
use saa_sweave.Cache.Tags.{keys}
use saa_sweave.Cache.Client.{
  RedisClient, Codec, Settings, CacheSetOptions, State, max_tag_cardinality, version_of,
  redis_or_null, resolve_tag_versions,
}
use saa_sweave.Cache.Redis.{
  is_superseded, reset_version, open_envelope, try_invalidate, after_invalidate,
  cache_invalidate_tag,
}
use saa_sweave.Cache.Versions.{Serves, version_key, version, found, resolve_from-found}

pub returned_lem : {S : Type 0} (p : Bool × S) → p.0 ≡ true → p ≡ (true, p.1)
returned_lem p h = ground arith

version_of_one : version_of (some "1") ≡ some 1
unfolding version_of to_number
version_of_one = refl

-- The options' tags and time to live.
abbrev pub tags_of : CacheSetOptions → List String
tags_of options = or_else options.tags []

module _ {S T : Type 0} {client : RedisClient S} (serves : Serves client) (codec : Codec T)
    (settings : Settings) (configured : settings.redis_configured ≡ true) where
  open serves use {
    value, status_lem, set_lem, set_self, incr_lem, incr_self, incr_ne, expire_lem, expire_value,
    set_ne,
  }

  pub connected_lem : (s : S) → redis_or_null client settings s ≡ (true, s)
  unfolding redis_or_null
  connected_lem s = rw (configured, status_lem s) refl

  pub resolve_lem :
      (tags : List String) (s : S)
      → resolve_tag_versions client settings tags s ≡ (some (found serves settings s tags []), s)
  unfolding resolve_tag_versions
  resolve_lem tags s = resolve_from-found serves settings tags [] s

  -- What a stored envelope is worth.
  abbrev pub worth : S → ℕ → Table (Option ℕ) → Option T → Option T
  worth s at versions v =
      if is_superseded versions (keys versions) (found serves settings s (keys versions) [])
      then none
      else v

  pub open_envelope-worth :
      (s : S) (at : ℕ) (versions : Table (Option ℕ)) (v : Option T)
      → open_envelope client codec settings
          (some (record { stored_at = at; tag_versions = versions; value = v }))
          s
        ≡ (some (worth s at versions v), s)
  unfolding open_envelope is_superseded
  open_envelope-worth s at [] v = refl
  open_envelope-worth s at (e ∷ versions) v =
      rw (resolve_lem (keys (e ∷ versions)) s, lt→ltb 0 (suc (length versions)) (omega arith))
        (ground arith)

  -- The version of a tag after `INCR`, the reset to 1 and `EXPIRE`.
  abbrev next_version : ℕ → ℕ
  next_version n = if ltb max_tag_cardinality (n + 1) then 1 else n + 1

  reset_lem :
      (key : String) (n : ℕ) (s : S)
      → version_of (value s key) ≡ some (n + 1)
      → let (returned, s') = reset_version client codec settings key (n + 1) s in
        (returned ≡ true)
        × (version_of (value s' key) ≡ some (next_version n))
        × ((j : String) → key ≢ j → value s' j ≡ value s j)
  unfolding reset_version
  reset_lem key n s h = elim (Bool-cases (ltb max_tag_cardinality (n + 1))) [
    | inl over ↦ rw over (
      set_lem key "1" none s,
      rw (set_self key "1" none s) version_of_one,
      λ j other. set_ne key j "1" none s other,
    )
    | inr within ↦ rw within (refl, h, λ j other. refl)
  ]

  pub try_invalidate_lem :
      (key : String) (n : ℕ) (s : S)
      → version_of (value s key) ≡ some n
      → let (returned, s') = try_invalidate client codec settings key s in
        (returned ≡ true)
        × (version_of (value s' key) ≡ some (next_version n))
        × ((j : String) → key ≢ j → value s' j ≡ value s j)
  unfolding try_invalidate
  try_invalidate_lem key n s h =
      let counted = (client.incr key s).1 in
      let (returned, at, others) = reset_lem key n counted (incr_self key n s h) in
      let after = (reset_version client codec settings key (n + 1) counted).1 in
      let ttl = settings.cache_default_ttl_seconds in
      rw (incr_lem key n s h) (
        rw returned (
          expire_lem key ttl after,
          ap version_of (expire_value key key ttl after) ∙ at,
          λ j other. expire_value key j ttl after ∙ others j other ∙ incr_ne key j s other,
        ))

  pub cache_invalidate_tag_lem :
      (tag : String) (mode : Option RateLimitFailureMode) (n : ℕ) (st : State S T)
      → version serves settings st.redis tag ≡ some n
      → cache_invalidate_tag client codec settings tag mode st ≡ (
        1,
        record st {
          redis =
              (try_invalidate client codec settings (version_key serves settings tag) st.redis).1;
        },
      )
  unfolding cache_invalidate_tag after_invalidate
  cache_invalidate_tag_lem tag mode n st h =
      let key = version_key serves settings tag in
      rw (connected_lem st.redis) (
        rw
          (returned_lem (try_invalidate client codec settings key st.redis)
            (try_invalidate_lem key n st.redis h).0)
          refl)
