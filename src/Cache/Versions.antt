-- ===== src/Cache/Versions.antt =====
-- Tag versions in Redis: what `cacheGet` of packages/cache/src/cache.ts answers after `cacheSet`
-- and `cacheInvalidateTag`, over a Redis that serves every command.
use saa_sweave.Prelude.{
  ℕ, ◌+◌, String, Bool, true, false, ◌||◌, Option, some, List, [], ◌∷◌, ◌≡◌, ◌≢◌, refl, sym, ◌∙◌,
  arith, if◌then◌else◌, or_else, eq_iff,
}
use saa_sweave.Prelude.Table.{Table, lookup, insert, lookup-insert_self, lookup-insert_ne}
use saa_sweave.Prelude.Text.{is_empty}
use saa_sweave.Cache.Keys.{tag_version_key}
use saa_sweave.Cache.Memory.{includes_tag}
use saa_sweave.Cache.Tags.{none_of_includes, any_of_includes, keys, keys-insert}
use saa_sweave.Cache.Client.{
  RedisClient, CacheEnvelope, Codec, Settings, Status, version_of, is_below, resolve_from,
}
use saa_sweave.Cache.Redis.{is_superseded}

-- The documented behaviour of the commands of Redis on a server that answers, while no key expires
-- and no other process writes: `value` is the text under a key. EXPIRE with GT changes no text.
pub record Serves {S : Type 0} (client : RedisClient S) : Type 0 where
  pub value : S → String → Option String
  pub status_lem : (s : S) → client.status s ≡ Status.ready
  pub get_lem : (k : String) (s : S) → client.get k s ≡ (some (value s k), s)
  pub set_lem : (k text : String) (ttl : Option ℕ) (s : S) → (client.set k text ttl s).0 ≡ true
  pub set_self :
      (k text : String) (ttl : Option ℕ) (s : S) → value (client.set k text ttl s).1 k ≡ some text
  pub set_ne :
      (k j text : String) (ttl : Option ℕ) (s : S)
      → k ≢ j
      → value (client.set k text ttl s).1 j ≡ value s j
  pub incr_lem :
      (k : String) (n : ℕ) (s : S)
      → version_of (value s k) ≡ some n
      → (client.incr k s).0 ≡ some (n + 1)
  pub incr_self :
      (k : String) (n : ℕ) (s : S)
      → version_of (value s k) ≡ some n
      → version_of (value (client.incr k s).1 k) ≡ some (n + 1)
  pub incr_ne : (k j : String) (s : S) → k ≢ j → value (client.incr k s).1 j ≡ value s j
  pub expire_lem : (k : String) (ttl : ℕ) (s : S) → (client.expire_gt k ttl s).0 ≡ true
  pub expire_value :
      (k j : String) (ttl : ℕ) (s : S) → value (client.expire_gt k ttl s).1 j ≡ value s j

-- What a codec owes to an envelope: its text is not empty and parses to it.
pub record RoundTrips {T : Type 0} (codec : Codec T) (e : CacheEnvelope T) : Type 0 where
  pub text : String
  pub stringify_lem : codec.stringify e ≡ some text
  pub parse-text : codec.parse text ≡ some e
  pub text_not_empty : is_empty text ≡ false

module _ {S : Type 0} {client : RedisClient S} (serves : Serves client) (settings : Settings) where
  open serves use {
    value, status_lem, get_lem, set_lem, set_self, set_ne, incr_lem, incr_self, incr_ne, expire_lem,
    expire_value,
  }

  abbrev pub version_key : String → String
  version_key tag = tag_version_key settings.cache_prefix tag

  abbrev pub version : S → String → Option ℕ
  version s tag = version_of (value s (version_key tag))

  -- What `resolveTagVersions` finds.
  unfoldable pub found : S → List String → Table (Option ℕ) → Table (Option ℕ)
  found s [] versions = versions
  found s (tag ∷ tags) versions = found s tags (insert tag (version s tag) versions)

  pub resolve_from-found :
      (tags : List String) (versions : Table (Option ℕ)) (s : S)
      → resolve_from client settings tags versions s ≡ (some (found s tags versions), s)
  unfolding resolve_from found
  resolve_from-found [] versions s = refl
  resolve_from-found (tag ∷ tags) versions s =
      rw (get_lem (version_key tag) s)
        (resolve_from-found tags (insert tag (version s tag) versions) s)

  lookup-found :
      (s : S) (tag : String) (tags : List String) (versions : Table (Option ℕ))
      → lookup tag (found s tags versions)
        ≡ (if includes_tag tag tags then some (version s tag) else lookup tag versions)
  unfolding found includes_tag
  lookup-found s tag [] versions = refl
  lookup-found s tag (t ∷ tags) versions = ground (
    arith,
    lookup-found s tag tags (insert t (version s t) versions),
    eq_iff t tag,
    lookup-insert_self t (version s t) versions,
    lookup-insert_ne t tag (version s t) versions,
  )

  keys-found :
      (s : S) (tag : String) (tags : List String) (versions : Table (Option ℕ))
      → includes_tag tag (keys (found s tags versions))
        ≡ (includes_tag tag tags || includes_tag tag (keys versions))
  unfolding found includes_tag
  keys-found s tag [] versions = refl
  keys-found s tag (t ∷ tags) versions = ground (
    arith,
    keys-found s tag tags (insert t (version s t) versions),
    keys-insert tag t (version s t) versions,
  )

  pub lookup-recorded :
      (s : S) (tag : String) (tags : List String)
      → includes_tag tag tags ≡ true
      → lookup tag (found s tags []) ≡ some (version s tag)
  lookup-recorded s tag tags known = ground (arith, lookup-found s tag tags [])

  keys-recorded :
      (s : S) (tag : String) (tags : List String)
      → includes_tag tag (keys (found s tags [])) ≡ includes_tag tag tags
  unfolding includes_tag
  keys-recorded s tag tags = ground (arith, keys-found s tag tags [])

  -- Whether the version of a tag has passed the one that it had before.
  abbrev pub moved : S → S → String → Bool
  moved s s' tag = is_below (version s' tag) (or_else (version s tag) 0)

  abbrev pub test : S → S → List String → Bool
  test s s' tags =
      let stored = found s tags [] in is_superseded stored (keys stored) (found s' (keys stored) [])

  pub not_superseded :
      (s s' : S) (tags : List String)
      → ((tag : String) → includes_tag tag tags ≡ true → moved s s' tag ≡ false)
      → test s s' tags ≡ false
  unfolding is_superseded
  not_superseded s s' tags h = none_of_includes _ (keys (found s tags [])) λ tag known.
      let listed = sym (keys-recorded s tag tags) ∙ known in
      rw (lookup-recorded s tag tags listed, lookup-recorded s' tag (keys (found s tags [])) known)
        (h tag listed)

  pub superseded :
      (s s' : S) (tag : String) (tags : List String)
      → includes_tag tag tags ≡ true
      → moved s s' tag ≡ true
      → test s s' tags ≡ true
  unfolding is_superseded
  superseded s s' tag tags listed h =
      let known = keys-recorded s tag tags ∙ listed in
      any_of_includes _ tag (keys (found s tags [])) known (
        rw
          (lookup-recorded s tag tags listed, lookup-recorded s' tag (keys (found s tags [])) known)
          h)
