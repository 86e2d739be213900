-- ===== src/Cache/Reads.antt =====
-- What can be read from the entries in memory after a write and after an invalidation.
use saa_sweave.Prelude.{
  ℕ, ◌+◌, ◌≤◌, ◌<◌, String, Bool, true, false, not, Option, none, some, List, [], ◌∷◌, ◌++◌, ◌≡◌,
  ◌≢◌, refl, arith, leb, ltb, ◌==◌, if◌then◌else◌, keep, all, eq_iff,
}
use text.Mathlib.TextPositions.{eq_refl}
use saa_sweave.Prelude.Table.{Entry, Table, lookup, insert, lookup-insert_self, lookup-insert_ne}
use saa_sweave.Cache.Memory.{
  CacheEntry, Memory, max_memory_cache_bytes, ttl_ms, includes_tag, get_memory_tag_version,
  bump_memory_tag_version, memory_bytes_used, is_over, trim_memory_cache, has_tag,
  invalidate_memory_tag, is_memory_entry_valid, read_entry, read_memory, write_memory,
  versions_from, current_versions,
}
use saa_sweave.Cache.Tags.{all_of_includes}
use saa_sweave.Cache.Bounds.{
  IsFresh, HasDistinctKeys, IsValid, trim_of_within, insert_fresh, keep-IsWithin,
}

-- A table of versions made from the current ones has the current version of each of its tags.
version-versions_from :
    (tag : String) (versions : Table ℕ) (tags : List String) (entries : Table ℕ)
    → get_memory_tag_version tag (versions_from versions tags entries) ≡ (
        if includes_tag tag tags
        then get_memory_tag_version tag versions
        else get_memory_tag_version tag entries)
unfolding versions_from includes_tag get_memory_tag_version
version-versions_from tag versions [] entries = refl
version-versions_from tag versions (t ∷ tags) entries =
    let now = get_memory_tag_version t versions in
    ground (
      arith,
      version-versions_from tag versions tags (insert t now entries),
      eq_iff t tag,
      lookup-insert_self t now entries,
      lookup-insert_ne t tag now entries,
    )

-- A bump leaves the versions of other tags.
version-bump_ne :
    (tag other : String) (versions : Table ℕ)
    → tag ≢ other
    → get_memory_tag_version other (bump_memory_tag_version tag versions)
      ≡ get_memory_tag_version other versions
unfolding get_memory_tag_version bump_memory_tag_version
version-bump_ne tag other versions h =
    rw (lookup-insert_ne tag other (get_memory_tag_version tag versions + 1) versions h) refl

all_versions-bump :
    (tag : String) (stored versions : Table ℕ) (tags : List String)
    → includes_tag tag tags ≡ false
    → all
        (λ t.
          get_memory_tag_version t stored
          == get_memory_tag_version t (bump_memory_tag_version tag versions))
        tags
      ≡ all (λ t. get_memory_tag_version t stored == get_memory_tag_version t versions) tags
unfolding includes_tag
all_versions-bump tag stored versions [] h = refl
all_versions-bump tag stored versions (t ∷ tags) h = ground (
  arith,
  all_versions-bump tag stored versions tags,
  version-bump_ne tag t versions,
  eq_iff t tag,
)

module _ {ℓ} {T : Type ℓ} where
  valid_now :
      (bytes expires : ℕ) (value : Option T) (tags : List String) (versions : Table ℕ)
      → is_memory_entry_valid versions (record {
        approximate_bytes = bytes;
        expires_at = expires;
        tags = tags;
        tag_versions = current_versions tags versions;
        value = value;
      })
        ≡ true
  unfolding is_memory_entry_valid current_versions
  valid_now bytes expires value tags versions =
      all_of_includes _ tags (λ tag e. ground (arith, version-versions_from tag versions tags []))

  lookup_fresh :
      (key : String) (entries : Table (CacheEntry T))
      → IsFresh key entries
      → lookup key entries ≡ none
  unfolding lookup
  lookup_fresh key [] h = refl
  lookup_fresh key (e ∷ entries) h = ground (arith, eq_iff e.key key, lookup_fresh key entries h.1)

  IsFresh-of_lookup :
      (key : String) (entries : Table (CacheEntry T))
      → lookup key entries ≡ none
      → IsFresh key entries
  unfolding lookup
  IsFresh-of_lookup key [] h = tt
  IsFresh-of_lookup key (e ∷ entries) h =
      ground (arith, eq_refl e.key, eq_iff e.key key, IsFresh-of_lookup key entries)

  lookup-append :
      (key : String) (value : CacheEntry T) (entries : Table (CacheEntry T))
      → IsFresh key entries
      → lookup key (entries ++ record { key = key; value = value } ∷ []) ≡ some value
  unfolding lookup
  lookup-append key value [] h = ground (arith, eq_refl key)
  lookup-append key value (e ∷ entries) h =
      ground (arith, eq_iff e.key key, lookup-append key value entries h.1)

  -- A trim does not reach the last entry if that fits alone.
  lookup-trim-append :
      (key : String) (value : CacheEntry T) (entries : Table (CacheEntry T))
      → IsFresh key entries
      → value.approximate_bytes ≤ max_memory_cache_bytes
      → lookup key (trim_memory_cache (entries ++ record { key = key; value = value } ∷ []))
        ≡ some value
  unfolding lookup trim_memory_cache is_over memory_bytes_used
  lookup-trim-append key value [] h fits = ground (arith, eq_refl key)
  lookup-trim-append key value (e ∷ entries) h fits = ground (
    arith,
    eq_iff e.key key,
    lookup-append key value entries h.1,
    lookup-trim-append key value entries h.1 fits,
  )

  -- A value written under a new key, of a size that fits, is read back until its time to live is
  -- over, whatever else the memory holds; from then on the read finds nothing.
  pub read_memory-write_memory :
      (now later bytes : ℕ) (key : String) (value : Option T) (ttl_seconds : ℕ) (tags : List String)
      (m : Memory T)
      → lookup key m.cache ≡ none
      → bytes ≤ max_memory_cache_bytes
      → let m' =
          write_memory now bytes key value ttl_seconds tags (current_versions tags m.versions) m in
        (read_memory later key m').0
        ≡ (if ltb later (now + ttl_ms ttl_seconds) then value else none)
  unfolding read_memory write_memory read_entry
  read_memory-write_memory now later bytes key value ttl_seconds tags m new fits =
      let fresh = IsFresh-of_lookup key m.cache new in
      let stored : CacheEntry T = record {
        approximate_bytes = bytes;
        expires_at = now + ttl_ms ttl_seconds;
        tags = tags;
        tag_versions = current_versions tags m.versions;
        value = value;
      } in
      rw (insert_fresh key stored m.cache fresh, lookup-trim-append key stored m.cache fresh fits)
        (ground (arith, valid_now bytes (now + ttl_ms ttl_seconds) value tags m.versions))

  -- A write to the key of the oldest entry keeps its place: when the new value does not fit beside
  -- the others, the trim drops the value just written and keeps the rest that fits.
  pub rewritten_oldest_is_dropped :
      (now bytes : ℕ) (value : Option T) (ttl_seconds : ℕ) (tags : List String)
      (stored versions : Table ℕ) (e : Entry (CacheEntry T)) (entries : Table (CacheEntry T))
      → IsValid (record { cache = e ∷ entries; versions = versions })
      → max_memory_cache_bytes < bytes + memory_bytes_used entries
      → let m' =
          write_memory now bytes e.key value ttl_seconds tags stored
            (record { cache = e ∷ entries; versions = versions }) in
        (m'.cache ≡ entries) × (lookup e.key m'.cache ≡ none)
  unfolding write_memory insert trim_memory_cache memory_bytes_used
  rewritten_oldest_is_dropped now bytes value ttl_seconds tags stored versions e entries v over =
      ground (arith, eq_refl e.key, trim_of_within entries, lookup_fresh e.key entries v.distinct.0)

  -- The entry, unless it has the tag.
  abbrev pub untagged : String → Option (CacheEntry T) → Option (CacheEntry T)
  untagged tag none = none
  untagged tag (some entry) = if includes_tag tag entry.tags then none else some entry

  lookup-untagged :
      (tag key : String) (entries : Table (CacheEntry T))
      → HasDistinctKeys entries
      → lookup key (keep (λ e. not (has_tag tag e)) entries) ≡ untagged tag (lookup key entries)
  unfolding lookup has_tag
  lookup-untagged tag key [] h = refl
  lookup-untagged tag key (e ∷ entries) h =
      ground (
        arith,
        lookup-untagged tag key entries h.1,
        lookup_fresh e.key entries h.0,
        eq_iff e.key key,
      )

  -- The answer of a read.
  abbrev answer : ℕ → Table ℕ → Option (CacheEntry T) → Option T
  answer now versions none = none
  answer now versions (some entry) =
      if leb entry.expires_at now
      then none
      else if is_memory_entry_valid versions entry
      then entry.value
      else none

  read_memory-answer :
      (now : ℕ) (key : String) (m : Memory T)
      → (read_memory now key m).0 ≡ answer now m.versions (lookup key m.cache)
  unfolding read_memory read_entry
  read_memory-answer now key m = ground (arith)

  answer-bump :
      (now : ℕ) (tag : String) (versions : Table ℕ) (found : Option (CacheEntry T))
      → answer now (bump_memory_tag_version tag versions) (untagged tag found)
        ≡ answer now versions (untagged tag found)
  unfolding is_memory_entry_valid
  answer-bump now tag versions none = refl
  answer-bump now tag versions (some entry) =
      ground (arith, all_versions-bump tag entry.tag_versions versions entry.tags)

  -- Whether a found entry has the tag.
  abbrev pub is_tagged : String → Option (CacheEntry T) → Bool
  is_tagged tag none = false
  is_tagged tag (some entry) = includes_tag tag entry.tags

  -- After the invalidation of a tag a read finds nothing under the key of an entry that had the
  -- tag, and under any other key what it would have found before.
  pub read_memory-invalidate :
      (now : ℕ) (tag key : String) (m : Memory T)
      → IsValid m
      → (read_memory now key (invalidate_memory_tag tag m).1).0
        ≡ (if is_tagged tag (lookup key m.cache) then none else (read_memory now key m).0)
  unfolding invalidate_memory_tag
  read_memory-invalidate now tag key m v =
      let rest = keep (λ e. not (has_tag tag e)) m.cache in
      ground (
        arith,
        read_memory-answer now key m,
        read_memory-answer now key (invalidate_memory_tag tag m).1,
        trim_of_within rest (keep-IsWithin (λ e. not (has_tag tag e)) m.cache v.within),
        lookup-untagged tag key m.cache v.distinct,
        answer-bump now tag m.versions (lookup key m.cache),
      )
