-- ===== src/Cache/Memory.antt =====
-- The entries in process memory of packages/cache/src/cache.ts. A JavaScript `Map` is a list of
-- entries in insertion order; the cached value may be null (`none`). How many bytes
-- `JSON.stringify` takes for a value is an argument of `write_memory`.
use saa_sweave.Prelude.{
  ℕ, ◌+◌, ◌*◌, max, String, Bool, not, ◌||◌, Option, none, some, List, [], ◌∷◌, ltb, leb, ◌==◌,
  if◌then◌else◌, or_else, any, all, keep, count, length,
}
use text.Mathlib.Text.{◌==◌ as str_eq}
use saa_sweave.Prelude.Table.{Entry, Table, lookup, insert}

abbrev pub max_memory_cache_entries : ℕ
max_memory_cache_entries = 1000

abbrev pub max_memory_cache_bytes : ℕ
max_memory_cache_bytes = 8 * 1024 * 1024

pub record CacheEntry {ℓ} (T : Type ℓ) : Type ℓ where
  pub approximate_bytes : ℕ
  pub expires_at : ℕ
  pub tags : List String
  pub tag_versions : Table ℕ
  pub value : Option T

-- `memoryCache` and `memoryTagVersions`
pub record Memory {ℓ} (T : Type ℓ) : Type ℓ where
  pub cache : Table (CacheEntry T)
  pub versions : Table ℕ

unfoldable pub ttl_ms : ℕ → ℕ
ttl_ms ttl_seconds = max 1 ttl_seconds * 1000

-- `tags.includes(tag)`
unfoldable pub includes_tag : String → List String → Bool
includes_tag tag tags = any (λ t. str_eq t tag) tags

-- `versions.get(tag) ?? 0`; a record of versions is read in the same way.
unfoldable pub get_memory_tag_version : String → Table ℕ → ℕ
get_memory_tag_version tag versions = or_else (lookup tag versions) 0

unfoldable pub bump_memory_tag_version : String → Table ℕ → Table ℕ
unfolding get_memory_tag_version
bump_memory_tag_version tag versions = insert tag (get_memory_tag_version tag versions + 1) versions

-- `Object.fromEntries(tags.map((tag) => [tag, getMemoryTagVersion(tag)]))`, from the entries of
-- the tags before.
unfoldable pub versions_from : Table ℕ → List String → Table ℕ → Table ℕ
versions_from versions [] entries = entries
versions_from versions (tag ∷ tags) entries =
    versions_from versions tags (insert tag (get_memory_tag_version tag versions) entries)

unfoldable pub current_versions : List String → Table ℕ → Table ℕ
unfolding versions_from
current_versions tags versions = versions_from versions tags []

module _ {ℓ} {T : Type ℓ} where
  -- `map.delete(key)`
  abbrev pub delete : String → Table (CacheEntry T) → Table (CacheEntry T)
  delete key = keep (λ e. not (str_eq e.key key))

  unfoldable pub memory_bytes_used : Table (CacheEntry T) → ℕ
  memory_bytes_used [] = 0
  memory_bytes_used (e ∷ entries) = e.value.approximate_bytes + memory_bytes_used entries

  unfoldable pub is_over : Table (CacheEntry T) → Bool
  unfolding memory_bytes_used
  is_over entries =
      ltb max_memory_cache_entries (length entries)
      || ltb max_memory_cache_bytes (memory_bytes_used entries)

  -- The oldest key is that of the first entry.
  unfoldable pub trim_memory_cache : Table (CacheEntry T) → Table (CacheEntry T)
  unfolding is_over
  trim_memory_cache [] = []
  trim_memory_cache (e ∷ entries) =
      let rest = trim_memory_cache entries in if is_over (e ∷ entries) then rest else e ∷ entries

  unfoldable pub has_tag : String → Entry (CacheEntry T) → Bool
  unfolding includes_tag
  has_tag tag e = includes_tag tag e.value.tags

  unfoldable pub invalidate_memory_tag : String → Memory T → ℕ × Memory T
  unfolding has_tag trim_memory_cache bump_memory_tag_version
  invalidate_memory_tag tag m = (
    count (has_tag tag) m.cache,
    record {
      cache = trim_memory_cache (keep (λ e. not (has_tag tag e)) m.cache);
      versions = bump_memory_tag_version tag m.versions;
    },
  )

  unfoldable pub is_memory_entry_valid : Table ℕ → CacheEntry T → Bool
  unfolding get_memory_tag_version
  is_memory_entry_valid versions entry =
      all
        (λ tag.
          get_memory_tag_version tag entry.tag_versions == get_memory_tag_version tag versions)
        entry.tags

  -- A hit moves the entry to the end.
  abbrev pub touch : String → CacheEntry T → Table (CacheEntry T) → Table (CacheEntry T)
  touch key entry cache = insert key entry (delete key cache)

  -- `read_memory` after its lookup.
  unfoldable pub read_entry : ℕ → String → Option (CacheEntry T) → Memory T → Option T × Memory T
  unfolding is_memory_entry_valid
  read_entry now key none m = (none, m)
  read_entry now key (some entry) m =
      if leb entry.expires_at now
      then (none, record m { cache = delete key m.cache })
      else if not (is_memory_entry_valid m.versions entry)
      then (none, record m { cache = delete key m.cache })
      else (entry.value, record m { cache = touch key entry m.cache })

  unfoldable pub read_memory : (now : ℕ) → (full_key : String) → Memory T → Option T × Memory T
  unfolding read_entry
  read_memory now full_key m = read_entry now full_key (lookup full_key m.cache) m

  unfoldable pub write_memory :
      (now bytes : ℕ)
      → (full_key : String) → Option T
      → (ttl_seconds : ℕ) → (tags : List String) → (tag_versions : Table ℕ) → Memory T
      → Memory T
  unfolding ttl_ms trim_memory_cache
  write_memory now bytes full_key value ttl_seconds tags tag_versions m =
      let entry : CacheEntry T = record {
        approximate_bytes = bytes;
        expires_at = now + ttl_ms ttl_seconds;
        tags = tags;
        tag_versions = tag_versions;
        value = value;
      } in
      record m { cache = trim_memory_cache (insert full_key entry m.cache) }
