-- ===== src/Cache/Bounds.antt =====
-- The invariant of the entries in memory: every key once, and no more than the limits allow.
use saa_sweave.Prelude.{
  ℕ, ◌+◌, ◌≤◌, String, Bool, false, not, Option, none, some, List, [], ◌∷◌, ◌++◌, ◌≡◌, ◌≢◌, refl,
  arith, Bool-cases, keep, length, length-append, All, All-keep, eq_iff, inl, inr,
}
use text.Mathlib.Text.{◌==◌ as str_eq}
use text.Mathlib.TextPositions.{eq_refl}
use saa_sweave.Prelude.Table.{Entry, Table, lookup, insert}
use saa_sweave.Cache.Memory.{
  CacheEntry, Memory, max_memory_cache_entries, max_memory_cache_bytes, delete, memory_bytes_used,
  is_over, trim_memory_cache, invalidate_memory_tag, touch, read_entry, read_memory, write_memory,
}

module _ {ℓ} {T : Type ℓ} where
  -- No entry has the key.
  abbrev pub IsFresh : String → Table (CacheEntry T) → Type 0
  IsFresh key = All (λ e. key ≢ e.key)

  abbrev pub HasDistinctKeys : Table (CacheEntry T) → Type 0
  HasDistinctKeys [] = Unit
  HasDistinctKeys (e ∷ entries) = IsFresh e.key entries × HasDistinctKeys entries

  abbrev pub IsWithin : Table (CacheEntry T) → Type 0
  IsWithin entries =
      (length entries ≤ max_memory_cache_entries)
      × (memory_bytes_used entries ≤ max_memory_cache_bytes)

  pub record IsValid (m : Memory T) : Type 0 where
    pub distinct : HasDistinctKeys m.cache
    pub within : IsWithin m.cache

  pub is_over-IsWithin :
      (entries : Table (CacheEntry T)) → is_over entries ≡ false → IsWithin entries
  unfolding is_over
  is_over-IsWithin entries h = ground arith

  pub trim-IsWithin : (entries : Table (CacheEntry T)) → IsWithin (trim_memory_cache entries)
  unfolding trim_memory_cache
  trim-IsWithin [] = ground arith
  trim-IsWithin (e ∷ entries) = elim (Bool-cases (is_over (e ∷ entries))) [
    | inl over ↦ rw over (trim-IsWithin entries)
    | inr fits ↦ rw fits (is_over-IsWithin (e ∷ entries) fits)
  ]

  pub trim_of_within :
      (entries : Table (CacheEntry T)) → IsWithin entries → trim_memory_cache entries ≡ entries
  unfolding trim_memory_cache
  trim_of_within [] h = refl
  trim_of_within (e ∷ entries) h = ground arith

  module _ {κ} (P : Entry (CacheEntry T) → Type κ) where
    pub All-trim :
        (entries : Table (CacheEntry T)) → All P entries → All P (trim_memory_cache entries)
    unfolding trim_memory_cache
    All-trim [] h = tt
    All-trim (e ∷ entries) h = ground (arith, All-trim entries h.1)

  trim-HasDistinctKeys :
      (entries : Table (CacheEntry T))
      → HasDistinctKeys entries
      → HasDistinctKeys (trim_memory_cache entries)
  unfolding trim_memory_cache
  trim-HasDistinctKeys [] h = tt
  trim-HasDistinctKeys (e ∷ entries) h = ground (arith, trim-HasDistinctKeys entries h.1)

  pub keep-HasDistinctKeys :
      (p : Entry (CacheEntry T) → Bool) (entries : Table (CacheEntry T))
      → HasDistinctKeys entries
      → HasDistinctKeys (keep p entries)
  keep-HasDistinctKeys p [] h = tt
  keep-HasDistinctKeys p (e ∷ entries) h =
      ground
        (arith, keep-HasDistinctKeys p entries h.1, All-keep (λ f. e.key ≢ f.key) p entries h.0)

  insert-IsFresh :
      (key other : String) (value : CacheEntry T) (entries : Table (CacheEntry T))
      → other ≢ key
      → IsFresh other entries
      → IsFresh other (insert key value entries)
  unfolding insert
  insert-IsFresh key other value [] h fresh = (h, tt)
  insert-IsFresh key other value (e ∷ entries) h fresh =
      ground (arith, insert-IsFresh key other value entries h fresh.1)

  pub insert-HasDistinctKeys :
      (key : String) (value : CacheEntry T) (entries : Table (CacheEntry T))
      → HasDistinctKeys entries
      → HasDistinctKeys (insert key value entries)
  unfolding insert
  insert-HasDistinctKeys key value [] h = (tt, tt)
  insert-HasDistinctKeys key value (e ∷ entries) h = elim (Bool-cases (str_eq e.key key)) [
    | inl same ↦ rw same h
    | inr other ↦ rw other (
      insert-IsFresh key e.key value entries (ground (arith, eq_iff e.key key)) h.0,
      insert-HasDistinctKeys key value entries h.1,
    )
  ]

  pub delete-IsFresh :
      (key : String) (entries : Table (CacheEntry T)) → IsFresh key (delete key entries)
  delete-IsFresh key [] = tt
  delete-IsFresh key (e ∷ entries) = ground (arith, delete-IsFresh key entries, eq_refl key)

  -- A new key goes to the end.
  pub insert_fresh :
      (key : String) (value : CacheEntry T) (entries : Table (CacheEntry T))
      → IsFresh key entries
      → insert key value entries ≡ entries ++ record { key = key; value = value } ∷ []
  unfolding insert
  insert_fresh key value [] h = refl
  insert_fresh key value (e ∷ entries) h =
      ground (arith, eq_iff e.key key, insert_fresh key value entries h.1)

  bytes-append :
      (xs ys : Table (CacheEntry T))
      → memory_bytes_used (xs ++ ys) ≡ memory_bytes_used xs + memory_bytes_used ys
  unfolding memory_bytes_used
  bytes-append [] ys = omega arith
  bytes-append (x ∷ xs) ys = omega (arith, bytes-append xs ys)

  pub keep_le :
      (p : Entry (CacheEntry T) → Bool) (entries : Table (CacheEntry T))
      → (length (keep p entries) ≤ length entries)
        × (memory_bytes_used (keep p entries) ≤ memory_bytes_used entries)
  unfolding memory_bytes_used
  keep_le p [] = omega arith
  keep_le p (e ∷ entries) = ground (arith, keep_le p entries)

  pub keep-IsWithin :
      (p : Entry (CacheEntry T) → Bool) (entries : Table (CacheEntry T))
      → IsWithin entries
      → IsWithin (keep p entries)
  keep-IsWithin p entries h = omega (arith, keep_le p entries)

  delete_of_hit :
      (key : String) (entry : CacheEntry T) (entries : Table (CacheEntry T))
      → lookup key entries ≡ some entry
      → (length (delete key entries) + 1 ≤ length entries)
        × (memory_bytes_used (delete key entries) + entry.approximate_bytes
            ≤ memory_bytes_used entries)
  unfolding lookup memory_bytes_used
  delete_of_hit key entry [] h = cc
  delete_of_hit key entry (e ∷ entries) h =
      ground (arith, delete_of_hit key entry entries, keep_le (λ f. not (str_eq f.key key)) entries)

  touch-IsWithin :
      (key : String) (entry : CacheEntry T) (entries : Table (CacheEntry T))
      → lookup key entries ≡ some entry
      → IsWithin entries
      → IsWithin (touch key entry entries)
  unfolding memory_bytes_used
  touch-IsWithin key entry entries hit h =
      let added : Table (CacheEntry T) = record { key = key; value = entry } ∷ [] in
      rw (insert_fresh key entry (delete key entries) (delete-IsFresh key entries)) (
        omega (
          arith,
          delete_of_hit key entry entries hit,
          length-append (delete key entries) added,
          bytes-append (delete key entries) added,
        ))

  pub delete-IsValid :
      (key : String) (m : Memory T) → IsValid m → IsValid (record m { cache = delete key m.cache })
  delete-IsValid key m v = record {
    distinct = keep-HasDistinctKeys _ m.cache v.distinct;
    within = keep-IsWithin _ m.cache v.within;
  }

  touch-IsValid :
      (key : String) (entry : CacheEntry T) (m : Memory T)
      → lookup key m.cache ≡ some entry
      → IsValid m
      → IsValid (record m { cache = touch key entry m.cache })
  touch-IsValid key entry m hit v = record {
    distinct = insert-HasDistinctKeys key entry _ (keep-HasDistinctKeys _ m.cache v.distinct);
    within = touch-IsWithin key entry m.cache hit v.within;
  }

  read_entry-IsValid :
      (now : ℕ) (key : String) (found : Option (CacheEntry T)) (m : Memory T)
      → lookup key m.cache ≡ found
      → IsValid m
      → IsValid (read_entry now key found m).1
  unfolding read_entry
  read_entry-IsValid now key none m hit v = v
  read_entry-IsValid now key (some entry) m hit v =
      ground (arith, delete-IsValid key m v, touch-IsValid key entry m hit v)

  pub read_memory-IsValid :
      (now : ℕ) (key : String) (m : Memory T) → IsValid m → IsValid (read_memory now key m).1
  unfolding read_memory
  read_memory-IsValid now key m v = read_entry-IsValid now key _ m refl v

  trim-IsValid :
      (entries : Table (CacheEntry T)) (versions : Table ℕ)
      → HasDistinctKeys entries
      → IsValid (record { cache = trim_memory_cache entries; versions = versions })
  trim-IsValid entries versions h = record {
    distinct = trim-HasDistinctKeys entries h;
    within = trim-IsWithin entries;
  }

  pub write_memory-IsValid :
      (now bytes : ℕ) (key : String) (value : Option T) (ttl : ℕ) (tags : List String)
      (versions : Table ℕ) (m : Memory T)
      → IsValid m
      → IsValid (write_memory now bytes key value ttl tags versions m)
  unfolding write_memory
  write_memory-IsValid now bytes key value ttl tags versions m v =
      trim-IsValid _ _ (insert-HasDistinctKeys key _ m.cache v.distinct)

  pub invalidate-IsValid :
      (tag : String) (m : Memory T) → IsValid m → IsValid (invalidate_memory_tag tag m).1
  unfolding invalidate_memory_tag
  invalidate-IsValid tag m v = trim-IsValid _ _ (keep-HasDistinctKeys _ m.cache v.distinct)
