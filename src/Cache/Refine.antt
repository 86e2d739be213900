-- ===== src/Cache/Refine.antt =====
-- The entries in memory against an ideal cache that forgets nothing: what the operations of
-- packages/cache/src/cache.ts do in process memory, as calls one after the other.
use saa_sweave.Prelude.{
  ℕ, ◌+◌, String, not, Option, none, some, List, [], ◌∷◌, ◌≡◌, ◌⊎◌, inl, inr, refl, arith, leb,
  Bool-cases, if◌then◌else◌, keep, All, All-keep, eq_iff,
}
use text.Mathlib.Text.{◌==◌ as str_eq}
use text.Mathlib.TextPositions.{eq_refl}
use saa_sweave.Prelude.Table.{Table, lookup, insert}
use saa_sweave.Cache.Memory.{
  CacheEntry, Memory, ttl_ms, delete, memory_bytes_used, trim_memory_cache, has_tag,
  invalidate_memory_tag, touch, is_memory_entry_valid, read_entry, read_memory, write_memory,
  current_versions,
}
use saa_sweave.Cache.Bounds.{
  IsFresh, HasDistinctKeys, IsValid, All-trim, read_memory-IsValid, write_memory-IsValid,
  invalidate-IsValid, delete-IsValid,
}
use saa_sweave.Cache.Ideal.{
  Call, step, run, Item, Ideal, drop_tagged, unexpired, ideal_step, ideal_run, read, write, remove,
  invalidate,
}

module _ {ℓ} {T : Type ℓ} where
  abbrev item_of : CacheEntry T → Item T
  item_of e = record { expires_at = e.expires_at; tags = e.tags; value = e.value }

  -- Every entry in memory is the ideal cache's.
  abbrev Holds : Ideal T → Table (CacheEntry T) → Type ℓ
  Holds ideal = All (λ e. ideal e.key ≡ some (item_of e.value))

  abbrev written : String → CacheEntry T → Ideal T → Ideal T
  written key entry ideal = λ k. if str_eq key k then some (item_of entry) else ideal k

  Holds-fresh :
      (key : String) (entry : CacheEntry T) (ideal : Ideal T) (entries : Table (CacheEntry T))
      → IsFresh key entries
      → Holds ideal entries
      → Holds (written key entry ideal) entries
  Holds-fresh key entry ideal [] fresh h = tt
  Holds-fresh key entry ideal (e ∷ entries) fresh h =
      (ground (arith, eq_iff key e.key), Holds-fresh key entry ideal entries fresh.1 h.1)

  Holds-insert :
      (key : String) (entry : CacheEntry T) (ideal : Ideal T) (entries : Table (CacheEntry T))
      → HasDistinctKeys entries
      → Holds ideal entries
      → Holds (written key entry ideal) (insert key entry entries)
  unfolding insert
  Holds-insert key entry ideal [] d h = (rw (eq_refl key) refl, tt)
  Holds-insert key entry ideal (e ∷ entries) d h = ground (
    arith,
    eq_iff e.key key,
    eq_iff key e.key,
    eq_refl key,
    Holds-insert key entry ideal entries d.1 h.1,
    Holds-fresh e.key entry ideal entries d.0 h.1,
  )

  Holds-lookup :
      (key : String) (ideal : Ideal T) (entries : Table (CacheEntry T)) {entry : CacheEntry T}
      → Holds ideal entries
      → lookup key entries ≡ some entry
      → ideal key ≡ some (item_of entry)
  unfolding lookup
  Holds-lookup key ideal [] h e = cc
  Holds-lookup key ideal (x ∷ entries) {entry} h e =
      ground (arith, eq_iff x.key key, Holds-lookup key ideal entries {entry = entry} h.1)

  Holds-delete :
      (key : String) (ideal : Ideal T) (entries : Table (CacheEntry T))
      → Holds ideal entries
      → Holds (λ k. if str_eq key k then none else ideal k) (delete key entries)
  Holds-delete key ideal [] h = tt
  Holds-delete key ideal (e ∷ entries) h =
      ground (arith, eq_iff key e.key, eq_iff e.key key, Holds-delete key ideal entries h.1)

  Holds-invalidate :
      (tag : String) (ideal : Ideal T) (entries : Table (CacheEntry T))
      → Holds ideal entries
      → Holds (λ k. drop_tagged tag (ideal k)) (keep (λ e. not (has_tag tag e)) entries)
  unfolding has_tag
  Holds-invalidate tag ideal [] h = tt
  Holds-invalidate tag ideal (e ∷ entries) h =
      ground (arith, Holds-invalidate tag ideal entries h.1)

  Holds-drop :
      (ideal : Ideal T) (key : String) (entries : Table (CacheEntry T))
      → Holds ideal entries
      → Holds ideal (delete key entries)
  Holds-drop ideal key entries h = All-keep (λ e. ideal e.key ≡ some (item_of e.value)) _ entries h

  Holds-trim :
      (ideal : Ideal T) (entries : Table (CacheEntry T))
      → Holds ideal entries
      → Holds ideal (trim_memory_cache entries)
  Holds-trim ideal entries h = All-trim (λ e. ideal e.key ≡ some (item_of e.value)) entries h

  Holds-insert_same :
      (key : String) (entry : CacheEntry T) (ideal : Ideal T) (entries : Table (CacheEntry T))
      → ideal key ≡ some (item_of entry)
      → Holds ideal entries
      → Holds ideal (insert key entry entries)
  unfolding insert
  Holds-insert_same key entry ideal [] e h = (e, tt)
  Holds-insert_same key entry ideal (x ∷ entries) e h =
      ground (arith, eq_iff x.key key, Holds-insert_same key entry ideal entries e h.1)

  Holds-touch :
      (key : String) (entry : CacheEntry T) (ideal : Ideal T) (entries : Table (CacheEntry T))
      → ideal key ≡ some (item_of entry)
      → Holds ideal entries
      → Holds ideal (touch key entry entries)
  Holds-touch key entry ideal entries e h =
      Holds-insert_same key entry ideal (delete key entries) e (Holds-drop ideal key entries h)

  -- An answer is none, or the ideal cache's.
  abbrev pub IsAnswer : Option T → Option T → Type ℓ
  IsAnswer got expected = (got ≡ none) ⊎ (got ≡ expected)

  read_entry-refines :
      (now : ℕ) (key : String) (found : Option (CacheEntry T)) (m : Memory T) (ideal : Ideal T)
      → lookup key m.cache ≡ found
      → Holds ideal m.cache
      → IsAnswer (read_entry now key found m).0 (unexpired now (ideal key))
        × Holds ideal (read_entry now key found m).1.cache
  unfolding read_entry
  read_entry-refines now key none m ideal hit h = (inl refl, h)
  read_entry-refines now key (some entry) m ideal hit h =
      let known = Holds-lookup key ideal m.cache h hit in
      let dropped = Holds-drop ideal key m.cache h in
      let moved = Holds-touch key entry ideal m.cache known h in
      elim (Bool-cases (leb entry.expires_at now)) [
        | inl old ↦ rw (known, old) (inl refl, dropped)
        | inr live ↦
            rw (known, live)
              (elim (Bool-cases (is_memory_entry_valid m.versions entry)) [
                | inl current ↦ rw current (inr refl, moved)
                | inr superseded ↦ rw superseded (inl refl, dropped)
              ])
      ]

  step-refines :
      (call : Call T) (m : Memory T) (ideal : Ideal T)
      → IsValid m
      → Holds ideal m.cache
      → IsAnswer (step call m).0 (ideal_step call ideal).0
        × Holds (ideal_step call ideal).1 (step call m).1.cache
        × IsValid (step call m).1
  unfolding step ideal_step
  step-refines (read now key) m ideal v h =
      let (answers, holds) = read_entry-refines now key (lookup key m.cache) m ideal refl h in
      unfold read_memory in (answers, holds, read_memory-IsValid now key m v)
  step-refines (write now bytes key value ttl_seconds tags) m ideal v h =
      let entry : CacheEntry T = record {
        approximate_bytes = bytes;
        expires_at = now + ttl_ms ttl_seconds;
        tags = tags;
        tag_versions = current_versions tags m.versions;
        value = value;
      } in
      (
        inl refl,
        unfold write_memory in
            Holds-trim (written key entry ideal) (insert key entry m.cache)
              (Holds-insert key entry ideal m.cache v.distinct h),
        write_memory-IsValid now bytes key value ttl_seconds tags (current_versions tags m.versions)
            m v,
      )
  step-refines (remove key) m ideal v h =
      (inl refl, Holds-delete key ideal m.cache h, delete-IsValid key m v)
  step-refines (invalidate tag) m ideal v h = (
    inl refl,
    unfold invalidate_memory_tag in
        Holds-trim (λ k. drop_tagged tag (ideal k)) (keep (λ e. not (has_tag tag e)) m.cache)
          (Holds-invalidate tag ideal m.cache h),
    invalidate-IsValid tag m v,
  )

  -- Answers one by one.
  pub data AreAnswers : List (Option T) → List (Option T) → Type ℓ where
    done : AreAnswers [] []
    next :
        {got expected : Option T} {more rest : List (Option T)}
        → IsAnswer got expected
        → AreAnswers more rest
        → AreAnswers (got ∷ more) (expected ∷ rest)

  run-refines :
      (calls : List (Call T)) (m : Memory T) (ideal : Ideal T)
      → IsValid m
      → Holds ideal m.cache
      → AreAnswers (run calls m) (ideal_run calls ideal)
  unfolding run ideal_run
  run-refines [] m ideal v h = done
  run-refines (call ∷ calls) m ideal v h =
      let (answers, holds, valid) = step-refines call m ideal v h in
      next answers (run-refines calls _ _ valid holds)

  abbrev pub empty_memory : Memory T
  empty_memory = record { cache = []; versions = [] }

  empty-IsValid : IsValid empty_memory
  unfolding memory_bytes_used
  empty-IsValid = record { distinct = tt; within = omega arith }

  -- In any sequence of calls from an empty memory, whatever the clock shows, every read answers
  -- either nothing or what the ideal cache answers: the last value written under the key, if it has
  -- not expired and has been neither deleted nor invalidated by one of its tags since.
  pub run_refines_ideal :
      (calls : List (Call T)) → AreAnswers (run calls empty_memory) (ideal_run calls (λ key. none))
  run_refines_ideal calls = run-refines calls empty_memory _ empty-IsValid tt

  -- The memory after the calls.
  unfoldable pub after : List (Call T) → Memory T → Memory T
  unfolding step
  after [] m = m
  after (call ∷ calls) m = after calls (step call m).1

  after-IsValid : (calls : List (Call T)) (m : Memory T) → IsValid m → IsValid (after calls m)
  unfolding after step
  after-IsValid [] m v = v
  after-IsValid (read now key ∷ calls) m v = after-IsValid calls _ (read_memory-IsValid now key m v)
  after-IsValid (write now bytes key value ttl_seconds tags ∷ calls) m v = after-IsValid calls _ (
      write_memory-IsValid now bytes key value ttl_seconds tags (current_versions tags m.versions) m
        v)
  after-IsValid (remove key ∷ calls) m v = after-IsValid calls _ (delete-IsValid key m v)
  after-IsValid (invalidate tag ∷ calls) m v = after-IsValid calls _ (invalidate-IsValid tag m v)

  -- After any sequence of calls from an empty memory every key has one entry, and there are no more
  -- than 1,000 entries and 8 MiB of values.
  pub calls_stay_within : (calls : List (Call T)) → IsValid (after calls empty_memory)
  calls_stay_within calls = after-IsValid calls empty_memory empty-IsValid
