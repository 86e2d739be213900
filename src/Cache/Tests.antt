-- ===== src/Cache/Tests.antt =====
-- Tests of the keys and of the entries in memory, and the theorems at concrete inputs.
use saa_sweave.Prelude.{
  ℕ, ◌+◌, String, none, some, List, [], ◌∷◌, ◌≡◌, ◌≢◌, refl, sym, arith, eq_iff, ltb, if◌then◌else◌,
  All,
}
use saa_sweave.Prelude.Table.{Entry, Table, lookup, insert}
use saa_sweave.Prelude.Text.{trim, joined}
use saa_sweave.Cache.Unlink.{concat, chunks, IsChunk, chunks_send_all}
use saa_sweave.Cache.Keys.{normalize_part, tag_version_key}
use saa_sweave.Cache.Memory.{
  CacheEntry, Memory, memory_bytes_used, ttl_ms, current_versions, invalidate_memory_tag,
  read_memory, write_memory,
}
use saa_sweave.Cache.Bounds.{IsValid}
use saa_sweave.Cache.Reads.{
  read_memory-write_memory, rewritten_oldest_is_dropped, read_memory-invalidate, is_tagged,
}
use saa_sweave.Cache.Refine.{after, empty_memory, AreAnswers, run_refines_ideal, calls_stay_within}
use saa_sweave.Cache.Ideal.{Call, read, write, remove, invalidate, run, ideal_run}

normalized : normalize_part " a  b/c:: " ≡ "a:b:c"
unfolding normalize_part trim
normalized = refl

version_key_of_tag : tag_version_key "ssw" "org/7" ≡ "ssw:tag-version:org:7"
unfolding tag_version_key trim joined
version_key_of_tag = refl

abbrev calls : List (Call ℕ)
calls =
    write 0 1 "a" (some 7) 60 ("t" ∷ [])
    ∷ read 1000 "a"
    ∷ write 2000 1 "a" (some 8) 60 []
    ∷ invalidate "t"
    ∷ read 3000 "a"
    ∷ remove "a"
    ∷ read 4000 "a"
    ∷ []

run_of_calls : run calls empty_memory ≡ none ∷ some 7 ∷ none ∷ none ∷ some 8 ∷ none ∷ none ∷ []
unfolding run invalidate_memory_tag read_memory write_memory current_versions lookup insert
run_of_calls = refl

run_refines_ideal_example : AreAnswers (run calls empty_memory) (ideal_run calls (λ key. none))
run_refines_ideal_example = run_refines_ideal calls

calls_stay_within_test : IsValid (after calls empty_memory)
calls_stay_within_test = calls_stay_within calls

read_memory_test :
    (read_memory 4000 "a" (
      write_memory 1000 3 "a"
        (some 7)
        5
        ("t" ∷ [])
        (current_versions ("t" ∷ []) [])
        (empty_memory {T = ℕ}))).0
    ≡ (if ltb 4000 (1000 + ttl_ms 5) then some 7 else none)
unfolding lookup
read_memory_test =
    read_memory-write_memory 1000 4000 3 "a" (some 7) 5 ("t" ∷ []) empty_memory refl (omega arith)

-- An entry of a given size, without tags.
abbrev pub sized : String → ℕ → Entry (CacheEntry ℕ)
sized key bytes = record {
  key = key;
  value = record {
    approximate_bytes = bytes;
    expires_at = 9000;
    tags = "t" ∷ [];
    tag_versions = [];
    value = some 1;
  };
}

abbrev pub two_entries : Table (CacheEntry ℕ)
two_entries = sized "a" 100 ∷ sized "b" 5000000 ∷ []

abbrev pub two_memory : Memory ℕ
two_memory = record { cache = two_entries; versions = [] }

a-ne-b : ◌≢◌ {A = String} "a" "b"
a-ne-b e = cc (sym ((eq_iff "a" "b").1 e))

two_memory-IsValid : IsValid two_memory
unfolding memory_bytes_used
two_memory-IsValid = record { distinct = ((a-ne-b, tt), (tt, tt)); within = omega arith }

small_entry_rewritten :
    let m' = write_memory 0 4000000 "a" (some 2) 60 [] [] two_memory in
    (m'.cache ≡ sized "b" 5000000 ∷ []) × (lookup "a" m'.cache ≡ none)
unfolding memory_bytes_used
small_entry_rewritten =
    rewritten_oldest_is_dropped 0 4000000 (some 2) 60 [] [] [] (sized "a" 100)
      (sized "b" 5000000 ∷ []) two_memory-IsValid (omega arith)

tagged_entry_invalidated : (read_memory 100 "a" (invalidate_memory_tag "t" two_memory).1).0 ≡ (
    if is_tagged "t" (lookup "a" two_memory.cache)
    then none
    else (read_memory 100 "a" two_memory).0)
tagged_entry_invalidated = read_memory-invalidate 100 "t" "a" two_memory two_memory-IsValid

three_keys_sent :
    (concat (chunks 3 ("a" ∷ "b" ∷ "c" ∷ [])) ≡ "a" ∷ "b" ∷ "c" ∷ [])
    × All IsChunk (chunks 3 ("a" ∷ "b" ∷ "c" ∷ []))
three_keys_sent = chunks_send_all 3 ("a" ∷ "b" ∷ "c" ∷ []) (omega arith)
