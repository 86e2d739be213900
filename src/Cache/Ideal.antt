-- ===== src/Cache/Ideal.antt =====
-- Calls of the operations of packages/cache/src/cache.ts in process memory, one after the other, and an
-- ideal cache that forgets nothing.
use saa_sweave.Prelude.{ℕ, ◌+◌, String, Option, none, some, List, [], ◌∷◌, leb, if◌then◌else◌}
use text.Mathlib.Text.{◌==◌ as str_eq}
use saa_sweave.Cache.Memory.{
  Memory, ttl_ms, includes_tag, delete, invalidate_memory_tag, read_memory, write_memory,
  current_versions,
}

pub data Call {ℓ} (T : Type ℓ) : Type ℓ where
  read : (now : ℕ) (key : String) → Call T
  write :
      (now bytes : ℕ) (key : String) (value : Option T) (ttl_seconds : ℕ) (tags : List String)
      → Call T
  remove : (key : String) → Call T
  invalidate : (tag : String) → Call T

-- What a call answers (only a read answers a value), and the memory after it.
unfoldable pub step {ℓ} : {T : Type ℓ} → Call T → Memory T → Option T × Memory T
step (read now key) m = read_memory now key m
step (write now bytes key value ttl_seconds tags) m =
    (none, write_memory now bytes key value ttl_seconds tags (current_versions tags m.versions) m)
step (remove key) m = (none, record m { cache = delete key m.cache })
step (invalidate tag) m = (none, (invalidate_memory_tag tag m).1)

unfoldable pub run {ℓ} : {T : Type ℓ} → List (Call T) → Memory T → List (Option T)
unfolding step
run [] m = []
run (call ∷ calls) m = let (answer, m') = step call m in answer ∷ run calls m'

pub record Item {ℓ} (T : Type ℓ) : Type ℓ where
  pub expires_at : ℕ
  pub tags : List String
  pub value : Option T

-- The last value written under each key and neither deleted nor invalidated since.
abbrev pub Ideal {ℓ} : Type ℓ → Type ℓ
Ideal T = String → Option (Item T)

module _ {ℓ} {T : Type ℓ} where
  abbrev pub drop_tagged : String → Option (Item T) → Option (Item T)
  drop_tagged tag none = none
  drop_tagged tag (some item) = if includes_tag tag item.tags then none else some item

  abbrev pub unexpired : ℕ → Option (Item T) → Option T
  unexpired now none = none
  unexpired now (some item) = if leb item.expires_at now then none else item.value

  unfoldable pub ideal_step : Call T → Ideal T → Option T × Ideal T
  ideal_step (read now key) ideal = (unexpired now (ideal key), ideal)
  ideal_step (write now bytes key value ttl_seconds tags) ideal = (
    none,
    λ k.
        if str_eq key k
        then some (record { expires_at = now + ttl_ms ttl_seconds; tags = tags; value = value })
        else ideal k,
  )
  ideal_step (remove key) ideal = (none, λ k. if str_eq key k then none else ideal k)
  ideal_step (invalidate tag) ideal = (none, λ k. drop_tagged tag (ideal k))

  unfoldable pub ideal_run : List (Call T) → Ideal T → List (Option T)
  unfolding ideal_step
  ideal_run [] ideal = []
  ideal_run (call ∷ calls) ideal =
      let (answer, ideal') = ideal_step call ideal in answer ∷ ideal_run calls ideal'
