-- ===== src/Cache/Unlink.antt =====
-- `cacheUnlinkKeys` of packages/cache/src/cache.ts.
use saa_sweave.Prelude.{
  ℕ, zero, suc, ◌+◌, ◌-◌, ◌≤◌, ◌<◌, String, false, Option, none, some, List, [], ◌∷◌, ◌++◌, ◌≡◌,
  refl, ap, arith, ltb, if◌then◌else◌, length, take, length-take, ltb→lt, All, Bool-cases, inl, inr,
}
use saa_sweave.Cache.Client.{RedisClient, Settings, redis_or_null}

abbrev pub tag_unlink_chunk_size : ℕ
tag_unlink_chunk_size = 250

abbrev pub drop {ℓ} : {A : Type ℓ} → ℕ → List A → List A
drop zero xs = xs
drop (suc n) [] = []
drop (suc n) (x ∷ xs) = drop n xs

-- The slices that the loop takes, one in each round; fuel for as many rounds as there are keys is
-- enough.
unfoldable pub chunks : ℕ → List String → List (List String)
chunks zero keys = []
chunks (suc fuel) keys =
    let rest = take tag_unlink_chunk_size keys ∷ chunks fuel (drop tag_unlink_chunk_size keys) in
    if ltb 0 (length keys) then rest else []

module _ {S : Type 0} (client : RedisClient S) (settings : Settings) where
  abbrev unlinked : Option ℕ → (ℕ → S → Option ℕ × S) → ℕ → S → Option ℕ × S
  unlinked none next removed s = (none, s)
  unlinked (some n) next removed s = next (removed + n) s

  unfoldable pub unlink_all : List (List String) → ℕ → S → Option ℕ × S
  unlink_all [] removed s = (some removed, s)
  unlink_all (chunk ∷ rest) removed s =
      let (answer, s') = client.unlink chunk s in unlinked answer (unlink_all rest) removed s'

  -- `none` means that it throws.
  unfoldable pub cache_unlink_keys : List String → S → Option ℕ × S
  unfolding unlink_all chunks redis_or_null
  cache_unlink_keys [] s = (some 0, (redis_or_null client settings s).1)
  cache_unlink_keys (key ∷ keys) s =
      let (available, s') = redis_or_null client settings s in
      let all = unlink_all (chunks (length (key ∷ keys)) (key ∷ keys)) 0 s' in
      if available then all else (some 0, s')

unfoldable pub concat : List (List String) → List String
concat [] = []
concat (xs ∷ xss) = xs ++ concat xss

take-drop : (n : ℕ) (keys : List String) → take n keys ++ drop n keys ≡ keys
take-drop zero keys = refl
take-drop (suc n) [] = refl
take-drop (suc n) (k ∷ keys) = ap (◌∷◌ k) (take-drop n keys)

length-drop : (n : ℕ) (keys : List String) → length (drop n keys) ≡ length keys - n
length-drop zero keys = omega arith
length-drop (suc n) [] = omega arith
length-drop (suc n) (k ∷ keys) = omega (arith, length-drop n keys)

-- What a round sends: one key at least, and no more than fit.
abbrev pub IsChunk : List String → Type 0
IsChunk chunk = (0 < length chunk) × (length chunk ≤ tag_unlink_chunk_size)

take-IsChunk : (keys : List String) → 0 < length keys → IsChunk (take tag_unlink_chunk_size keys)
take-IsChunk keys h = omega (arith, length-take tag_unlink_chunk_size keys)

nil_of_length : (keys : List String) → ltb 0 (length keys) ≡ false → [] ≡ keys
nil_of_length [] h = refl
nil_of_length (k ∷ keys) h = absurd (ground arith)

-- With fuel for as many rounds as there are keys the loop sends every key once, in order, in chunks
-- of one to 250 keys.
pub chunks_send_all :
    (fuel : ℕ) (keys : List String)
    → length keys ≤ fuel
    → (concat (chunks fuel keys) ≡ keys) × All IsChunk (chunks fuel keys)
unfolding chunks concat
chunks_send_all zero [] h = (refl, tt)
chunks_send_all zero (k ∷ keys) h = absurd (omega arith)
chunks_send_all (suc fuel) keys h = elim (Bool-cases (ltb 0 (length keys))) [
  | inl more ↦
      let (whole, fit) =
        chunks_send_all fuel (drop tag_unlink_chunk_size keys)
          (omega (arith, length-drop tag_unlink_chunk_size keys, ltb→lt 0 (length keys) more)) in
      rw more (
        rw whole (take-drop tag_unlink_chunk_size keys),
        (take-IsChunk keys (ltb→lt 0 (length keys) more), fit),
      )
  | inr done ↦ rw done (nil_of_length keys done, tt)
]
