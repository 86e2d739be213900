-- ===== src/Media/Normal.antt =====
-- `normalizeMediaKey` of packages/core/src/media-asset/utils.ts, applied again.
use saa_sweave.Prelude.{
  ℕ, String, Bool, false, some, ◌≡◌, ◌==◌, refl, subst, ap, ◌∙◌, inl, inr, arith, any, Bool-cases,
}
use Prim.Native.Char.{code}
use saa_sweave.Prelude.Text.{trim, trim_start, trim_end, is_space, split, includes, is_empty}
use saa_sweave.Media.Keys.{
  with_slashes, without_leading_slashes, is_bad_segment, normalize_media_key,
}

abbrev starts_with_space : String → Bool
starts_with_space String.[] = false
starts_with_space (String.◌∷◌ c s) = is_space (code c)

trim_start-starts_with_space : (s : String) → starts_with_space (trim_start s) ≡ false
unfolding trim_start
trim_start-starts_with_space String.[] = refl
trim_start-starts_with_space (String.◌∷◌ c s) = ground (arith, trim_start-starts_with_space s)

trim_end-starts_with_space :
    (s : String) → starts_with_space s ≡ false → starts_with_space (trim_end s) ≡ false
unfolding trim_end
trim_end-starts_with_space String.[] h = refl
trim_end-starts_with_space (String.◌∷◌ c s) h = ground (arith, h)

trim_start_id : (s : String) → starts_with_space s ≡ false → trim_start s ≡ s
unfolding trim_start
trim_start_id String.[] h = refl
trim_start_id (String.◌∷◌ c s) h = ground (arith, h)

trim_end_twice : (s : String) → trim_end (trim_end s) ≡ trim_end s
unfolding trim_end
trim_end_twice String.[] = refl
trim_end_twice (String.◌∷◌ c s) = ground (arith, trim_end_twice s)

trim_twice : (s : String) → trim (trim s) ≡ trim s
unfolding trim
trim_twice s =
    ap trim_end (
      trim_start_id (trim_end (trim_start s))
        (trim_end-starts_with_space (trim_start s) (trim_start-starts_with_space s)))
    ∙ trim_end_twice (trim_start s)

module _ (n : ℕ) where
  includes-trim_start : (s : String) → includes n s ≡ false → includes n (trim_start s) ≡ false
  unfolding trim_start includes
  includes-trim_start String.[] h = refl
  includes-trim_start (String.◌∷◌ c s) h = ground (arith, includes-trim_start s, h)

  includes-trim_end : (s : String) → includes n s ≡ false → includes n (trim_end s) ≡ false
  unfolding trim_end includes
  includes-trim_end String.[] h = refl
  includes-trim_end (String.◌∷◌ c s) h = ground (arith, includes-trim_end s, h)

  includes-trim : (s : String) → includes n s ≡ false → includes n (trim s) ≡ false
  unfolding trim
  includes-trim s h = includes-trim_end (trim_start s) (includes-trim_start s h)

  includes-without_leading_slashes :
      (s : String) → includes n s ≡ false → includes n (without_leading_slashes s) ≡ false
  unfolding without_leading_slashes includes
  includes-without_leading_slashes String.[] h = refl
  includes-without_leading_slashes (String.◌∷◌ c s) h =
      ground (arith, includes-without_leading_slashes s, h)

includes-with_slashes : (s : String) → includes 92 (with_slashes s) ≡ false
unfolding with_slashes includes
includes-with_slashes String.[] = refl
includes-with_slashes (String.◌∷◌ c s) = elim (Bool-cases (code c == 92)) [
  | inl e ↦ rw e (includes-with_slashes s)
  | inr e ↦ rw e (rw e (includes-with_slashes s))
]

with_slashes_id : (s : String) → includes 92 s ≡ false → with_slashes s ≡ s
unfolding with_slashes includes
with_slashes_id String.[] h = refl
with_slashes_id (String.◌∷◌ c s) h = ground (arith, with_slashes_id s, h)

without_leading_slashes_id :
    (s : String) → any is_bad_segment (split b'/' s) ≡ false → without_leading_slashes s ≡ s
unfolding without_leading_slashes split
without_leading_slashes_id String.[] h = refl
without_leading_slashes_id (String.◌∷◌ c s) h = ground (arith, h)

-- A key without backslashes and bad segments that is trimmed.
normalize_media_key_id :
    (s : String)
    → includes 92 s ≡ false
    → any is_bad_segment (split b'/' s) ≡ false
    → trim s ≡ s
    → is_empty s ≡ false
    → includes 0 s ≡ false
    → normalize_media_key s ≡ some s
unfolding normalize_media_key
normalize_media_key_id s plain good trimmed full valid =
    let e = with_slashes_id s plain in
    let f = without_leading_slashes_id s good in
    rw e (rw f (rw trimmed (ground (arith, good, full, valid))))

-- A key that normalizeMediaKey has normalized is left as it is when it is normalized again.
pub normalize_media_key_again :
    (key normalized : String)
    → normalize_media_key key ≡ some normalized
    → normalize_media_key normalized ≡ some normalized
unfolding normalize_media_key
normalize_media_key_again key normalized h =
    let x = trim (without_leading_slashes (with_slashes key)) in
    let plain =
      includes-trim 92 (without_leading_slashes (with_slashes key))
        (includes-without_leading_slashes 92 (with_slashes key) (includes-with_slashes key)) in
    let same : x ≡ normalized = ground (arith, h) in
    subst (λ t. normalize_media_key t ≡ some t) same
      (normalize_media_key_id x plain (ground (arith, h))
        (trim_twice (without_leading_slashes (with_slashes key))) (ground (arith, h))
        (ground (arith, h)))
