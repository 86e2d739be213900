-- ===== src/Cache/Tags.antt =====
-- Lists of tags and the tables that are made from them.
use saa_sweave.Prelude.{
  String, Bool, true, false, ◌||◌, List, [], ◌∷◌, ◌≡◌, refl, arith, any, all, map, All, eq_iff,
  subst, Bool-cases, inl, inr,
}
use text.Mathlib.Text.{◌==◌ as str_eq}
use text.Mathlib.TextPositions.{eq_refl}
use saa_sweave.Prelude.Table.{Table, insert}
use saa_sweave.Cache.Memory.{includes_tag}

pub all_of_includes :
    (p : String → Bool) (tags : List String)
    → ((tag : String) → includes_tag tag tags ≡ true → p tag ≡ true)
    → all p tags ≡ true
unfolding includes_tag
all_of_includes p [] h = refl
all_of_includes p (t ∷ tags) h =
    rw (h t (rw (eq_refl t) refl)) (all_of_includes p tags (λ tag e. h tag (ground arith)))

pub none_of_includes :
    (p : String → Bool) (tags : List String)
    → ((tag : String) → includes_tag tag tags ≡ true → p tag ≡ false)
    → any p tags ≡ false
unfolding includes_tag
none_of_includes p [] h = refl
none_of_includes p (t ∷ tags) h =
    rw (h t (rw (eq_refl t) refl)) (none_of_includes p tags (λ tag e. h tag (ground arith)))

pub any_of_includes :
    (p : String → Bool) (tag : String) (tags : List String)
    → includes_tag tag tags ≡ true
    → p tag ≡ true
    → any p tags ≡ true
unfolding includes_tag
any_of_includes p tag [] h e = cc
any_of_includes p tag (t ∷ tags) h e = elim (Bool-cases (str_eq t tag)) [
  | inl same ↦ rw ((eq_iff t tag).0 same, e) refl
  | inr other ↦ ground (arith, any_of_includes p tag tags)
]

pub All_of_includes {ℓ} :
    (P : String → Type ℓ) (tag : String) (tags : List String)
    → All P tags
    → includes_tag tag tags ≡ true
    → P tag
unfolding includes_tag
All_of_includes P tag [] h e = absurd (cc)
All_of_includes P tag (t ∷ tags) h e = elim (Bool-cases (str_eq t tag)) [
  | inl same ↦ subst P ((eq_iff t tag).0 same) h.0
  | inr other ↦ All_of_includes P tag tags h.1 (rw other at e)
]

abbrev pub keys {ℓ} : {V : Type ℓ} → Table V → List String
keys = map (λ e. e.key)

pub keys-insert {ℓ} :
    {V : Type ℓ} (tag key : String) (x : V) (entries : Table V)
    → includes_tag tag (keys (insert key x entries))
      ≡ (str_eq key tag || includes_tag tag (keys entries))
unfolding includes_tag insert
keys-insert tag key x [] = refl
keys-insert tag key x (e ∷ entries) =
    ground (arith, eq_iff e.key key, keys-insert tag key x entries)
