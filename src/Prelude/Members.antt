-- ===== src/Prelude/Members.antt =====
-- Where the rows of a query's answer, or of an updated table, come from.
use saa_sweave.Prelude.Tests.{Bool-cases}
use saa_sweave.Prelude.Lists.{take, keep}
use saa_sweave.Prelude.Sql.{update_where, first_where}
use Prim.Native.Nat.{ℕ, zero, suc}
use mathlib.Core.Path.{◌≡◌, refl, sym}
use mathlib.Core.Logic.{◌⊎◌, inl, inr}
use mathlib.Core.Bool.{Bool, true}
use mathlib.Core.Option.{some}
use mathlib.Core.List.{List, [], ◌∷◌, Memᴰ}
use mathlib.Core.List.Memᴰ
use native.Mathlib.Omega.{arith}

module _ {ℓ} {A : Type ℓ} where
  pub mem_of_first_where :
      (p : A → Bool) (xs : List A) {x : A} → first_where p xs ≡ some x → Memᴰ x xs × (p x ≡ true)
  mem_of_first_where p [] h = cc
  mem_of_first_where p (y ∷ xs) {x} h = elim (Bool-cases (p y)) [
    | inl e ↦ let same : y ≡ x = ground (arith, rw e at h) in (Memᴰ.head (sym same), rw (← same) e)
    | inr e ↦ let (m, q) = mem_of_first_where p xs (rw e at h) in (Memᴰ.tail m, q)
  ]

  pub mem_of_keep :
      (p : A → Bool) (xs : List A) {x : A} → Memᴰ x (keep p xs) → Memᴰ x xs × (p x ≡ true)
  mem_of_keep p [] m = absurd (Memᴰ.not-nil m)
  mem_of_keep p (y ∷ xs) {x} m = elim (Bool-cases (p y)) [
    | inl e ↦ elim (Memᴰ.cases_cons (rw e at m)) [
      | inl same ↦ (Memᴰ.head same, rw same e)
      | inr m' ↦ let (n, q) = mem_of_keep p xs m' in (Memᴰ.tail n, q)
    ]
    | inr e ↦ let (n, q) = mem_of_keep p xs (rw e at m) in (Memᴰ.tail n, q)
  ]

  pub mem_keep : (p : A → Bool) {x : A} {xs : List A} → Memᴰ x xs → p x ≡ true → Memᴰ x (keep p xs)
  mem_keep p (Memᴰ.head e) h = rw (rw e at h) (Memᴰ.head e)
  mem_keep p (Memᴰ.tail {x = y} m) h = elim (Bool-cases (p y)) [
    | inl e ↦ rw e (Memᴰ.tail (mem_keep p m h))
    | inr e ↦ rw e (mem_keep p m h)
  ]

  pub mem_of_take : (n : ℕ) (xs : List A) {x : A} → Memᴰ x (take n xs) → Memᴰ x xs
  mem_of_take zero xs m = absurd (Memᴰ.not-nil m)
  mem_of_take (suc n) [] m = m
  mem_of_take (suc n) (y ∷ xs) m = elim (Memᴰ.cases_cons m) [
    | inl same ↦ Memᴰ.head same
    | inr m' ↦ Memᴰ.tail (mem_of_take n xs m')
  ]

  -- A row of the updated table is an old one, or a selected one after the change.
  pub mem_of_update_where :
      (p : A → Bool) (f : A → A) (xs : List A) {y : A}
      → Memᴰ y (update_where p f xs)
      → (x : A) × Memᴰ x xs × ((y ≡ x) ⊎ ((y ≡ f x) × (p x ≡ true)))
  mem_of_update_where p f [] m = absurd (Memᴰ.not-nil m)
  mem_of_update_where p f (x ∷ xs) m = elim (Memᴰ.cases_cons m) [
    | inl same ↦ elim (Bool-cases (p x)) [
      | inl e ↦ (x, Memᴰ.head refl, inr (rw e at same, e))
      | inr e ↦ (x, Memᴰ.head refl, inl (rw e at same))
    ]
    | inr m' ↦ let (x', n, old) = mem_of_update_where p f xs m' in (x', Memᴰ.tail n, old)
  ]
