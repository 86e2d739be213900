-- ===== src/Prelude/Sql.antt =====
-- Tables as lists of rows, and what the queries of the program do with them: WHERE as a test,
-- UPDATE and DELETE with RETURNING, ORDER BY as a stable sort, LIMIT as `take`. Ids are only
-- compared, so a table that is keyed by an id the program draws at random has numbers for ids.
use saa_sweave.Prelude.Tests.{ltb, if◌then◌else◌, Bool-cases}
use saa_sweave.Prelude.Lists.{length, take, keep, count, All, any}
use Prim.Native.Nat.{ℕ, zero, suc, ◌+◌, ◌≤◌}
use mathlib.Core.Path.{◌≡◌, refl, sym, subst}
use mathlib.Core.Logic.{inl, inr}
use mathlib.Core.Bool.{Bool, true, false, not, ◌&&◌}
use mathlib.Core.Option
use mathlib.Core.Option.{Option, none, some}
use mathlib.Core.List.{List, [], ◌∷◌, Memᴰ}
use native.Mathlib.Omega.{arith}

module _ {ℓ} {A : Type ℓ} where
  -- UPDATE … SET … WHERE
  abbrev pub update_where : (A → Bool) → (A → A) → List A → List A
  update_where p f [] = []
  update_where p f (x ∷ xs) = (if p x then f x else x) ∷ update_where p f xs

  -- DELETE … WHERE
  abbrev pub delete_where : (A → Bool) → List A → List A
  delete_where p = keep (λ x. not (p x))

  -- SELECT … WHERE … LIMIT 1
  abbrev pub first_where : (A → Bool) → List A → Option A
  first_where p [] = none
  first_where p (x ∷ xs) = let rest = first_where p xs in if p x then some x else rest

  -- ORDER BY key ASC, keeping the order of equal keys.
  abbrev insert_by : (A → ℕ) → A → List A → List A
  insert_by key x [] = x ∷ []
  insert_by key x (y ∷ ys) = if ltb (key y) (key x) then y ∷ insert_by key x ys else x ∷ y ∷ ys

  abbrev pub sort_by : (A → ℕ) → List A → List A
  sort_by key [] = []
  sort_by key (x ∷ xs) = insert_by key x (sort_by key xs)

  -- ORDER BY key DESC
  abbrev insert_by_desc : (A → ℕ) → A → List A → List A
  insert_by_desc key x [] = x ∷ []
  insert_by_desc key x (y ∷ ys) =
      if ltb (key x) (key y) then y ∷ insert_by_desc key x ys else x ∷ y ∷ ys

  abbrev pub sort_by_desc : (A → ℕ) → List A → List A
  sort_by_desc key [] = []
  sort_by_desc key (x ∷ xs) = insert_by_desc key x (sort_by_desc key xs)

  count-insert_by :
      (p : A → Bool) (key : A → ℕ) (x : A) (xs : List A)
      → count p (insert_by key x xs) ≡ count p (x ∷ xs)
  count-insert_by p key x [] = refl
  count-insert_by p key x (y ∷ ys) = ground (arith, count-insert_by p key x ys)

  -- Sorting keeps how many rows pass any test.
  pub count-sort_by :
      (p : A → Bool) (key : A → ℕ) (xs : List A) → count p (sort_by key xs) ≡ count p xs
  count-sort_by p key [] = refl
  count-sort_by p key (x ∷ xs) =
      ground (arith, count-insert_by p key x (sort_by key xs), count-sort_by p key xs)

  pub count-take-le : (p : A → Bool) (n : ℕ) (xs : List A) → count p (take n xs) ≤ count p xs
  count-take-le p zero xs = omega arith
  count-take-le p (suc n) [] = omega arith
  count-take-le p (suc n) (x ∷ xs) = ground (arith, count-take-le p n xs)

  pub count-keep : (p q : A → Bool) (xs : List A) → count p (keep q xs) ≡ count (λ x. q x && p x) xs
  count-keep p q [] = refl
  count-keep p q (x ∷ xs) = ground (arith, count-keep p q xs)

  pub count_split :
      (p q : A → Bool) (xs : List A)
      → count p xs ≡ count (λ x. q x && p x) xs + count (λ x. not (q x) && p x) xs
  count_split p q [] = omega arith
  count_split p q (x ∷ xs) = ground (arith, count_split p q xs)

  -- After an UPDATE the rows that pass `q` are the old ones among the rest, and the new ones.
  pub count-update_where :
      (q p : A → Bool) (f : A → A) (xs : List A)
      → count q (update_where p f xs)
        ≡ count (λ x. p x && q (f x)) xs + count (λ x. not (p x) && q x) xs
  count-update_where q p f [] = omega arith
  count-update_where q p f (x ∷ xs) = ground (arith, count-update_where q p f xs)

  pub count_congr :
      (p q : A → Bool) (xs : List A) → All (λ x. p x ≡ q x) xs → count p xs ≡ count q xs
  count_congr p q [] h = refl
  count_congr p q (x ∷ xs) h = ground (arith, count_congr p q xs h.1)

  pub count_none : (p : A → Bool) (xs : List A) → All (λ x. p x ≡ false) xs → count p xs ≡ 0
  count_none p [] h = refl
  count_none p (x ∷ xs) h = ground (arith, count_none p xs h.1)

  pub All_of_count_zero : (p : A → Bool) (xs : List A) → count p xs ≡ 0 → All (λ x. p x ≡ false) xs
  All_of_count_zero p [] h = tt
  All_of_count_zero p (x ∷ xs) h = ground (arith, All_of_count_zero p xs)

  pub count_mono :
      (p q : A → Bool) (xs : List A)
      → All (λ x. (p x ≡ true) → q x ≡ true) xs
      → count p xs ≤ count q xs
  count_mono p q [] h = omega arith
  count_mono p q (x ∷ xs) h = ground (arith, h.0, count_mono p q xs h.1)

  pub All-update_where {κ μ} :
      (P : A → Type κ) (Q : A → Type μ) (p : A → Bool) (f : A → A)
      → ((x : A) → P x → p x ≡ true → Q (f x))
      → ((x : A) → P x → p x ≡ false → Q x)
      → (xs : List A) → All P xs
      → All Q (update_where p f xs)
  All-update_where P Q p f changed kept [] h = tt
  All-update_where P Q p f changed kept (x ∷ xs) h = elim (Bool-cases (p x)) [
    | inl e ↦ rw e (changed x h.0 e, All-update_where P Q p f changed kept xs h.1)
    | inr e ↦ rw e (kept x h.0 e, All-update_where P Q p f changed kept xs h.1)
  ]

  -- Two updates of the same rows are one, if the first keeps them selected.
  pub update_where_twice :
      (p : A → Bool) (f g : A → A)
      → ((x : A) → p (f x) ≡ p x)
      → (xs : List A) → update_where p g (update_where p f xs) ≡ update_where p (λ x. g (f x)) xs
  update_where_twice p f g same [] = refl
  update_where_twice p f g same (x ∷ xs) = ground (arith, same x, update_where_twice p f g same xs)

  pub update_where_none :
      (p : A → Bool) (f : A → A) (xs : List A)
      → All (λ x. p x ≡ false) xs
      → update_where p f xs ≡ xs
  update_where_none p f [] h = refl
  update_where_none p f (x ∷ xs) h = ground (arith, update_where_none p f xs h.1)

  -- An UPDATE that does not change whether a row passes `q`.
  pub count-update_where_same :
      (q p : A → Bool) (f : A → A) (xs : List A)
      → All (λ x. (p x ≡ true) → q (f x) ≡ q x) xs
      → count q (update_where p f xs) ≡ count q xs
  count-update_where_same q p f [] h = refl
  count-update_where_same q p f (x ∷ xs) h =
      ground (arith, h.0, count-update_where_same q p f xs h.1)

  pub count_pos_of_mem :
      (p : A → Bool) {x : A} {xs : List A} → Memᴰ x xs → p x ≡ true → 1 ≤ count p xs
  count_pos_of_mem p (Memᴰ.head e) h = rw (rw e at h) (omega arith)
  count_pos_of_mem p (Memᴰ.tail {x = y} m) h =
      let ih = count_pos_of_mem p m h in
      elim (Bool-cases (p y)) [ inl e ↦ rw e (omega arith) | inr e ↦ rw e ih ]

  pub All_of_mem {κ} : (P : A → Type κ) (xs : List A) → ((x : A) → Memᴰ x xs → P x) → All P xs
  All_of_mem P [] h = tt
  All_of_mem P (x ∷ xs) h = (h x (Memᴰ.head refl), All_of_mem P xs (λ y m. h y (Memᴰ.tail m)))

  pub any_iff_count : (p : A → Bool) (xs : List A) → any p xs ≡ ltb 0 (count p xs)
  any_iff_count p [] = refl
  any_iff_count p (x ∷ xs) = ground (arith, any_iff_count p xs)

  pub first_where-update_where :
      (p : A → Bool) (f : A → A)
      → ((x : A) → p (f x) ≡ p x)
      → (xs : List A) → first_where p (update_where p f xs) ≡ Option.map f (first_where p xs)
  first_where-update_where p f same [] = refl
  first_where-update_where p f same (x ∷ xs) =
      ground (arith, same x, first_where-update_where p f same xs)

  pub count_and_le_left : (p q : A → Bool) (xs : List A) → count (λ x. p x && q x) xs ≤ count p xs
  count_and_le_left p q [] = omega arith
  count_and_le_left p q (x ∷ xs) = ground (arith, count_and_le_left p q xs)

  pub count_and_le_right : (p q : A → Bool) (xs : List A) → count (λ x. p x && q x) xs ≤ count q xs
  count_and_le_right p q [] = omega arith
  count_and_le_right p q (x ∷ xs) = ground (arith, count_and_le_right p q xs)

  length-insert_by :
      (key : A → ℕ) (x : A) (xs : List A) → length (insert_by key x xs) ≡ suc (length xs)
  length-insert_by key x [] = refl
  length-insert_by key x (y ∷ ys) = ground (arith, length-insert_by key x ys)

  pub length-sort_by : (key : A → ℕ) (xs : List A) → length (sort_by key xs) ≡ length xs
  length-sort_by key [] = refl
  length-sort_by key (x ∷ xs) =
      omega (arith, length-insert_by key x (sort_by key xs), length-sort_by key xs)

  -- A row that the WHERE clause does not select stays in the table as it is.
  pub mem-update_where :
      (p : A → Bool) (f : A → A) {x : A} {xs : List A}
      → Memᴰ x xs
      → p x ≡ false
      → Memᴰ x (update_where p f xs)
  mem-update_where p f (Memᴰ.head e) h = rw (rw e at h) (Memᴰ.head e)
  mem-update_where p f (Memᴰ.tail m) h = Memᴰ.tail (mem-update_where p f m h)

  pub All-mem {κ} : (P : A → Type κ) {x : A} {xs : List A} → Memᴰ x xs → All P xs → P x
  All-mem P (Memᴰ.head e) h = subst P (sym e) h.0
  All-mem P (Memᴰ.tail m) h = All-mem P m h.1

module _ {ℓ} {A : Type ℓ} where
  pub keep_none : (p : A → Bool) (xs : List A) → All (λ x. p x ≡ false) xs → keep p xs ≡ []
  keep_none p [] h = refl
  keep_none p (x ∷ xs) h = rw (h.0) (keep_none p xs h.1)

  pub count_not : (p : A → Bool) (xs : List A) → count (λ x. not (p x)) xs + count p xs ≡ length xs
  count_not p [] = omega arith
  count_not p (x ∷ xs) = ground (arith, count_not p xs)

module _ {ℓ κ} {A : Type ℓ} (P : A → Type κ) where
  All-insert_by : (key : A → ℕ) (x : A) (xs : List A) → P x → All P xs → All P (insert_by key x xs)
  All-insert_by key x [] p h = (p, tt)
  All-insert_by key x (y ∷ ys) p h = elim (Bool-cases (ltb (key y) (key x))) [
    | inl e ↦ rw e (h.0, All-insert_by key x ys p h.1)
    | inr e ↦ rw e (p, h)
  ]

  pub All-sort_by : (key : A → ℕ) (xs : List A) → All P xs → All P (sort_by key xs)
  All-sort_by key [] h = tt
  All-sort_by key (x ∷ xs) h = All-insert_by key x (sort_by key xs) h.0 (All-sort_by key xs h.1)

module _ {ℓ} {A : Type ℓ} where
  pub any_of_mem : (p : A → Bool) {x : A} {xs : List A} → Memᴰ x xs → p x ≡ true → any p xs ≡ true
  any_of_mem p (Memᴰ.head e) h = rw (rw e at h) refl
  any_of_mem p (Memᴰ.tail m) h = ground (arith, any_of_mem p m h)

module _ {ℓ} {A : Type ℓ} where
  count-insert_by_desc :
      (p : A → Bool) (key : A → ℕ) (x : A) (xs : List A)
      → count p (insert_by_desc key x xs) ≡ count p (x ∷ xs)
  count-insert_by_desc p key x [] = refl
  count-insert_by_desc p key x (y ∷ ys) = ground (arith, count-insert_by_desc p key x ys)

  pub count-sort_by_desc :
      (p : A → Bool) (key : A → ℕ) (xs : List A) → count p (sort_by_desc key xs) ≡ count p xs
  count-sort_by_desc p key [] = refl
  count-sort_by_desc p key (x ∷ xs) =
      ground
        (arith, count-insert_by_desc p key x (sort_by_desc key xs), count-sort_by_desc p key xs)

  length-insert_by_desc :
      (key : A → ℕ) (x : A) (xs : List A) → length (insert_by_desc key x xs) ≡ suc (length xs)
  length-insert_by_desc key x [] = refl
  length-insert_by_desc key x (y ∷ ys) = ground (arith, length-insert_by_desc key x ys)

  pub length-sort_by_desc : (key : A → ℕ) (xs : List A) → length (sort_by_desc key xs) ≡ length xs
  length-sort_by_desc key [] = refl
  length-sort_by_desc key (x ∷ xs) =
      omega (arith, length-insert_by_desc key x (sort_by_desc key xs), length-sort_by_desc key xs)
