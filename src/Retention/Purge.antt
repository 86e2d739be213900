-- ===== src/Retention/Purge.antt =====
-- The steps that every purge of packages/db/src/retention-purge.ts repeats: SELECT the ids of the
-- oldest rows that qualify, up to the chunk size, then DELETE the rows with those ids unless the run
-- is dry or there are none.
use saa_sweave.Prelude.{
  ℕ, ◌+◌, ◌≤◌, min, ◌≡◌, refl, sym, ap, ◌∙◌, inl, inr, Bool, true, false, not, ◌&&◌, ◌||◌, List, [],
  ◌∷◌, arith, ◌==◌, ==_refl, if◌then◌else◌, Bool-cases, count, any, keep, take, length, length-take,
  length-keep, All, All_of, All_map, All-take, All-keep, ==_iff,
}
use mathlib.Core.List.{Memᴰ}
use saa_sweave.Prelude.Sql.{
  delete_where, sort_by, count_split, count-take-le, count-sort_by, count-keep, length-sort_by,
  count_and_le_right, count_pos_of_mem, any_iff_count, All_of_mem, All-sort_by, count_none,
  count_not,
}

module _ {A : Type 0} (id : A → ℕ) where
  abbrev pub is_id : ℕ → A → Bool
  is_id x r = id r == x

  -- The id is the table's primary key.
  abbrev pub HasUniqueIds : List A → Type 0
  HasUniqueIds rows = (x : ℕ) → count (is_id x) rows ≤ 1

  abbrev pub selection : (A → Bool) → (A → ℕ) → ℕ → List A → List A
  selection qualifies age chunk rows = take chunk (sort_by age (keep qualifies rows))

  -- `inArray(table.id, ids)`, over the selected rows' ids
  abbrev pub is_selected : List A → A → Bool
  is_selected selected r = any (λ s. id s == id r) selected

  -- The number reported as deleted, and the rows that stay.
  unfoldable pub purge_rows : (A → Bool) → (A → ℕ) → ℕ → Bool → List A → ℕ × List A
  purge_rows qualifies age chunk dry_run rows =
      let selected = selection qualifies age chunk rows in
      (
        length selected,
        if length selected == 0 || dry_run then rows else delete_where (is_selected selected) rows,
      )

  count_id-selection :
      (q : A → Bool) (age : A → ℕ) (chunk x : ℕ) (rows : List A)
      → count (is_id x) (selection q age chunk rows) ≤ count (λ r. q r && is_id x r) rows
  count_id-selection q age chunk x rows = omega (
    arith,
    count-take-le (is_id x) chunk (sort_by age (keep q rows)),
    count-sort_by (is_id x) age (keep q rows),
    count-keep (is_id x) q rows,
  )

  selected_pos : (rows : List A) (r : A) → is_selected rows r ≡ true → 1 ≤ count (is_id (id r)) rows
  selected_pos rows r e = ground (arith, any_iff_count (is_id (id r)) rows)

  pub selected_qualifies :
      (q : A → Bool) (age : A → ℕ) (chunk : ℕ) (rows : List A)
      → HasUniqueIds rows
      → All (λ r. (is_selected (selection q age chunk rows) r ≡ true) → q r ≡ true) rows
  selected_qualifies q age chunk rows u =
      All_of_mem (λ r. (is_selected (selection q age chunk rows) r ≡ true) → q r ≡ true) rows
        (λ r m chosen. elim (Bool-cases (q r)) [
          | inl e ↦ e
          | inr e ↦ absurd (
              omega (
                arith,
                u (id r),
                count_pos_of_mem (λ y. not (q y) && is_id (id r) y) m (rw (e) (==_refl (id r))),
                count_id-selection q age chunk (id r) rows,
                count_split (is_id (id r)) q rows,
                selected_pos (selection q age chunk rows) r chosen,
              ))
        ])

  -- A DELETE that reaches no row of `p` leaves the rows of `p` as they are.
  pub keep-delete_where :
      (p gone : A → Bool) (rows : List A)
      → All (λ r. (p r ≡ true) → gone r ≡ false) rows
      → keep p (delete_where gone rows) ≡ keep p rows
  keep-delete_where p gone [] h = refl
  keep-delete_where p gone (r ∷ rows) h = ground (arith, keep-delete_where p gone rows h.1, h.0)

  pub unselected :
      (p q : A → Bool) (age : A → ℕ) (chunk : ℕ) (rows : List A)
      → HasUniqueIds rows
      → ((r : A) → p r ≡ true → q r ≡ false)
      → All (λ r. (p r ≡ true) → is_selected (selection q age chunk rows) r ≡ false) rows
  unselected p q age chunk rows u apart =
      All_map (λ r. (is_selected (selection q age chunk rows) r ≡ true) → q r ≡ true)
        (λ r. (p r ≡ true) → is_selected (selection q age chunk rows) r ≡ false)
        (λ r h e. ground (arith, h, apart r e)) rows (selected_qualifies q age chunk rows u)

  -- A purge leaves every set of rows that do not qualify as it is, in its order.
  pub purge_rows_keeps :
      (p q : A → Bool) (age : A → ℕ) (chunk : ℕ) (dry_run : Bool) (rows : List A)
      → HasUniqueIds rows
      → ((r : A) → p r ≡ true → q r ≡ false)
      → keep p (purge_rows q age chunk dry_run rows).1 ≡ keep p rows
  unfolding purge_rows
  purge_rows_keeps p q age chunk dry_run rows u apart =
      let selected = selection q age chunk rows in
      elim (Bool-cases (length selected == 0 || dry_run)) [
        | inl skip ↦ rw skip refl
        | inr go ↦ rw go (
            keep-delete_where p (is_selected selected) rows (unselected p q age chunk rows u apart))
      ]

  pub same_row :
      (k r : A) (rows : List A)
      → HasUniqueIds rows
      → Memᴰ k rows
      → Memᴰ r rows
      → (id k == id r) ≡ true
      → k ≡ r
  same_row k r [] u m n e = elim m [ ]
  same_row k r (y ∷ ys) u (Memᴰ.head a) (Memᴰ.head b) e = a ∙ sym b
  same_row k r (y ∷ ys) u (Memᴰ.head a) (Memᴰ.tail b) e =
      absurd (ground (arith, u (id r), count_pos_of_mem (is_id (id r)) b (==_refl (id r)), ap id a))
  same_row k r (y ∷ ys) u (Memᴰ.tail a) (Memᴰ.head b) e =
      absurd
        (ground (arith, u (id r), count_pos_of_mem (is_id (id r)) a e, ap id b, ==_refl (id r)))
  same_row k r (y ∷ ys) u (Memᴰ.tail a) (Memᴰ.tail b) e =
      same_row k r ys (λ x. ground (arith, u x)) a b e

  -- Whatever holds of every row of the table holds of the selected rows.
  pub All-selection :
      (P : A → Type 0) (q : A → Bool) (age : A → ℕ) (chunk : ℕ) (rows : List A)
      → All P rows
      → All P (selection q age chunk rows)
  All-selection P q age chunk rows h =
      All-take P chunk (sort_by age (keep q rows))
        (All-sort_by P age (keep q rows) (All-keep P q rows h))

  HasDistinctIds : List A → Type 0
  HasDistinctIds [] = Unit
  HasDistinctIds (c ∷ rest) = (is_selected rest c ≡ false) × HasDistinctIds rest

  distinct_of_counts : (rows : List A) → HasUniqueIds rows → HasDistinctIds rows
  unfolding HasDistinctIds
  distinct_of_counts [] h = tt
  distinct_of_counts (c ∷ rest) h = (
    ground (arith, any_iff_count (is_id (id c)) rest, h (id c), ==_refl (id c)),
    distinct_of_counts rest (λ x. ground (arith, h x)),
  )

  selected_cons :
      (c : A) (rest : List A) (r : A)
      → is_selected rest c ≡ false
      → (id r == id c) ≡ true
      → is_selected rest r ≡ false
  selected_cons c rest r h e = rw ((==_iff (id r) (id c)).0 e) h

  count-selected_cons :
      (c : A) (rest rows : List A)
      → is_selected rest c ≡ false
      → count (is_selected (c ∷ rest)) rows
        ≡ count (is_id (id c)) rows + count (is_selected rest) rows
  count-selected_cons c rest [] h = omega arith
  count-selected_cons c rest (r ∷ rows) h =
      ground (arith, count-selected_cons c rest rows h, selected_cons c rest r h)

  count-selected :
      (selected rows : List A)
      → HasDistinctIds selected
      → All (λ s. count (is_id (id s)) rows ≡ 1) selected
      → count (is_selected selected) rows ≡ length selected
  unfolding HasDistinctIds
  count-selected [] rows d h =
      count_none (is_selected []) rows (All_of (λ i. is_selected [] i ≡ false) (λ i. refl) rows)
  count-selected (c ∷ rest) rows d h =
      omega (arith, count-selected_cons c rest rows d.0, count-selected rest rows d.1 h.1, h.0)

  -- A purge reports as many rows as qualify, up to the chunk, and a run that is not dry deletes
  -- exactly as many.
  pub purge_rows_counts :
      (q : A → Bool) (age : A → ℕ) (chunk : ℕ) (dry_run : Bool) (rows : List A)
      → HasUniqueIds rows
      → let (deleted, rows') = purge_rows q age chunk dry_run rows in
        (deleted ≡ min chunk (count q rows))
        × (length rows' + (if dry_run then 0 else deleted) ≡ length rows)
  unfolding purge_rows
  purge_rows_counts q age chunk dry_run rows u =
      let selected = selection q age chunk rows in
      let within : (x : ℕ) → count (is_id x) selected ≤ count (is_id x) rows = λ x.
        omega (arith, count_id-selection q age chunk x rows, count_and_le_right q (is_id x) rows) in
      let once : All (λ s. count (is_id (id s)) rows ≡ 1) selected =
        All_of_mem (λ s. count (is_id (id s)) rows ≡ 1) selected
          (λ s m.
            omega (
              arith,
              within (id s),
              u (id s),
              count_pos_of_mem (is_id (id s)) m (==_refl (id s)),
            )) in
      let n =
        count-selected selected rows
          (distinct_of_counts selected (λ x. omega (arith, within x, u x))) once in
      (
        omega (
          arith,
          length-take chunk (sort_by age (keep q rows)),
          length-sort_by age (keep q rows),
          length-keep q rows,
        ),
        ground (
          arith,
          n,
          length-keep (λ k. not (is_selected selected k)) rows,
          count_not (is_selected selected) rows,
        ),
      )
