-- ===== src/BatchJob/Process/Claimable.antt =====
-- The items of a job that a claim may select, and those that it writes to.
use saa_sweave.Prelude.{
  ℕ, ◌+◌, ◌≤◌, ◌≡◌, refl, inl, inr, Bool, true, false, not, ◌&&◌, ◌||◌, List, [], ◌∷◌, map, arith,
  ==_refl, Bool-cases, count, All_of, keep, length, All,
}
use saa_sweave.Prelude.Sql.{
  sort_by, count_split, count-take-le, count-sort_by, count-keep, count_none, count_pos_of_mem,
  any_iff_count, All_of_mem,
}
use saa_sweave.BatchJob.{
  BatchJobItemRow, BatchJobItemStatus, Db, is_processing_item, is_pending_item, is_lease_expired,
  is_claimable, is_among, claim_selection,
}
use saa_sweave.BatchJob.Process.Counts.{by_id, in_job, job_count, Distinct}

-- Ids are the table's primary key.
abbrev pub Unique : List BatchJobItemRow → Type 0
Unique items = (x : ℕ) → count (by_id x) items ≤ 1

-- No item of the job is under a lease that has not expired.
abbrev pub is_live : (now id : ℕ) → BatchJobItemRow → Bool
is_live now id i = in_job is_processing_item id i && not (is_lease_expired now i.lease_expires_at)

pub count_by_id-selected :
    (now id chunk_size x : ℕ) (db : Db)
    → count (by_id x) (claim_selection now id chunk_size db)
      ≤ count (λ i. is_claimable now id i && by_id x i) db.batch_job_item
count_by_id-selected now id chunk_size x db = omega (
  arith,
  count-take-le (by_id x) chunk_size
      (sort_by (λ i. i.created_at) (keep (is_claimable now id) db.batch_job_item)),
  count-sort_by (by_id x) (λ i. i.created_at) (keep (is_claimable now id) db.batch_job_item),
  count-keep (by_id x) (is_claimable now id) db.batch_job_item,
)

pub among_pos :
    (rows : List BatchJobItemRow) (i : BatchJobItemRow)
    → is_among rows i ≡ true
    → 1 ≤ count (by_id i.id) rows
among_pos rows i e = ground (arith, any_iff_count (by_id i.id) rows)

-- With distinct ids, the claim writes only to rows that its subquery selected.
pub among_claimable :
    (now id chunk_size : ℕ) (db : Db)
    → Unique db.batch_job_item
    → All
        (λ i.
          (is_among (claim_selection now id chunk_size db) i ≡ true) → is_claimable now id i ≡ true)
        db.batch_job_item
among_claimable now id chunk_size db u = All_of_mem _ db.batch_job_item (λ i m among.
    elim (Bool-cases (is_claimable now id i)) [
      | inl e ↦ e
      | inr e ↦
          let two =
            count_pos_of_mem (λ y. not (is_claimable now id y) && by_id i.id y) m
              (rw (e) (==_refl i.id)) in
          absurd (
            omega (
              arith,
              u i.id,
              two,
              count_by_id-selected now id chunk_size i.id db,
              count_split (by_id i.id) (is_claimable now id) db.batch_job_item,
              among_pos (claim_selection now id chunk_size db) i among,
            ))
    ])

pub Distinct-of_counts :
    (rows : List BatchJobItemRow) → ((x : ℕ) → count (by_id x) rows ≤ 1) → Distinct rows
Distinct-of_counts [] h = tt
Distinct-of_counts (c ∷ rest) h = (
  ground (arith, any_iff_count (by_id c.id) rest, h c.id, ==_refl c.id),
  Distinct-of_counts rest (λ x. ground (arith, h x)),
)

pub among_map :
    (f : BatchJobItemRow → BatchJobItemRow)
    → ((i : BatchJobItemRow) → (f i).id ≡ i.id)
    → (rows : List BatchJobItemRow) (i : BatchJobItemRow)
    → is_among (map f rows) i ≡ is_among rows i
among_map f same [] i = refl
among_map f same (c ∷ rest) i = ground (arith, same c, among_map f same rest i)

pub count_by_id-map :
    (f : BatchJobItemRow → BatchJobItemRow)
    → ((i : BatchJobItemRow) → (f i).id ≡ i.id)
    → (x : ℕ) (rows : List BatchJobItemRow) → count (by_id x) (map f rows) ≡ count (by_id x) rows
count_by_id-map f same x [] = refl
count_by_id-map f same x (c ∷ rest) = ground (arith, same c, count_by_id-map f same x rest)

pub count-among_cons :
    (items : List BatchJobItemRow) (c : BatchJobItemRow) (rest : List BatchJobItemRow)
    → count (is_among (c ∷ rest)) items ≤ count (by_id c.id) items + count (is_among rest) items
count-among_cons [] c rest = omega arith
count-among_cons (i ∷ items) c rest = ground (arith, count-among_cons items c rest)

-- At most one row of the table goes with each selected row.
pub count-among :
    (items rows : List BatchJobItemRow) → Unique items → count (is_among rows) items ≤ length rows
count-among items [] u =
    omega (
      arith,
      count_none (is_among []) items (All_of (λ i. is_among [] i ≡ false) (λ i. refl) items),
    )
count-among items (c ∷ rest) u =
    omega (arith, count-among_cons items c rest, count-among items rest u, u c.id)

-- A row without a live lease is claimable exactly if it is open.
abbrev pub is_open : BatchJobItemStatus → Bool
is_open s = is_pending_item s || is_processing_item s

pub open_count :
    (id : ℕ) (items : List BatchJobItemRow)
    → job_count is_open id items
      ≡ job_count is_pending_item id items + job_count is_processing_item id items
open_count id [] = omega arith
open_count id (i ∷ rest) = ground (arith, open_count id rest)
