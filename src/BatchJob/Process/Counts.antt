-- ===== src/BatchJob/Process/Counts.antt =====
-- How the numbers of open, completed and failed items of a job move when the worker settles one
-- claimed item, and a chunk of them.
use saa_sweave.Prelude.{
  ℕ, suc, ◌+◌, String, ◌≡◌, refl, sym, subst, ap, ◌∙◌, inl, inr, Bool, true, false, ◌&&◌, List, [],
  ◌∷◌, arith, ◌==◌, ==_iff, if◌then◌else◌, Bool-cases, count, any, All, All_map, length,
}
use saa_sweave.Prelude.Json.{Json}
use saa_sweave.Prelude.Sql.{update_where, count_split, count-update_where, All-update_where}
use saa_sweave.BatchJob.{
  BatchJobItemRow, BatchJobItemStatus, BatchJobType, Db, is_processing_item, is_pending_item,
  is_among,
}
use saa_sweave.BatchJob.Process.{process_item, process_chunk}
use saa_sweave.BatchJob.Process.Item.{Settles, settled_status, process_item-Settles}

abbrev pub is_completed_item : BatchJobItemStatus → Bool
is_completed_item BatchJobItemStatus.completed = true
is_completed_item _ = false

abbrev pub is_failed_item : BatchJobItemStatus → Bool
is_failed_item BatchJobItemStatus.failed = true
is_failed_item _ = false

abbrev pub by_id : ℕ → BatchJobItemRow → Bool
by_id x i = i.id == x

abbrev pub in_job : (BatchJobItemStatus → Bool) → ℕ → BatchJobItemRow → Bool
in_job t id i = i.batch_job_id == id && t i.status

-- The items of job `id` whose status passes a test.
abbrev pub job_count : (BatchJobItemStatus → Bool) → ℕ → List BatchJobItemRow → ℕ
job_count t id items = count (in_job t id) items

abbrev pub IsClaimedIn : ℕ → BatchJobItemRow → Type 0
IsClaimedIn id i = ((i.batch_job_id == id) ≡ true) × (i.status ≡ BatchJobItemStatus.processing)

module _ (t : BatchJobItemStatus → Bool) (id x : ℕ) (ok : Bool)
    (f : BatchJobItemRow → BatchJobItemRow)
    (same_job : (i : BatchJobItemRow) → (f i).batch_job_id ≡ i.batch_job_id)
    (final : (i : BatchJobItemRow) → (f i).status ≡ settled_status ok) where
  settled_count :
      (items : List BatchJobItemRow)
      → All (λ i. (by_id x i ≡ true) → IsClaimedIn id i) items
      → count (λ i. by_id x i && in_job t id (f i)) items
        ≡ (if t (settled_status ok) then count (by_id x) items else 0)
  settled_count [] h = ground arith
  settled_count (i ∷ rest) h =
      let ih = settled_count rest h.1 in rw (final i, same_job i) (ground (arith, ih, h.0))

  claimed_count :
      (items : List BatchJobItemRow)
      → All (λ i. (by_id x i ≡ true) → IsClaimedIn id i) items
      → count (λ i. by_id x i && in_job t id i) items
        ≡ (if t BatchJobItemStatus.processing then count (by_id x) items else 0)
  claimed_count [] h = ground arith
  claimed_count (i ∷ rest) h =
      let ih = claimed_count rest h.1 in
      elim (Bool-cases (by_id x i)) [
        | inl e ↦ rw (e, (h.0 e).0, (h.0 e).1) (ground (arith, ih))
        | inr e ↦ rw e ih
      ]

  -- The count of the final status rises by one, and that of the processing items falls by one.
  settle_counts :
      (items : List BatchJobItemRow)
      → All (λ i. (by_id x i ≡ true) → IsClaimedIn id i) items
      → count (by_id x) items ≡ 1
      → job_count t id (update_where (by_id x) f items)
          + (if t BatchJobItemStatus.processing then 1 else 0)
        ≡ job_count t id items + (if t (settled_status ok) then 1 else 0)
  settle_counts items h one = ground (
    arith,
    settled_count items h,
    claimed_count items h,
    count-update_where (in_job t id) (by_id x) f items,
    count_split (in_job t id) (by_id x) items,
  )

abbrev pub Distinct : List BatchJobItemRow → Type 0
Distinct [] = Unit
Distinct (c ∷ rest) = (is_among rest c ≡ false) × Distinct rest

-- The rows of a chunk are distinct, each stands once in the table, and they are being processed.
pub record Ready (id : ℕ) (chunk items : List BatchJobItemRow) : Type 0 where
  pub distinct : Distinct chunk
  pub present : All (λ c. count (by_id c.id) items ≡ 1) chunk
  pub claimed : All (λ i. (is_among chunk i ≡ true) → IsClaimedIn id i) items

count_id-settled :
    (x y : ℕ) (f : BatchJobItemRow → BatchJobItemRow)
    → ((i : BatchJobItemRow) → (f i).id ≡ i.id)
    → (items : List BatchJobItemRow)
    → count (by_id y) (update_where (by_id x) f items) ≡ count (by_id y) items
count_id-settled x y f same [] = refl
count_id-settled x y f same (i ∷ rest) = ground (arith, same i, count_id-settled x y f same rest)

absurd_bool {ℓ} : {A : Type ℓ} → true ≡ false → A
absurd_bool e = cc

Ready-settled :
    (id : ℕ) (c : BatchJobItemRow) (rest items : List BatchJobItemRow)
    (f : BatchJobItemRow → BatchJobItemRow)
    → ((i : BatchJobItemRow) → (f i).id ≡ i.id)
    → Ready id (c ∷ rest) items
    → Ready id rest (update_where (by_id c.id) f items)
Ready-settled id c rest items f same r = record {
  distinct = r.distinct.1;
  present =
      All_map (λ d. count (by_id d.id) items ≡ 1) (λ d. count (by_id d.id) _ ≡ 1)
        (λ d e. count_id-settled c.id d.id f same items ∙ e) rest r.present.1;
  claimed =
      All-update_where (λ i. (is_among (c ∷ rest) i ≡ true) → IsClaimedIn id i)
        (λ i. (is_among rest i ≡ true) → IsClaimedIn id i) (by_id c.id) f
        (λ i h e among.
          let here : (f i).id ≡ c.id = same i ∙ (==_iff i.id c.id).0 e in
          let out : is_among rest (f i) ≡ is_among rest c =
            ap (λ n. any (λ d. d.id == n) rest) here in
          absurd_bool (sym among ∙ out ∙ r.distinct.0))
        (λ i h e among. h (ground arith)) items r.claimed;
}

-- A chunk of claimed items is settled: each of its items has become completed or failed, and the
-- numbers that the loop counted are those by which the two final statuses grew.
pub record Worked (id : ℕ) (chunk : List BatchJobItemRow) (done failed : ℕ) (db : Db)
    (done' failed' : ℕ) (db' : Db) : Type 0 where
  pub completed :
      done' + job_count is_completed_item id db.batch_job_item
      ≡ done + job_count is_completed_item id db'.batch_job_item
  pub failures :
      failed' + job_count is_failed_item id db.batch_job_item
      ≡ failed + job_count is_failed_item id db'.batch_job_item
  pub pending :
      job_count is_pending_item id db'.batch_job_item
      ≡ job_count is_pending_item id db.batch_job_item
  pub processing :
      job_count is_processing_item id db'.batch_job_item + length chunk
      ≡ job_count is_processing_item id db.batch_job_item
  pub jobs : db'.batch_job ≡ db.batch_job
  pub ids : (x : ℕ) → count (by_id x) db'.batch_job_item ≡ count (by_id x) db.batch_job_item
  pub settled_all : done' + failed' ≡ done + failed + length chunk

module _ {id : ℕ} {c : BatchJobItemRow} {rest : List BatchJobItemRow} {ok : Bool} {db db1 : Db}
    (r : Ready id (c ∷ rest) db.batch_job_item) (s : Settles c.id ok db db1) where
  step_count :
      (t : BatchJobItemStatus → Bool)
      → job_count t id db1.batch_job_item + (if t BatchJobItemStatus.processing then 1 else 0)
        ≡ job_count t id db.batch_job_item + (if t (settled_status ok) then 1 else 0)
  step_count t =
      ap (λ items. job_count t id items + (if t BatchJobItemStatus.processing then 1 else 0))
        s.items
      ∙ settle_counts t id c.id ok s.effect s.same_job s.final db.batch_job_item
          (All_map (λ i. (is_among (c ∷ rest) i ≡ true) → IsClaimedIn id i)
            (λ i. (by_id c.id i ≡ true) → IsClaimedIn id i) (λ i h e. h (ground arith))
            db.batch_job_item r.claimed)
          r.present.0

  Worked-cons :
      {done failed done' failed' : ℕ} {db' : Db}
      → Worked id rest
          (if ok then suc done else done)
          (if ok then failed else suc failed)
          db1
          done'
          failed'
          db'
      → Worked id (c ∷ rest) done failed db done' failed' db'
  Worked-cons w = record {
    completed = ground (arith, w.completed, step_count is_completed_item);
    failures = ground (arith, w.failures, step_count is_failed_item);
    pending = ground (arith, w.pending, step_count is_pending_item);
    processing = ground (arith, w.processing, step_count is_processing_item);
    jobs = w.jobs ∙ s.jobs;
    ids = λ x.
        w.ids x
        ∙ ap (count (by_id x)) s.items
        ∙ count_id-settled c.id x s.effect s.same_id db.batch_job_item;
    settled_all = ground (arith, w.settled_all);
  }

  Ready-rest : Ready id rest db1.batch_job_item
  Ready-rest =
      subst (Ready id rest) (sym s.items)
        (Ready-settled id c rest db.batch_job_item s.effect s.same_id r)

module _ (to_upper_case : String → String) (zod_error : Json → String) where
  pub process_chunk-Worked :
      (now id : ℕ) (type : BatchJobType) (chunk : List BatchJobItemRow) (done failed : ℕ) (db : Db)
      → Ready id chunk db.batch_job_item
      → let ((done', failed'), db') =
          process_chunk to_upper_case zod_error now type chunk done failed db in
        Worked id chunk done failed db done' failed' db'
  unfolding process_chunk
  process_chunk-Worked now id type [] done failed db r = record {
    completed = refl;
    failures = refl;
    pending = refl;
    processing = omega arith;
    jobs = refl;
    ids = λ x. refl;
    settled_all = omega arith;
  }
  process_chunk-Worked now id type (c ∷ rest) done failed db r =
      let (ok, db1) = process_item to_upper_case zod_error now type c db in
      let s : Settles c.id ok db db1 = process_item-Settles to_upper_case zod_error now type c db in
      Worked-cons r s (
        process_chunk-Worked now id type rest (if ok then suc done else done)
          (if ok then failed else suc failed) db1 (Ready-rest r s))
