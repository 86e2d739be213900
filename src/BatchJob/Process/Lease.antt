-- ===== src/BatchJob/Process/Lease.antt =====
-- Leases of packages/db/src/batch-job.ts: claims of other workers against a lease that is live.
use saa_sweave.Prelude.{
  ℕ, ◌+◌, ◌*◌, ◌≤◌, ◌≡◌, refl, true, false, some, List, [], ◌∷◌, arith, All, All_of,
}
use mathlib.Core.List.{Memᴰ}
use saa_sweave.Prelude.Sql.{All-mem, mem-update_where, count-update_where_same}
use saa_sweave.BatchJob.{
  BatchJobItemRow, BatchJobItemStatus, Db, is_claimable, claimed, is_among, claim_selection,
  is_expired_lease, released, claim_batch_job_items, release_expired_batch_job_leases,
}
use saa_sweave.BatchJob.Process.{claim_round, batch_job_chunk_size, batch_job_lease_seconds}
use saa_sweave.BatchJob.Process.Counts.{by_id}
use saa_sweave.BatchJob.Process.Claims.{ids_after}
use saa_sweave.BatchJob.Process.Claimable.{Unique, among_claimable}

-- The chunk claims of any workers on a job, each with its time.
pub claim_rounds : ℕ → List (ℕ × ℕ) → Db → Db
claim_rounds id [] db = db
claim_rounds id ((now, worker_id) ∷ rest) db =
    claim_rounds id rest (claim_round now id worker_id db).1

-- The item is being processed under a lease that ends at `t`.
pub record LeasedUntil (t : ℕ) (i : BatchJobItemRow) : Type 0 where
  pub status : i.status ≡ BatchJobItemStatus.processing
  pub lease : i.lease_expires_at ≡ some t

released-Unique :
    (now id : ℕ) (db : Db)
    → Unique db.batch_job_item
    → Unique (release_expired_batch_job_leases now id db).1.batch_job_item
unfolding release_expired_batch_job_leases
released-Unique now id db u x =
    rw
      (count-update_where_same (by_id x) (is_expired_lease now id) (released now) db.batch_job_item
        (All_of (λ i. (is_expired_lease now id i ≡ true) → by_id x (released now i) ≡ by_id x i)
          (λ i e. refl) db.batch_job_item))
      (u x)

round-Unique :
    (now id worker_id : ℕ) (db : Db)
    → Unique db.batch_job_item
    → Unique (claim_round now id worker_id db).1.batch_job_item
unfolding claim_batch_job_items
round-Unique now id worker_id db u x =
    let db1 = (release_expired_batch_job_leases now id db).1 in
    let u1 = released-Unique now id db u in
    rw
      (ids_after now id batch_job_chunk_size (now + batch_job_lease_seconds * 1000) worker_id db1 u1
        x)
      (u1 x)

live_not_claimable :
    (now id t : ℕ) (i : BatchJobItemRow)
    → LeasedUntil t i
    → now ≤ t
    → (is_claimable now id i ≡ false) × (is_expired_lease now id i ≡ false)
live_not_claimable now id t i l lt = ground (arith, l.status, l.lease)

not_among :
    (now id : ℕ) (i : BatchJobItemRow) (db : Db)
    → Unique db.batch_job_item
    → Memᴰ i db.batch_job_item
    → is_claimable now id i ≡ false
    → is_among (claim_selection now id batch_job_chunk_size db) i ≡ false
not_among now id i db u m e =
    let h =
      All-mem
        (λ k.
          (is_among (claim_selection now id batch_job_chunk_size db) k ≡ true)
          → is_claimable now id k ≡ true)
        m (among_claimable now id batch_job_chunk_size db u) in
    ground (arith, h)

round_keeps :
    (now id worker_id t : ℕ) (i : BatchJobItemRow) (db : Db)
    → Unique db.batch_job_item
    → Memᴰ i db.batch_job_item
    → LeasedUntil t i
    → now ≤ t
    → Memᴰ i (claim_round now id worker_id db).1.batch_job_item
unfolding claim_batch_job_items release_expired_batch_job_leases
round_keeps now id worker_id t i db u m l le =
    let db1 = (release_expired_batch_job_leases now id db).1 in
    let free = live_not_claimable now id t i l le in
    let m1 = mem-update_where (is_expired_lease now id) (released now) m free.1 in
    mem-update_where (is_among (claim_selection now id batch_job_chunk_size db1))
      (claimed now (now + batch_job_lease_seconds * 1000) worker_id) m1
      (not_among now id i db1 (released-Unique now id db u) m1 free.0)

-- However many workers claim chunks of a job, in any order and whatever they release, an item whose
-- lease ends at `t` stays in the table exactly as it is (its worker and its lease with it) as long
-- as no claim is made after `t`.
pub lease_excludes :
    (id t : ℕ) (i : BatchJobItemRow) (claims : List (ℕ × ℕ)) (db : Db)
    → Unique db.batch_job_item
    → Memᴰ i db.batch_job_item
    → LeasedUntil t i
    → All (λ c. c.0 ≤ t) claims
    → Memᴰ i (claim_rounds id claims db).batch_job_item
unfolding claim_rounds
lease_excludes id t i [] db u m l h = m
lease_excludes id t i ((now, worker_id) ∷ rest) db u m l h =
    lease_excludes id t i rest (claim_round now id worker_id db).1
      (round-Unique now id worker_id db u) (round_keeps now id worker_id t i db u m l h.0) l h.1
