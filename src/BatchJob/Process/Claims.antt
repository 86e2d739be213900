-- ===== src/BatchJob/Process/Claims.antt =====
-- What the release of expired leases and the claim of a chunk do to the items of a job.
use saa_sweave.Prelude.{
  ℕ, ◌+◌, ◌≤◌, min, ◌≡◌, refl, Bool, true, false, not, List, [], ◌∷◌, map, arith, ==_refl, count,
  All_of, keep, length, length-take, length-keep, length-map, All-map, All, All_map,
}
use mathlib.Core.List.{Memᴰ}
use saa_sweave.Prelude.Sql.{
  update_where, sort_by, count-update_where, count-update_where_same, length-sort_by,
  count_and_le_left, count_and_le_right, count_pos_of_mem, All_of_mem, All-update_where,
}
use saa_sweave.BatchJob.{
  BatchJobItemRow, BatchJobItemStatus, Db, is_processing_item, is_pending_item, is_claimable,
  claimed, is_among, claim_selection, is_expired_lease, released,
}
use saa_sweave.BatchJob.Process.Counts.{
  by_id, in_job, job_count, IsClaimedIn, Ready, is_completed_item, is_failed_item,
}
use saa_sweave.BatchJob.Process.Claimable.{
  Unique, is_live, count_by_id-selected, among_claimable, Distinct-of_counts, among_map,
  count_by_id-map, count-among, is_open, open_count,
}

-- The release turns every expired lease of the job into a pending item.
pub record Released (id : ℕ) (items items' : List BatchJobItemRow) : Type 0 where
  pub completed : job_count is_completed_item id items' ≡ job_count is_completed_item id items
  pub failures : job_count is_failed_item id items' ≡ job_count is_failed_item id items
  pub pending :
      job_count is_pending_item id items'
      ≡ job_count is_pending_item id items + job_count is_processing_item id items
  pub processing : job_count is_processing_item id items' ≡ 0
  pub ids : (x : ℕ) → count (by_id x) items' ≡ count (by_id x) items

pub release-Released :
    (now id : ℕ) (items : List BatchJobItemRow)
    → All (λ i. is_live now id i ≡ false) items
    → Released id items (update_where (is_expired_lease now id) (released now) items)
release-Released now id [] h = record {
  completed = refl;
  failures = refl;
  pending = omega arith;
  processing = refl;
  ids = λ x. refl;
}
release-Released now id (i ∷ rest) h =
    let ih = release-Released now id rest h.1 in
    record {
      completed = ground (arith, ih.completed);
      failures = ground (arith, ih.failures);
      pending = ground (arith, ih.pending, h.0);
      processing = ground (arith, ih.processing, h.0);
      ids = λ x. ground (arith, ih.ids x);
    }

claimable_count :
    (now id : ℕ) (items : List BatchJobItemRow)
    → job_count is_processing_item id items ≡ 0
    → count (is_claimable now id) items ≡ job_count is_pending_item id items
claimable_count now id [] h = refl
claimable_count now id (i ∷ rest) h = ground (arith, claimable_count now id rest)

-- The claim turns as many pending items as fit into a chunk into processing ones.
pub record ChunkClaimed (id chunk_size : ℕ) (items : List BatchJobItemRow)
    (chunk items' : List BatchJobItemRow) : Type 0 where
  pub ready : Ready id chunk items'
  pub size : length chunk ≡ min chunk_size (job_count is_pending_item id items)
  pub completed : job_count is_completed_item id items' ≡ job_count is_completed_item id items
  pub failures : job_count is_failed_item id items' ≡ job_count is_failed_item id items
  pub balance :
      job_count is_pending_item id items' + job_count is_processing_item id items'
      ≡ job_count is_pending_item id items
  pub bounded : job_count is_processing_item id items' ≤ length chunk
  pub ids : (x : ℕ) → count (by_id x) items' ≡ count (by_id x) items

module _ (now id chunk_size lease_until worker_id : ℕ) (db : Db)
    (u : Unique db.batch_job_item) where
  abbrev selected : List BatchJobItemRow
  selected = claim_selection now id chunk_size db

  abbrev set : BatchJobItemRow → BatchJobItemRow
  set = claimed now lease_until worker_id

  abbrev after : List BatchJobItemRow
  after = update_where (is_among selected) set db.batch_job_item

  pub ids_after : (x : ℕ) → count (by_id x) after ≡ count (by_id x) db.batch_job_item
  ids_after x = count-update_where_same (by_id x) (is_among selected) set db.batch_job_item (
      All_of (λ i. (is_among selected i ≡ true) → by_id x (set i) ≡ by_id x i) (λ i e. refl)
        db.batch_job_item)

  -- A test on the status that does not tell a claimable item from a claimed one.
  same_after :
      (t : BatchJobItemStatus → Bool)
      → t BatchJobItemStatus.pending ≡ t BatchJobItemStatus.processing
      → job_count t id after ≡ job_count t id db.batch_job_item
  same_after t same =
      count-update_where_same (in_job t id) (is_among selected) set db.batch_job_item (
        All_map (λ i. (is_among selected i ≡ true) → is_claimable now id i ≡ true)
          (λ i. (is_among selected i ≡ true) → in_job t id (set i) ≡ in_job t id i)
          (λ i h among. ground (arith, h among)) db.batch_job_item
          (among_claimable now id chunk_size db u))

  once : (c : BatchJobItemRow) → Memᴰ c selected → count (by_id c.id) after ≡ 1
  once c m = omega (
    arith,
    ids_after c.id,
    u c.id,
    count_pos_of_mem (by_id c.id) m (==_refl c.id),
    count_by_id-selected now id chunk_size c.id db,
    count_and_le_right (is_claimable now id) (by_id c.id) db.batch_job_item,
  )

  claim-Ready : Ready id (map set selected) after
  claim-Ready = record {
    distinct = Distinct-of_counts (map set selected) (λ x. omega (
      arith,
      count_by_id-map set (λ i. refl) x selected,
      count_by_id-selected now id chunk_size x db,
      count_and_le_right (is_claimable now id) (by_id x) db.batch_job_item,
      u x,
    ));
    present = All-map set (λ c. count (by_id c.id) after ≡ 1) selected (All_of_mem _ selected once);
    claimed =
        All-update_where (λ i. (is_among selected i ≡ true) → is_claimable now id i ≡ true)
          (λ i. (is_among (map set selected) i ≡ true) → IsClaimedIn id i) (is_among selected) set
          (λ i h e among. (ground (arith, h e), refl))
          (λ i h e among. absurd (ground (arith, among_map set (λ i. refl) selected i)))
          db.batch_job_item (among_claimable now id chunk_size db u);
  }

  pub claim-ChunkClaimed :
      job_count is_processing_item id db.batch_job_item ≡ 0
      → ChunkClaimed id chunk_size db.batch_job_item (map set selected) after
  claim-ChunkClaimed none_processing = record {
    ready = claim-Ready;
    size = omega (
      arith,
      length-map set selected,
      length-take chunk_size
          (sort_by (λ i. i.created_at) (keep (is_claimable now id) db.batch_job_item)),
      length-sort_by (λ i. i.created_at) (keep (is_claimable now id) db.batch_job_item),
      length-keep (is_claimable now id) db.batch_job_item,
      claimable_count now id db.batch_job_item none_processing,
    );
    completed = same_after is_completed_item refl;
    failures = same_after is_failed_item refl;
    balance =
        omega
          (arith, same_after is_open refl, open_count id after, open_count id db.batch_job_item);
    bounded = omega (
      arith,
      length-map set selected,
      count-among db.batch_job_item selected u,
      count-update_where (in_job is_processing_item id) (is_among selected) set db.batch_job_item,
      count_and_le_left (is_among selected) (λ i. in_job is_processing_item id (set i))
          db.batch_job_item,
      count_and_le_right (λ i. not (is_among selected i)) (in_job is_processing_item id)
          db.batch_job_item,
    );
    ids = ids_after;
  }
