-- ===== src/BatchJob/Process/Rounds.antt =====
-- The loop of `processBatchJob`: one round, and the loop to its end.
use saa_sweave.Prelude.{
  ℕ, ◌+◌, ◌*◌, ◌≤◌, min, String, ◌≡◌, refl, ap, ◌∙◌, false, Option, none, some, List, map, arith,
  ◌==◌, if◌then◌else◌, ltb, length, All,
}
use mathlib.Core.Option
use saa_sweave.Prelude.Json.{Json}
use saa_sweave.Prelude.Sql.{first_where, update_where, first_where-update_where}
use saa_sweave.BatchJob.{
  BatchJobRow, BatchJobItemRow, BatchJobType, Db, is_processing_item, is_pending_item,
  is_expired_lease, released, claimed, claim_selection, is_among, release_expired_batch_job_leases,
  claim_batch_job_items, incremented, increment_batch_job_progress,
}
use saa_sweave.BatchJob.Process.{
  record_progress, claim_round, work_chunk, process_chunk, batch_job_chunk_size,
  batch_job_lease_seconds,
}
use saa_sweave.BatchJob.Process.Counts.{
  job_count, Ready, Worked, process_chunk-Worked, is_completed_item, is_failed_item,
}
use saa_sweave.BatchJob.Process.Claims.{
  Released, release-Released, ChunkClaimed, claim-ChunkClaimed,
}
use saa_sweave.BatchJob.Process.Claimable.{Unique, is_live}

-- The items of a job, whatever their status.
abbrev pub all_items : ℕ → Db → ℕ
all_items id db =
    job_count is_pending_item id db.batch_job_item
    + job_count is_processing_item id db.batch_job_item
    + job_count is_completed_item id db.batch_job_item
    + job_count is_failed_item id db.batch_job_item

abbrev pub open_items : ℕ → Db → ℕ
open_items id db =
    job_count is_pending_item id db.batch_job_item
    + job_count is_processing_item id db.batch_job_item

-- The job's header: its row, and counters that agree with the statuses of its items.
pub record Header (id : ℕ) (j : BatchJobRow) (db : Db) : Type 0 where
  pub found : first_where (λ k. k.id == id) db.batch_job ≡ some j
  pub completed : j.completed_items ≡ job_count is_completed_item id db.batch_job_item
  pub failures : j.failed_items ≡ job_count is_failed_item id db.batch_job_item

-- The job's row after the increments of a chunk.
record Counted (j j' : BatchJobRow) (done failed : ℕ) : Type 0 where
  completed : j'.completed_items ≡ j.completed_items + done
  failures : j'.failed_items ≡ j.failed_items + failed
  status : j'.status ≡ j.status

abbrev progress_row : ℕ → ℕ → ℕ → BatchJobRow → BatchJobRow
progress_row now done failed j =
    let j' = if ltb 0 done then incremented now (some done) none j else j in
    if ltb 0 failed then incremented now none (some failed) j' else j'

progress_row-Counted :
    (now done failed : ℕ) (j : BatchJobRow) → Counted j (progress_row now done failed j) done failed
progress_row-Counted now done failed j = ground arith

found_increment :
    (now id : ℕ) (c f : Option ℕ) (j : BatchJobRow) (db : Db)
    → first_where (λ k. k.id == id) db.batch_job ≡ some j
    → first_where (λ k. k.id == id) (increment_batch_job_progress now id c f db).batch_job
      ≡ some (incremented now c f j)
unfolding increment_batch_job_progress
found_increment now id c f j db e =
    first_where-update_where (λ k. k.id == id) (incremented now c f) (λ k. refl) db.batch_job
    ∙ ap (Option.map (incremented now c f)) e

-- What one turn of the loop has claimed, against the table that it began with.
pub record TurnClaimed (id : ℕ) (db : Db) (chunk : List BatchJobItemRow) (db' : Db) : Type 0 where
  pub ready : Ready id chunk db'.batch_job_item
  pub size : length chunk ≡ min batch_job_chunk_size (open_items id db)
  pub completed :
      job_count is_completed_item id db'.batch_job_item
      ≡ job_count is_completed_item id db.batch_job_item
  pub failures :
      job_count is_failed_item id db'.batch_job_item ≡ job_count is_failed_item id db.batch_job_item
  pub balance : open_items id db' ≡ open_items id db
  pub bounded : job_count is_processing_item id db'.batch_job_item ≤ length chunk
  pub unique : Unique db'.batch_job_item
  pub jobs : db'.batch_job ≡ db.batch_job

module _ (now id worker_id : ℕ) (db : Db) (u : Unique db.batch_job_item)
    (free : All (λ i. is_live now id i ≡ false) db.batch_job_item) where
  abbrev after_release : Db
  after_release = record db {
    batch_job_item = update_where (is_expired_lease now id) (released now) db.batch_job_item;
  }

  round-Released : Released id db.batch_job_item after_release.batch_job_item
  round-Released = release-Released now id db.batch_job_item free

  round-ChunkClaimed :
      ChunkClaimed id batch_job_chunk_size after_release.batch_job_item
        (map
          (claimed now (now + batch_job_lease_seconds * 1000) worker_id)
          (claim_selection now id batch_job_chunk_size after_release))
        (update_where
          (is_among (claim_selection now id batch_job_chunk_size after_release))
          (claimed now (now + batch_job_lease_seconds * 1000) worker_id)
          after_release.batch_job_item)
  round-ChunkClaimed =
      claim-ChunkClaimed now id batch_job_chunk_size (now + batch_job_lease_seconds * 1000)
        worker_id after_release (λ x. omega (arith, round-Released.ids x, u x))
        round-Released.processing

pub claim_round-TurnClaimed :
    (now id worker_id : ℕ) (db : Db)
    → Unique db.batch_job_item
    → All (λ i. is_live now id i ≡ false) db.batch_job_item
    → let (chunk, db') = claim_round now id worker_id db in TurnClaimed id db chunk db'
unfolding claim_batch_job_items release_expired_batch_job_leases
claim_round-TurnClaimed now id worker_id db u free =
    let r = round-Released now id worker_id db u free in
    let c = round-ChunkClaimed now id worker_id db u free in
    record {
      ready = c.ready;
      size = omega (arith, c.size, r.pending);
      completed = c.completed ∙ r.completed;
      failures = c.failures ∙ r.failures;
      balance = omega (arith, c.balance, r.pending);
      bounded = c.bounded;
      unique = λ x. omega (arith, c.ids x, r.ids x, u x);
      jobs = refl;
    }

module _ (to_upper_case : String → String) (zod_error : Json → String) where
  progress_found :
      (now id done failed : ℕ) (j : BatchJobRow) (db : Db)
      → first_where (λ k. k.id == id) db.batch_job ≡ some j
      → (first_where
            (λ k. k.id == id)
            (record_progress to_upper_case zod_error now id ((done, failed), db)).batch_job
          ≡ some (progress_row now done failed j))
        × ((record_progress to_upper_case zod_error now id ((done, failed), db)).batch_job_item
            ≡ db.batch_job_item)
  unfolding increment_batch_job_progress
  progress_found now id done failed j db e = ground (
    arith,
    found_increment now id (some done) none j db e,
    found_increment now id none (some failed) j db e,
    found_increment now id none (some failed) (incremented now (some done) none j)
        (increment_batch_job_progress now id (some done) none db),
  )

  -- A turn of the loop: nothing is left in processing, the open items fall by the chunk, and the
  -- counters in the header still agree with the items.
  pub record Turned (id : ℕ) (j : BatchJobRow) (db : Db) (taken : ℕ) (db' : Db) : Type 0 where
    pub row : BatchJobRow
    pub header : Header id row db'
    pub status : row.status ≡ j.status
    pub unique : Unique db'.batch_job_item
    pub settled : job_count is_processing_item id db'.batch_job_item ≡ 0
    pub fewer : open_items id db' + taken ≡ open_items id db
    pub conserved : all_items id db' ≡ all_items id db

  pub turn :
      (now id : ℕ) (type : BatchJobType) (j : BatchJobRow) (db : Db) (chunk : List BatchJobItemRow)
      (db2 : Db)
      → Header id j db
      → TurnClaimed id db chunk db2
      → Turned id j db (length chunk) (work_chunk to_upper_case zod_error now id type chunk db2)
  unfolding work_chunk
  turn now id type j db chunk db2 h c =
      let ((done, failed), db3) = process_chunk to_upper_case zod_error now type chunk 0 0 db2 in
      let w : Worked id chunk 0 0 db2 done failed db3 =
        process_chunk-Worked to_upper_case zod_error now id type chunk 0 0 db2 c.ready in
      let same_jobs : db3.batch_job ≡ db.batch_job = w.jobs ∙ c.jobs in
      let (found, items) =
        progress_found now id done failed j db3
          (ap (first_where (λ k. k.id == id)) same_jobs ∙ h.found) in
      let counted = progress_row-Counted now done failed j in
      record {
        row = progress_row now done failed j;
        header = record {
          found = found;
          completed =
              rw items (omega (arith, counted.completed, h.completed, w.completed, c.completed));
          failures = rw items (omega (arith, counted.failures, h.failures, w.failures, c.failures));
        };
        status = counted.status;
        unique = rw items (λ x. omega (arith, w.ids x, c.unique x));
        settled = rw items (omega (arith, w.processing, c.bounded));
        fewer = rw items (omega (arith, w.processing, w.pending, c.bounded, c.balance));
        conserved = rw items (
            omega (
              arith, w.processing, w.pending, w.completed, w.failures, w.settled_all, c.bounded,
              c.balance, c.completed, c.failures,
            ));
      }
