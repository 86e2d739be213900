-- ===== src/BatchJob/Process.antt =====
-- The worker of batch jobs: packages/app/src/batch-jobs/handlers.ts and
-- packages/app/src/batch-jobs/process.ts, with the constants and the input schema of
-- packages/core/src/batch-jobs. `toUpperCase` and the message of a failed zod parse are parameters.
-- The clock is read once in a round: `now n` is the time in round `n`. Other writers of the tables
-- between the steps of the loop are in `Race` and `Lease`.
pub mod Item
pub mod Counts
pub mod Claimable
pub mod Claims
pub mod Rounds
pub mod Completion
pub mod Race
pub mod Lease
pub mod Creation
use saa_sweave.Prelude.{
  ℕ, zero, suc, ◌+◌, String, ◌≡◌, refl, Bool, true, false, ◌&&◌, Option, none, some, List, [], ◌∷◌,
  ltb, leb, ◌==◌, if◌then◌else◌, length,
}
use saa_sweave.Prelude.Json.{Json, Fields, property, utf16_length}
use saa_sweave.BatchJob.{
  BatchJobRow, BatchJobItemRow, BatchJobStatus, BatchJobItemStatus, BatchJobType, uppercase, Db,
  Patch, unset, set_to, ItemPatch, get_batch_job_by_id, update_batch_job_status,
  update_batch_job_item_status, is_batch_job_canceled, release_expired_batch_job_leases,
  claim_batch_job_items, increment_batch_job_progress, is_canceled_status,
}

abbrev pub batch_job_chunk_size : ℕ
batch_job_chunk_size = 50

abbrev pub batch_job_lease_seconds : ℕ
batch_job_lease_seconds = 120

abbrev pub item_process_max_attempts : ℕ
item_process_max_attempts = 3

pub data Outcome : Type 0 where
  returns : Json → Outcome
  throws : (message : String) → Outcome

-- `z.object({ text: z.string().min(1).max(10_000) })`
abbrev checked_text : Option Json → Option String
checked_text (some (Json.str s)) =
    if leb 1 (utf16_length s) && leb (utf16_length s) 10_000 then some s else none
checked_text _ = none

unfoldable pub uppercase_input : Json → Option String
unfolding property utf16_length
uppercase_input (Json.obj fields) = checked_text (property "text" fields)
uppercase_input _ = none

-- What a round of the loop ends with.
pub data Stop : Type 0 where
  canceled : Stop
  drained : (claimed_total : ℕ) → Stop
  out_of_fuel : Stop

abbrev started : ℕ → ItemPatch
started attempt = record {
  attempts = set_to attempt;
  error = unset;
  output = unset;
  status = BatchJobItemStatus.processing;
  claimed_at = unset;
  lease_expires_at = unset;
  worker_id = unset;
}

abbrev succeeded : ℕ → Json → ItemPatch
succeeded attempt output = record {
  attempts = set_to attempt;
  error = set_to none;
  output = set_to (some output);
  status = BatchJobItemStatus.completed;
  claimed_at = set_to none;
  lease_expires_at = set_to none;
  worker_id = set_to none;
}

abbrev gave_up : Option String → ItemPatch
gave_up last_error = record {
  attempts = unset;
  error = set_to last_error;
  output = unset;
  status = BatchJobItemStatus.failed;
  claimed_at = set_to none;
  lease_expires_at = set_to none;
  worker_id = set_to none;
}

-- The body of the `while (true)` up to its `break` and `return`: a claimed chunk, or a stop.
abbrev pub claim_round : (now id worker_id : ℕ) → Db → List BatchJobItemRow × Db
claim_round now id worker_id db =
    claim_batch_job_items now id batch_job_chunk_size batch_job_lease_seconds worker_id
      (release_expired_batch_job_leases now id db).1

abbrev pub is_finished : BatchJobStatus → Bool
is_finished BatchJobStatus.completed = true
is_finished BatchJobStatus.failed = true
is_finished BatchJobStatus.canceled = true
is_finished _ = false

abbrev pub final_status : (claimed_total : ℕ) → BatchJobRow → Patch (Option String) × BatchJobStatus
final_status claimed_total job =
    if claimed_total == 0 && job.completed_items == 0 && job.failed_items == 0
    then (set_to none, BatchJobStatus.completed)
    else if ltb 0 job.failed_items && job.completed_items == 0
    then (set_to (some "All batch items failed"), BatchJobStatus.failed)
    else (set_to none, BatchJobStatus.completed)

module _ (to_upper_case : String → String) (zod_error : Json → String) where
  abbrev uppercase_result : Json → Option String → Outcome
  uppercase_result input none = throws (zod_error input)
  uppercase_result input (some text) =
      returns (Json.obj (Fields.field "text" (Json.str (to_upper_case text)) Fields.end))

  pub process_batch_item : BatchJobType → Json → Outcome
  unfolding uppercase_input
  process_batch_item uppercase input = uppercase_result input (uppercase_input input)

  -- The attempts that are left, from the number of the next one; the error of the last one stays.
  pub attempt_item :
      (left attempt now : ℕ)
      → Outcome
      → BatchJobItemRow
      → Option String
      → Db
      → (Bool × Option String) × Db
  attempt_item zero attempt now outcome item last_error db = ((false, last_error), db)
  attempt_item (suc left) attempt now (returns output) item last_error db = (
    (true, last_error),
    update_batch_job_item_status now item.id (succeeded attempt output)
        (update_batch_job_item_status now item.id (started attempt) db),
  )
  attempt_item (suc left) attempt now (throws message) item last_error db =
      attempt_item left (attempt + 1) now (throws message) item (some message)
        (update_batch_job_item_status now item.id (started attempt) db)

  abbrev finish_item : ℕ → BatchJobItemRow → (Bool × Option String) × Db → Bool × Db
  finish_item now item ((done, last_error), db) =
      if done
      then (true, db)
      else (false, update_batch_job_item_status now item.id (gave_up last_error) db)

  pub process_item : ℕ → BatchJobType → BatchJobItemRow → Db → Bool × Db
  unfolding attempt_item process_batch_item
  process_item now type item db = finish_item now item (
      attempt_item item_process_max_attempts 1 now (process_batch_item type item.input) item none
        db)

  -- The `for` over the chunk, with the numbers completed and failed in it.
  pub process_chunk :
      ℕ → BatchJobType → List BatchJobItemRow → (done failed : ℕ) → Db → (ℕ × ℕ) × Db
  process_chunk now type [] done failed db = ((done, failed), db)
  process_chunk now type (item ∷ rest) done failed db =
      let (ok, db') = process_item now type item db in
      process_chunk now type rest (if ok then suc done else done)
        (if ok then failed else suc failed) db'

  abbrev record_progress : (now id : ℕ) → (ℕ × ℕ) × Db → Db
  record_progress now id ((done, failed), db) =
      let db' =
        if ltb 0 done then increment_batch_job_progress now id (some done) none db else db in
      if ltb 0 failed then increment_batch_job_progress now id none (some failed) db' else db'

  pub work_chunk : (now id : ℕ) → BatchJobType → List BatchJobItemRow → Db → Db
  unfolding process_chunk
  work_chunk now id type chunk db = record_progress now id (process_chunk now type chunk 0 0 db)

  pub process_rounds :
      (fuel n : ℕ) → (ℕ → ℕ) → (id worker_id : ℕ) → BatchJobType → ℕ → Db → Stop × Db
  process_rounds zero n now id worker_id type total db = (out_of_fuel, db)
  process_rounds (suc fuel) n now id worker_id type total db =
      let (chunk, db') = claim_round (now n) id worker_id db in
      let rest =
        process_rounds fuel (suc n) now id worker_id type (total + length chunk)
          (work_chunk (now n) id type chunk db') in
      if is_batch_job_canceled id db
      then (canceled, db)
      else if length chunk == 0
      then (drained total, db')
      else rest

  abbrev conclude_job : (now id claimed_total : ℕ) → Option BatchJobRow → Db → Db
  conclude_job now id claimed_total none db = db
  conclude_job now id claimed_total (some job) db =
      if is_canceled_status job.status
      then db
      else update_batch_job_status now id (final_status claimed_total job).0
          (final_status claimed_total job).1 db

  -- What follows the loop.
  pub conclude : (now id : ℕ) → Stop × Db → Stop × Db
  conclude now id (drained claimed_total, db) = (
    drained claimed_total,
    if is_batch_job_canceled id db
        then db
        else conclude_job now id claimed_total (get_batch_job_by_id id db) db,
  )
  conclude now id (stop, db) = (stop, db)

  -- The run from the row that was read first; the tables may have changed since.
  abbrev pub run_job :
      (fuel : ℕ) → (ℕ → ℕ) → (id worker_id : ℕ) → Option BatchJobRow → Db → Stop × Db
  run_job fuel now id worker_id none db = (drained 0, db)
  run_job fuel now id worker_id (some job) db =
      if is_finished job.status
      then (drained 0, db)
      else conclude (now fuel) id (
          process_rounds fuel 0 now id worker_id job.type 0
            (update_batch_job_status (now 0) id unset BatchJobStatus.processing db))

  pub process_batch_job : (fuel : ℕ) → (ℕ → ℕ) → (id worker_id : ℕ) → Db → Stop × Db
  unfolding conclude process_rounds work_chunk
  process_batch_job fuel now id worker_id db =
      run_job fuel now id worker_id (get_batch_job_by_id id db) db
