-- ===== src/BatchJob/Process/Completion.antt =====
-- `processBatchJob` from start to finish, when no other worker holds a live lease on the job.
use saa_sweave.Prelude.{
  ℕ, zero, suc, ◌+◌, ◌<◌, String, ◌≡◌, refl, sym, ap, ◌∙◌, inl, inr, true, false, ◌&&◌, Option,
  some, arith, ◌==◌, if◌then◌else◌, Bool-cases, ltb, length, All, All_map,
}
use mathlib.Core.Option
use saa_sweave.Prelude.Json.{Json}
use saa_sweave.Prelude.Sql.{first_where, first_where-update_where, All_of_count_zero}
use saa_sweave.BatchJob.{
  BatchJobRow, BatchJobStatus, BatchJobType, Db, Patch, unset, is_processing_item, is_active_status,
  is_batch_job_canceled, update_batch_job_status, patch_job, get_batch_job_by_id,
}
use saa_sweave.BatchJob.Process.{
  Stop, drained, claim_round, work_chunk, process_rounds, conclude, process_batch_job, final_status,
  is_finished, run_job,
}
use saa_sweave.BatchJob.Process.Counts.{in_job, job_count}
use saa_sweave.BatchJob.Process.Claimable.{Unique, is_live}
use saa_sweave.BatchJob.Process.Rounds.{
  open_items, all_items, Header, TurnClaimed, claim_round-TurnClaimed, turn,
}

unfoldable pub IsLiveFree : ℕ → ℕ → Db → Type 0
IsLiveFree now id db = All (λ i. is_live now id i ≡ false) db.batch_job_item

free_of_settled :
    (now id : ℕ) (db : Db)
    → job_count is_processing_item id db.batch_job_item ≡ 0
    → IsLiveFree now id db
unfolding IsLiveFree
free_of_settled now id db e =
    All_map (λ i. in_job is_processing_item id i ≡ false) (λ i. is_live now id i ≡ false)
      (λ i h. ground (arith, h)) db.batch_job_item
      (All_of_count_zero (in_job is_processing_item id) db.batch_job_item e)

pub not_canceled :
    (id : ℕ) (j : BatchJobRow) (db : Db)
    → first_where (λ k. k.id == id) db.batch_job ≡ some j
    → j.status ≡ BatchJobStatus.processing
    → is_batch_job_canceled id db ≡ false
unfolding is_batch_job_canceled
not_canceled id j db h e = rw (h, e)

-- The loop has come to its end with every item settled.
record Drained (id members : ℕ) (stop : Stop) (db : Db) : Type 0 where
  total : ℕ
  stopped : stop ≡ drained total
  row : BatchJobRow
  header : Header id row db
  status : row.status ≡ BatchJobStatus.processing
  all_settled : open_items id db ≡ 0
  conserved : all_items id db ≡ members

Drained-members :
    (id m n : ℕ) (stop : Stop) (db : Db) → m ≡ n → Drained id m stop db → Drained id n stop db
Drained-members id m n stop db e d = record {
  total = d.total;
  stopped = d.stopped;
  row = d.row;
  header = d.header;
  status = d.status;
  all_settled = d.all_settled;
  conserved = d.conserved ∙ e;
}

pub found_patched :
    (now id : ℕ) (error : Patch (Option String)) (status : BatchJobStatus) (j : BatchJobRow)
    (db : Db)
    → first_where (λ k. k.id == id) db.batch_job ≡ some j
    → first_where (λ k. k.id == id) (update_batch_job_status now id error status db).batch_job
      ≡ some (patch_job now error status j)
unfolding update_batch_job_status
found_patched now id error status j db e =
    first_where-update_where (λ k. k.id == id) (patch_job now error status) (λ k. refl) db.batch_job
    ∙ ap (Option.map (patch_job now error status)) e

-- What a finished run leaves: every item of the job completed or failed, none lost, counters that
-- agree with the items, and a final status that is `failed` only if nothing was completed.
pub record IsFinished (id members : ℕ) (stop : Stop) (db : Db) : Type 0 where
  pub total : ℕ
  pub stopped : stop ≡ drained total
  pub row : BatchJobRow
  pub header : Header id row db
  pub all_settled : open_items id db ≡ 0
  pub conserved : all_items id db ≡ members
  pub status : row.status ≡ (
      if ltb 0 row.failed_items && row.completed_items == 0
      then BatchJobStatus.failed
      else BatchJobStatus.completed)

pub not_finished :
    (status : BatchJobStatus) → is_active_status status ≡ true → is_finished status ≡ false
not_finished BatchJobStatus.pending e = refl
not_finished BatchJobStatus.processing e = refl
not_finished BatchJobStatus.completed e = ground arith
not_finished BatchJobStatus.failed e = ground arith
not_finished BatchJobStatus.canceled e = ground arith

module _ (to_upper_case : String → String) (zod_error : Json → String) where
  rounds-Drained :
      (fuel n : ℕ) (now : ℕ → ℕ) (id worker_id : ℕ) (type : BatchJobType) (total : ℕ)
      (j : BatchJobRow) (db : Db)
      → open_items id db < fuel
      → Header id j db
      → j.status ≡ BatchJobStatus.processing
      → Unique db.batch_job_item
      → IsLiveFree (now n) id db
      → let (stop, db') =
          process_rounds to_upper_case zod_error fuel n now id worker_id type total db in
        Drained id (all_items id db) stop db'
  unfolding process_rounds
  rounds-Drained zero n now id worker_id type total j db lt h active u free = absurd (omega arith)
  rounds-Drained (suc fuel) n now id worker_id type total j db lt h active u free =
      let (chunk, db2) = claim_round (now n) id worker_id db in
      let c : TurnClaimed id db chunk db2 =
        claim_round-TurnClaimed (now n) id worker_id db u (unfold IsLiveFree in free) in
      let w_db = work_chunk to_upper_case zod_error (now n) id type chunk db2 in
      let w = turn to_upper_case zod_error (now n) id type j db chunk db2 h c in
      let rest =
        process_rounds to_upper_case zod_error fuel (suc n) now id worker_id type
          (total + length chunk) w_db in
      rw (not_canceled id j db h.found active) (elim (Bool-cases (length chunk == 0)) [
        | inl empty ↦ rw empty (record {
          total = total;
          stopped = refl;
          row = j;
          header = record {
            found = ap (first_where (λ k. k.id == id)) c.jobs ∙ h.found;
            completed = h.completed ∙ sym c.completed;
            failures = h.failures ∙ sym c.failures;
          };
          status = active;
          all_settled = ground (arith, c.size, c.balance);
          conserved = omega (arith, c.balance, c.completed, c.failures);
        })
        | inr more ↦ rw more (
            Drained-members id (all_items id w_db) (all_items id db) rest.0 rest.1 w.conserved (
              rounds-Drained fuel (suc n) now id worker_id type (total + length chunk) w.row w_db
                (ground (arith, w.fewer, c.size)) w.header (w.status ∙ active) w.unique
                (free_of_settled (now (suc n)) id w_db w.settled)))
      ])

  concluded-IsFinished :
      (now id members : ℕ) (stop : Stop) (db : Db) (d : Drained id members stop db)
      → IsFinished id members (drained d.total) (
          update_batch_job_status now id
            (final_status d.total d.row).0
            (final_status d.total d.row).1
            db)
  unfolding update_batch_job_status
  concluded-IsFinished now id members stop db d =
      let result = final_status d.total d.row in
      record {
        total = d.total;
        stopped = refl;
        row = patch_job now result.0 result.1 d.row;
        header = record {
          found = found_patched now id result.0 result.1 d.row db d.header.found;
          completed = d.header.completed;
          failures = d.header.failures;
        };
        all_settled = d.all_settled;
        conserved = d.conserved;
        status = ground arith;
      }

  conclude-IsFinished :
      (now id members : ℕ) (stop : Stop) (db : Db)
      → Drained id members stop db
      → let (stop', db') = conclude to_upper_case zod_error now id (stop, db) in
        IsFinished id members stop' db'
  unfolding conclude get_batch_job_by_id
  conclude-IsFinished now id members stop db d =
      rw (d.stopped, not_canceled id d.row db d.header.found d.status, d.header.found, d.status)
        (concluded-IsFinished now id members stop db d)

  -- The run from the row that was read at its start, `seen`, over the tables as they are then.
  pub run_job-IsFinished :
      (fuel : ℕ) (now : ℕ → ℕ) (id worker_id : ℕ) (seen j : BatchJobRow) (db : Db)
      → open_items id db < fuel
      → Header id j db
      → is_active_status seen.status ≡ true
      → Unique db.batch_job_item
      → IsLiveFree (now 0) id db
      → let (stop, db') = run_job to_upper_case zod_error fuel now id worker_id (some seen) db in
        IsFinished id (all_items id db) stop db'
  unfolding IsLiveFree update_batch_job_status
  run_job-IsFinished fuel now id worker_id seen j db lt h active u free =
      let begun = update_batch_job_status (now 0) id unset BatchJobStatus.processing db in
      let row = patch_job (now 0) unset BatchJobStatus.processing j in
      let header : Header id row begun = record {
        found = found_patched (now 0) id unset BatchJobStatus.processing j db h.found;
        completed = h.completed;
        failures = h.failures;
      } in
      let rest = process_rounds to_upper_case zod_error fuel 0 now id worker_id seen.type 0 begun in
      rw (not_finished seen.status active) (
        conclude-IsFinished (now fuel) id (all_items id db) rest.0 rest.1
          (rounds-Drained fuel 0 now id worker_id seen.type 0 row begun lt header refl u free))

  -- A run over an active job whose header counts its items, when every id is in the table once and
  -- no lease of the job's items is still live, ends if it has more rounds than the job has open
  -- items: then no item is pending or processing, the job has as many items as before, the
  -- counters agree with the items' statuses, and the job is `failed` if items have failed and
  -- none was completed, and `completed` otherwise.
  pub process_batch_job_completes :
      (fuel : ℕ) (now : ℕ → ℕ) (id worker_id : ℕ) (j : BatchJobRow) (db : Db)
      → open_items id db < fuel
      → Header id j db
      → is_active_status j.status ≡ true
      → Unique db.batch_job_item
      → IsLiveFree (now 0) id db
      → let (stop, db') = process_batch_job to_upper_case zod_error fuel now id worker_id db in
        IsFinished id (all_items id db) stop db'
  unfolding process_batch_job get_batch_job_by_id
  process_batch_job_completes fuel now id worker_id j db lt h active u free =
      rw (h.found) (run_job-IsFinished fuel now id worker_id j j db lt h active u free)
