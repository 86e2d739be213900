-- ===== src/BatchJob/Process/Race.antt =====
-- Other writers of a batch job beside the run of packages/app/src/batch-jobs/process.ts: a cancel
-- that falls between its read and its first write, and leases that another worker holds.
use saa_sweave.Prelude.{
  ℕ, suc, ◌+◌, ◌<◌, String, ◌≡◌, refl, ap, true, false, some, List, [], ◌∷◌, arith, ◌==◌, All,
  All_map, All_of, ◌*◌,
}
use mathlib.Core.Option
use text.Mathlib.TextPositions.{eq_refl}
use saa_sweave.Prelude.Json.{Json}
use saa_sweave.Prelude.Sql.{first_where, update_where, update_where_none, keep_none}
use saa_sweave.BatchJob.{
  BatchJobRow, BatchJobStatus, Db, unset, is_active_status, cancel_batch_job, canceled_job,
  is_cancelable, get_batch_job_by_id, is_batch_job_canceled, update_batch_job_status, is_claimable,
  is_expired_lease, released, claimed, is_among, patch_job, claim_batch_job_items,
  release_expired_batch_job_leases,
}
use saa_sweave.BatchJob.Process.{
  Stop, process_batch_job, final_status, is_finished, batch_job_lease_seconds, run_job, drained,
  claim_round, process_rounds, conclude,
}
use saa_sweave.BatchJob.Process.Claimable.{Unique}
use saa_sweave.BatchJob.Process.Rounds.{open_items, all_items, Header}
use saa_sweave.BatchJob.Process.Completion.{
  IsLiveFree, IsFinished, run_job-IsFinished, found_patched, not_canceled, not_finished,
}

-- The cancel reaches the row with the id, if that row's organization and status allow it.
found_canceled :
    (now : ℕ) (org : String) (id : ℕ) (j : BatchJobRow) (jobs : List BatchJobRow)
    → first_where (λ k. k.id == id) jobs ≡ some j
    → j.organization_id ≡ org
    → is_active_status j.status ≡ true
    → first_where (λ k. k.id == id) (update_where (is_cancelable org id) (canceled_job now) jobs)
      ≡ some (canceled_job now j)
found_canceled now org id j [] e o a = ground arith
found_canceled now org id j (k ∷ rest) e o a =
    ground (arith, eq_refl org, found_canceled now org id j rest)

first_cancelable :
    (org : String) (id : ℕ) (j : BatchJobRow) (jobs : List BatchJobRow)
    → first_where (λ k. k.id == id) jobs ≡ some j
    → j.organization_id ≡ org
    → is_active_status j.status ≡ true
    → first_where (is_cancelable org id) jobs ≡ some j
first_cancelable org id j [] e o a = ground arith
first_cancelable org id j (k ∷ rest) e o a =
    ground (arith, eq_refl org, first_cancelable org id j rest)

module _ (to_upper_case : String → String) (zod_error : Json → String) where
  -- A cancel that falls between the run's read of the job and its first write is answered with the
  -- canceled job and then lost: the run goes on as if the job were active, processes every item,
  -- and leaves the job `completed` or `failed`.
  pub late_cancel_is_lost :
      (fuel : ℕ) (now : ℕ → ℕ) (t : ℕ) (id worker_id : ℕ) (j : BatchJobRow) (db : Db)
      → open_items id db < fuel
      → Header id j db
      → is_active_status j.status ≡ true
      → Unique db.batch_job_item
      → IsLiveFree (now 0) id db
      → let (answer, db1) = cancel_batch_job t j.organization_id id db in
        let (stop, db2) =
          run_job to_upper_case zod_error fuel now id worker_id (get_batch_job_by_id id db) db1 in
        (answer ≡ some (canceled_job t j)) × IsFinished id (all_items id db) stop db2
  unfolding cancel_batch_job get_batch_job_by_id IsLiveFree
  late_cancel_is_lost fuel now t id worker_id j db lt h active u free =
      let db1 = (cancel_batch_job t j.organization_id id db).1 in
      let header : Header id (canceled_job t j) db1 = record {
        found = found_canceled t j.organization_id id j db.batch_job h.found refl active;
        completed = h.completed;
        failures = h.failures;
      } in
      (
        ap (Option.map (canceled_job t))
            (first_cancelable j.organization_id id j db.batch_job h.found refl active),
        rw (h.found) (
            run_job-IsFinished to_upper_case zod_error fuel now id worker_id j (canceled_job t j)
              db1 lt header active u free),
      )

-- Nothing of the job can be claimed or released: its open items are all under live leases.
unfoldable pub IsHeld : (now id : ℕ) → Db → Type 0
IsHeld now id db =
    All (λ i. (is_claimable now id i ≡ false) × (is_expired_lease now id i ≡ false))
      db.batch_job_item

held_round :
    (now id worker_id : ℕ) (db : Db) → IsHeld now id db → claim_round now id worker_id db ≡ ([], db)
unfolding IsHeld claim_batch_job_items release_expired_batch_job_leases
held_round now id worker_id db h =
    let p = is_claimable now id in
    let q = is_expired_lease now id in
    rw
      (
        update_where_none q (released now) db.batch_job_item (
            All_map (λ i. (p i ≡ false) × (q i ≡ false)) (λ i. q i ≡ false) (λ i e. e.1)
              db.batch_job_item h),
        keep_none p db.batch_job_item (
            All_map (λ i. (p i ≡ false) × (q i ≡ false)) (λ i. p i ≡ false) (λ i e. e.0)
              db.batch_job_item h),
      )
      (ap (λ items. ([], record db { batch_job_item = items }))
        (update_where_none (is_among [])
          (claimed now (now + batch_job_lease_seconds * 1000) worker_id) db.batch_job_item
          (All_of (λ i. is_among [] i ≡ false) (λ i. refl) db.batch_job_item)))

-- What the run leaves of a job whose open items are all held: the items as they were, and a status.
pub record IsAbandoned (id : ℕ) (db : Db) (stop : Stop) (db' : Db) : Type 0 where
  pub stopped : stop ≡ drained 0
  pub items : db'.batch_job_item ≡ db.batch_job_item
  pub row : BatchJobRow
  pub found : first_where (λ k. k.id == id) db'.batch_job ≡ some row
  pub finished : is_finished row.status ≡ true

final_status_finished : (n : ℕ) (j : BatchJobRow) → is_finished (final_status n j).1 ≡ true
final_status_finished n j = ground arith

module _ (to_upper_case : String → String) (zod_error : Json → String) where
  -- When another worker holds live leases on all the open items of an active job, a run of the job
  -- claims nothing, leaves every item as it is (some of them in `processing`), and yet gives the
  -- job a final status.
  pub held_job_concluded :
      (fuel : ℕ) (now : ℕ → ℕ) (id worker_id : ℕ) (j : BatchJobRow) (db : Db)
      → get_batch_job_by_id id db ≡ some j
      → is_active_status j.status ≡ true
      → IsHeld (now 0) id db
      → let (stop, db') =
          process_batch_job to_upper_case zod_error (suc fuel) now id worker_id db in
        IsAbandoned id db stop db'
  unfolding process_batch_job process_rounds conclude get_batch_job_by_id update_batch_job_status
      is_batch_job_canceled IsHeld
  held_job_concluded fuel now id worker_id j db found active held =
      let begun = update_batch_job_status (now 0) id unset BatchJobStatus.processing db in
      let row = patch_job (now 0) unset BatchJobStatus.processing j in
      let begun_found = found_patched (now 0) id unset BatchJobStatus.processing j db found in
      let last = final_status 0 row in
      rw
        (
          found,
          not_finished j.status active,
          held_round (now 0) id worker_id begun held,
          not_canceled id row begun begun_found refl,
          begun_found,
        )
        (record {
          stopped = refl;
          items = refl;
          row = patch_job (now (suc fuel)) last.0 last.1 row;
          found = found_patched (now (suc fuel)) id last.0 last.1 row begun begun_found;
          finished = final_status_finished 0 row;
        })
