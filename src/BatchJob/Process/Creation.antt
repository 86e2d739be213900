-- ===== src/BatchJob/Process/Creation.antt =====
-- A job as `createBatchJobWithItems` of packages/db/src/batch-job.ts leaves it for the worker.
use saa_sweave.Prelude.{
  ℕ, suc, String, ◌≡◌, refl, ap, Bool, true, false, none, some, List, [], ◌∷◌, ◌++◌, arith, ◌==◌,
  ==_refl, if◌then◌else◌, length, All,
}
use saa_sweave.Prelude.Json.{Json}
use saa_sweave.Prelude.Sql.{first_where}
use saa_sweave.BatchJob.{
  BatchJobRow, BatchJobItemRow, BatchJobStatus, BatchJobItemStatus, BatchJobType, Db, item_rows,
  is_pending_item, is_processing_item, create_batch_job_with_items,
}
use saa_sweave.BatchJob.Process.Counts.{job_count, is_completed_item, is_failed_item}
use saa_sweave.BatchJob.Process.Rounds.{open_items, all_items, Header}

first_appended :
    (p : BatchJobRow → Bool) (rows : List BatchJobRow) (j : BatchJobRow)
    → first_where p rows ≡ none
    → p j ≡ true
    → first_where p (rows ++ j ∷ []) ≡ some j
first_appended p [] j h e = rw e refl
first_appended p (k ∷ rows) j h e = ground (arith, first_appended p rows j)

length-item_rows :
    (now id : ℕ) (items : List (ℕ × Json)) → length (item_rows now id items) ≡ length items
length-item_rows now id [] = refl
length-item_rows now id ((x, input) ∷ rest) = ap suc (length-item_rows now id rest)

-- Only the new items count for the new job.
count_appended :
    (t : BatchJobItemStatus → Bool) (now id : ℕ) (items : List (ℕ × Json))
    (old : List BatchJobItemRow)
    → All (λ i. (i.batch_job_id == id) ≡ false) old
    → job_count t id (old ++ item_rows now id items)
      ≡ (if t BatchJobItemStatus.pending then length items else 0)
count_appended t now id [] [] h = ground arith
count_appended t now id ((x, input) ∷ rest) [] h =
    ground (arith, count_appended t now id rest [] tt, ==_refl id)
count_appended t now id items (i ∷ old) h =
    ground (arith, count_appended t now id items old h.1, h.0)

-- A job that waits for the worker, with a number of items.
pub record IsWaiting (id n : ℕ) (db : Db) : Type 0 where
  pub row : BatchJobRow
  pub header : Header id row db
  pub status : row.status ≡ BatchJobStatus.pending
  pub total : row.total_items ≡ n
  pub waiting : open_items id db ≡ n
  pub members : all_items id db ≡ n

-- A job created under a fresh id, which no job and no item bears, waits for the worker with all its
-- items open: its header counts them, and its total is the number of inputs.
pub create_batch_job_with_items-IsWaiting :
    (now id : ℕ) (user org : String) (type : BatchJobType) (items : List (ℕ × Json)) (db : Db)
    → first_where (λ j. j.id == id) db.batch_job ≡ none
    → All (λ i. (i.batch_job_id == id) ≡ false) db.batch_job_item
    → IsWaiting id (length items) (create_batch_job_with_items now id user org type items db).1
unfolding create_batch_job_with_items
create_batch_job_with_items-IsWaiting now id user org type items db fresh none_yet =
    let row : BatchJobRow = record {
      completed_items = 0;
      created_at = now;
      created_by_user_id = user;
      error = none;
      failed_items = 0;
      id = id;
      organization_id = org;
      status = BatchJobStatus.pending;
      total_items = length (item_rows now id items);
      type = type;
      updated_at = now;
    } in
    let counts =
      λ (t : BatchJobItemStatus → Bool). count_appended t now id items db.batch_job_item none_yet in
    record {
      row = row;
      header = record {
        found = first_appended (λ j. j.id == id) db.batch_job row fresh (==_refl id);
        completed = omega (arith, counts is_completed_item);
        failures = omega (arith, counts is_failed_item);
      };
      status = refl;
      total = length-item_rows now id items;
      waiting = omega (arith, counts is_pending_item, counts is_processing_item);
      members = omega (
        arith,
        counts is_pending_item,
        counts is_processing_item,
        counts is_completed_item,
        counts is_failed_item,
      );
    }
