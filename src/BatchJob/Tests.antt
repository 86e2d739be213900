-- ===== src/BatchJob/Tests.antt =====
-- Runs of the worker on small tables, and the theorems on batch jobs at concrete inputs.
use saa_sweave.Prelude.{ℕ, ◌+◌, String, ◌≡◌, refl, Option, none, some, [], ◌∷◌, arith}
use mathlib.Core.List.{Memᴰ}
use saa_sweave.Prelude.Json.{Json, Fields}
use saa_sweave.BatchJob.{
  create_batch_job_with_items, BatchJobRow, BatchJobItemRow, BatchJobStatus, BatchJobItemStatus,
  BatchJobType, Db, cancel_batch_job, canceled_job, get_batch_job_by_id,
}
use saa_sweave.BatchJob.Process.{process_batch_job, run_job}
use saa_sweave.BatchJob.Process.Claimable.{Unique}
use saa_sweave.BatchJob.Process.Rounds.{Header}
use saa_sweave.BatchJob.Process.Completion.{IsLiveFree, IsFinished, process_batch_job_completes}
use saa_sweave.BatchJob.Process.Race.{IsHeld, IsAbandoned, late_cancel_is_lost, held_job_concluded}
use saa_sweave.BatchJob.Process.Creation.{IsWaiting, create_batch_job_with_items-IsWaiting}
use saa_sweave.BatchJob.Process.Lease.{LeasedUntil, claim_rounds, lease_excludes}

abbrev item : (id : ℕ) → BatchJobItemStatus → Json → Option ℕ → BatchJobItemRow
item id status input lease = record {
  attempts = 0;
  batch_job_id = 7;
  claimed_at = none;
  created_at = id;
  error = none;
  id = id;
  input = input;
  lease_expires_at = lease;
  output = none;
  status = status;
  updated_at = 0;
  worker_id = none;
}

abbrev text_input : Json
text_input = Json.obj (Fields.field "text" (Json.str "abc") Fields.end)

abbrev job : BatchJobRow
job = record {
  completed_items = 0;
  created_at = 0;
  created_by_user_id = "user";
  error = none;
  failed_items = 0;
  id = 7;
  organization_id = "org";
  status = BatchJobStatus.pending;
  total_items = 3;
  type = BatchJobType.uppercase;
  updated_at = 0;
}

-- A pending item, one whose worker died, and one with an input of the wrong shape.
abbrev table : Db
table = record {
  batch_job = job ∷ [];
  batch_job_item =
      item 1 BatchJobItemStatus.pending text_input none
      ∷ item 2 BatchJobItemStatus.processing text_input (some 5)
      ∷ item 3 BatchJobItemStatus.pending Json.null none
      ∷ [];
}

abbrev clock : ℕ → ℕ
clock n = 1000 + n

abbrev same_text : String → String
same_text s = s

abbrev parse_message : Json → String
parse_message j = "invalid input"

table-Unique : Unique table.batch_job_item
table-Unique x = ground arith

table-Header : Header 7 job table
table-Header = record { found = refl; completed = refl; failures = refl }

table-IsLiveFree : IsLiveFree 1000 7 table
unfolding IsLiveFree
table-IsLiveFree = (refl, (refl, (refl, tt)))

process_batch_job_completes_example :
    let (stop, db') = process_batch_job same_text parse_message 4 clock 7 9 table in
    IsFinished 7 3 stop db'
process_batch_job_completes_example =
    process_batch_job_completes same_text parse_message 4 clock 7 9 job table (omega arith)
      table-Header refl table-Unique table-IsLiveFree

late_cancel_is_lost_example :
    let (answer, db1) = cancel_batch_job 999 "org" 7 table in
    let (stop, db2) =
      run_job same_text parse_message 4 clock 7 9 (get_batch_job_by_id 7 table) db1 in
    (answer ≡ some (canceled_job 999 job)) × IsFinished 7 3 stop db2
late_cancel_is_lost_example =
    late_cancel_is_lost same_text parse_message 4 clock 999 7 9 job table (omega arith) table-Header
      refl table-Unique table-IsLiveFree

-- The same job while another worker holds its last open item.
abbrev leased_item : BatchJobItemRow
leased_item = item 1 BatchJobItemStatus.processing text_input (some 121_000)

abbrev held_table : Db
held_table = record { batch_job = job ∷ []; batch_job_item = leased_item ∷ [] }

held_table-IsHeld : IsHeld 1000 7 held_table
unfolding IsHeld
held_table-IsHeld = ((refl, refl), tt)

held_job_concluded_test :
    let (stop, db') = process_batch_job same_text parse_message 1 clock 7 9 held_table in
    IsAbandoned 7 held_table stop db'
unfolding get_batch_job_by_id
held_job_concluded_test =
    held_job_concluded same_text parse_message 0 clock 7 9 job held_table refl refl
      held_table-IsHeld

leased_item-LeasedUntil : LeasedUntil 121_000 leased_item
leased_item-LeasedUntil = record { status = refl; lease = refl }

held_table-Unique : Unique held_table.batch_job_item
held_table-Unique x = ground arith

lease_excludes_example :
    Memᴰ leased_item (claim_rounds 7 ((2000, 9) ∷ (121_000, 8) ∷ []) held_table).batch_job_item
lease_excludes_example =
    lease_excludes 7 121_000 leased_item ((2000, 9) ∷ (121_000, 8) ∷ []) held_table
      held_table-Unique (Memᴰ.head refl) leased_item-LeasedUntil (omega arith, (omega arith, tt))

create_batch_job_test :
    IsWaiting 8 2
      (create_batch_job_with_items 50 8 "user" "org" BatchJobType.uppercase
        ((4, text_input) ∷ (5, Json.null) ∷ [])
        table).1
create_batch_job_test =
    create_batch_job_with_items-IsWaiting 50 8 "user" "org" BatchJobType.uppercase
      ((4, text_input) ∷ (5, Json.null) ∷ []) table refl (refl, (refl, (refl, tt)))
