-- ===== src/BatchJob/Tables.antt =====
-- The rows of packages/db/src/schema/batch-job.schema.ts, and the tests on statuses in the WHERE
-- conditions of packages/db/src/batch-job.ts.
use saa_sweave.Prelude.{ℕ, String, Bool, true, false, Option, List}
use saa_sweave.Prelude.Json.{Json}

pub data BatchJobStatus : Type 0 where
  pending processing completed failed canceled : BatchJobStatus

pub data BatchJobItemStatus : Type 0 where
  pending processing completed failed : BatchJobItemStatus

pub data BatchJobType : Type 0 where
  uppercase : BatchJobType

pub record BatchJobRow : Type 0 where
  pub completed_items : ℕ
  pub created_at : ℕ
  pub created_by_user_id : String
  pub error : Option String
  pub failed_items : ℕ
  pub id : ℕ
  pub organization_id : String
  pub status : BatchJobStatus
  pub total_items : ℕ
  pub type : BatchJobType
  pub updated_at : ℕ

pub record BatchJobItemRow : Type 0 where
  pub attempts : ℕ
  pub batch_job_id : ℕ
  pub claimed_at : Option ℕ
  pub created_at : ℕ
  pub error : Option String
  pub id : ℕ
  pub input : Json
  pub lease_expires_at : Option ℕ
  pub output : Option Json
  pub status : BatchJobItemStatus
  pub updated_at : ℕ
  pub worker_id : Option ℕ

pub record Db : Type 0 where
  pub batch_job : List BatchJobRow
  pub batch_job_item : List BatchJobItemRow

abbrev pub is_processing_item : BatchJobItemStatus → Bool
is_processing_item processing = true
is_processing_item _ = false

abbrev pub is_pending_item : BatchJobItemStatus → Bool
is_pending_item pending = true
is_pending_item _ = false

abbrev pub is_canceled_status : BatchJobStatus → Bool
is_canceled_status canceled = true
is_canceled_status _ = false

-- `status IN ('pending', 'processing')`
abbrev pub is_active_status : BatchJobStatus → Bool
is_active_status pending = true
is_active_status processing = true
is_active_status _ = false
