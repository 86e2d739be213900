-- ===== src/Export/Process.antt =====
-- `processDataExportRequest` of packages/app/src/data-export/process.ts. What the stream ends with
-- and what other requests to the server write to the table meanwhile are arguments; the audit
-- entries and metrics change nothing here.
use saa_sweave.Prelude.{
  ℕ, ◌+◌, ◌*◌, String, Bool, true, false, ◌||◌, Option, none, some, List, is_some, if◌then◌else◌,
}
use saa_sweave.BatchJob.{set_to}
use saa_sweave.Retention.{DataExportStatus}
use saa_sweave.Export.Requests.{
  Request, RequestPatch, only_status, is_canceled, get_data_export_request_by_id,
  update_data_export_request_status,
}

abbrev pub data_export_file_retention_days : ℕ
data_export_file_retention_days = 7

abbrev pub compute_data_export_expires_at : ℕ → ℕ
compute_data_export_expires_at from = from + data_export_file_retention_days * 86_400_000

-- What `streamOrganizationDataExport` returns or throws.
pub data StreamEnd : Type 0 where
  streamed : (bytes_written : ℕ) → (file_key : String) → (rows_written : ℕ) → StreamEnd
  export_canceled : StreamEnd
  fails : (message : String) → StreamEnd

pub data ProcessResult : Type 0 where
  missing already_ready canceled : ProcessResult
  ready : (organization_id requested_by_user_id : String) → ProcessResult
  throws : ProcessResult

abbrev pub is_ready : DataExportStatus → Bool
is_ready DataExportStatus.ready = true
is_ready _ = false

abbrev pub set_status : ℕ → RequestPatch → List Request → List Request
set_status id p requests = (update_data_export_request_status id p requests).1

abbrev pub ready_patch : ℕ → ℕ → String → ℕ → RequestPatch
ready_patch now bytes key rows = record (only_status DataExportStatus.ready) {
  bytes_written = set_to bytes;
  completed_at = set_to (some now);
  expires_at = set_to (some (compute_data_export_expires_at now));
  file_key = set_to (some key);
  rows_written = set_to rows;
}

abbrev pub canceled_patch : ℕ → RequestPatch
canceled_patch now = record (only_status DataExportStatus.canceled) {
  completed_at = set_to (some now);
}

abbrev pub failed_patch : ℕ → String → RequestPatch
failed_patch now message = record (only_status DataExportStatus.failed) {
  completed_at = set_to (some now);
  error = set_to (some message);
}

abbrev pub conclude_export :
    ℕ → ℕ → Request → StreamEnd → List Request → ProcessResult × List Request
conclude_export now id seen (streamed bytes key rows) requests = (
  ready seen.organization_id seen.requested_by_user_id,
  set_status id (ready_patch now bytes key rows) requests,
)
conclude_export now id seen export_canceled requests =
    (canceled, set_status id (canceled_patch now) requests)
conclude_export now id seen (fails message) requests =
    (throws, set_status id (failed_patch now message) requests)

abbrev pub run_export :
    ℕ
    → ℕ
    → Option Request
    → StreamEnd
    → (List Request → List Request)
    → List Request
    → ProcessResult × List Request
run_export now id none end meanwhile requests = (missing, requests)
run_export now id (some seen) end meanwhile requests =
    if is_ready seen.status
    then (already_ready, requests)
    else if is_canceled seen.status || is_some seen.canceled_at
    then (canceled, requests)
    else conclude_export now id seen end
        (meanwhile (set_status id (only_status DataExportStatus.processing) requests))

unfoldable pub process_data_export_request :
    ℕ → ℕ → StreamEnd → (List Request → List Request) → List Request → ProcessResult × List Request
unfolding get_data_export_request_by_id update_data_export_request_status
process_data_export_request now id end meanwhile requests =
    run_export now id (get_data_export_request_by_id id requests) end meanwhile requests
