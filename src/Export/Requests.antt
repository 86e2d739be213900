-- ===== src/Export/Requests.antt =====
-- The requests for exports and their queries: packages/db/src/data-export-request.ts. Times are
-- milliseconds; the checkpoint, which every writer sets to null, and the format, which has one
-- value, are left out.
use saa_sweave.Prelude.{
  ℕ, String, Bool, true, false, ◌&&◌, ◌||◌, Option, none, some, List, [], ◌∷◌, ◌++◌, ◌==◌, keep,
  take, is_some,
}
use mathlib.Core.Option
use text.Mathlib.Text.{◌==◌ as str_eq}
use saa_sweave.Prelude.Sql.{update_where, first_where, sort_by_desc}
use saa_sweave.BatchJob.{Patch, unset, patched}
use saa_sweave.Retention.{DataExportStatus}

pub record Request : Type 0 where
  pub bytes_written : ℕ
  pub canceled_at : Option ℕ
  pub completed_at : Option ℕ
  pub created_at : ℕ
  pub download_revoked_at : Option ℕ
  pub error : Option String
  pub expires_at : Option ℕ
  pub file_key : Option String
  pub id : ℕ
  pub organization_id : String
  pub requested_by_user_id : String
  pub rows_written : ℕ
  pub status : DataExportStatus

abbrev pub is_canceled : DataExportStatus → Bool
is_canceled DataExportStatus.canceled = true
is_canceled _ = false

abbrev pub is_processing : DataExportStatus → Bool
is_processing DataExportStatus.processing = true
is_processing _ = false

pub create_data_export_request :
    (now id : ℕ) → (organization_id user_id : String) → List Request → Request × List Request
create_data_export_request now id organization_id user_id requests =
    let row : Request = record {
      bytes_written = 0;
      canceled_at = none;
      completed_at = none;
      created_at = now;
      download_revoked_at = none;
      error = none;
      expires_at = none;
      file_key = none;
      id = id;
      organization_id = organization_id;
      requested_by_user_id = user_id;
      rows_written = 0;
      status = DataExportStatus.pending;
    } in
    (row, requests ++ row ∷ [])

pub get_data_export_request : String → ℕ → List Request → Option Request
get_data_export_request organization_id id =
    first_where (λ r. r.id == id && str_eq r.organization_id organization_id)

unfoldable pub get_data_export_request_by_id : ℕ → List Request → Option Request
get_data_export_request_by_id id requests = first_where (λ r. r.id == id) requests

pub list_data_export_requests : String → ℕ → List Request → List Request
list_data_export_requests organization_id limit requests = take limit (
    sort_by_desc (λ r. r.created_at)
      (keep (λ r. str_eq r.organization_id organization_id) requests))

pub record RequestPatch : Type 0 where
  pub status : DataExportStatus
  pub bytes_written : Patch ℕ
  pub canceled_at : Patch (Option ℕ)
  pub completed_at : Patch (Option ℕ)
  pub download_revoked_at : Patch (Option ℕ)
  pub error : Patch (Option String)
  pub expires_at : Patch (Option ℕ)
  pub file_key : Patch (Option String)
  pub rows_written : Patch ℕ

-- `{ status }`
abbrev pub only_status : DataExportStatus → RequestPatch
only_status status = record {
  status = status;
  bytes_written = unset;
  canceled_at = unset;
  completed_at = unset;
  download_revoked_at = unset;
  error = unset;
  expires_at = unset;
  file_key = unset;
  rows_written = unset;
}

abbrev pub patch_request : RequestPatch → Request → Request
patch_request p r = record r {
  bytes_written = patched p.bytes_written r.bytes_written;
  canceled_at = patched p.canceled_at r.canceled_at;
  completed_at = patched p.completed_at r.completed_at;
  download_revoked_at = patched p.download_revoked_at r.download_revoked_at;
  error = patched p.error r.error;
  expires_at = patched p.expires_at r.expires_at;
  file_key = patched p.file_key r.file_key;
  rows_written = patched p.rows_written r.rows_written;
  status = p.status;
}

unfoldable pub update_data_export_request_status :
    ℕ → RequestPatch → List Request → Option Request × List Request
update_data_export_request_status id p requests = (
  Option.map (patch_request p) (first_where (λ r. r.id == id) requests),
  update_where (λ r. r.id == id) (patch_request p) requests,
)

abbrev pub is_cancelable : String → ℕ → Request → Bool
is_cancelable organization_id id r =
    r.id == id && str_eq r.organization_id organization_id && is_processing r.status

abbrev pub canceled_request : ℕ → Request → Request
canceled_request now r = record r { canceled_at = some now; status = DataExportStatus.canceled }

unfoldable pub cancel_data_export_request :
    ℕ → String → ℕ → List Request → Option Request × List Request
cancel_data_export_request now organization_id id requests = (
  Option.map (canceled_request now) (first_where (is_cancelable organization_id id) requests),
  update_where (is_cancelable organization_id id) (canceled_request now) requests,
)

abbrev counts_as_canceled : Option Request → Bool
counts_as_canceled none = true
counts_as_canceled (some r) = is_canceled r.status || is_some r.canceled_at

pub is_data_export_canceled : ℕ → List Request → Bool
is_data_export_canceled id requests = counts_as_canceled (first_where (λ r. r.id == id) requests)
