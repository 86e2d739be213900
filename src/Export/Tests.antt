-- ===== src/Export/Tests.antt =====
-- Exports at concrete inputs.
use saa_sweave.Prelude.{ℕ, ◌≡◌, refl, ◌⊎◌, Bool, true, false, none, some, List, [], ◌∷◌, arith}
use mathlib.Core.List.{Memᴰ}
use saa_sweave.Prelude.Json.{Json, Fields}
use saa_sweave.Retention.{DataExportStatus}
use saa_sweave.Export.Secrets.{strip_secret_fields, has_secret, strip_secret_fields_lem}
use saa_sweave.Export.Stream.{Row, Progress, finished, persist, and_then, write_rows, export_table}
use saa_sweave.Export.Paging.{EndsBetween, is_thrown, export_table_throws}
use saa_sweave.Export.Pages.{export_table_is_write_rows}
use saa_sweave.Export.Requests.{
  Request, get_data_export_request_by_id, only_status, patch_request, canceled_request,
  update_data_export_request_status, cancel_data_export_request,
}
use saa_sweave.Export.Process.{streamed, ready, process_data_export_request}
use saa_sweave.Export.Lifecycle.{
  IsReadyThoughCanceled, IsConcluded, late_cancel_becomes_ready,
  process_data_export_request_concludes,
}

abbrev user_json : Json
user_json =
    Json.obj (Fields.field "token" (Json.str "t") (Fields.field "name" (Json.str "n") Fields.end))

strip_secret_fields_lem_example :
    (has_secret (strip_secret_fields user_json) ≡ false)
    × ((has_secret user_json ≡ true) ⊎ (strip_secret_fields user_json ≡ user_json))
    × (strip_secret_fields (strip_secret_fields user_json) ≡ strip_secret_fields user_json)
strip_secret_fields_lem_example = strip_secret_fields_lem user_json

abbrev row : (id created_us : ℕ) → Row
row id created_us = record { id = id; created_us = created_us; payload = Json.null }

abbrev start : Progress
start = record { rows_written = 0; bytes_written = 0; lines = []; persisted = [] }

abbrev five_bytes : Json → ℕ
five_bytes line = 5

abbrev never_canceled : ℕ → Bool
never_canceled n = false

abbrev between_table : List Row
between_table = row 1 3000 ∷ row 2 4500 ∷ []

between_table-EndsBetween : EndsBetween between_table
between_table-EndsBetween = record {
  last = row 2 4500;
  present = Memᴰ.tail (Memᴰ.head refl);
  is_last = (omega arith, (omega arith, tt));
  between = omega arith;
}

export_table_throws_example :
    is_thrown (export_table five_bytes never_canceled 500_001 between_table none start) ≡ true
export_table_throws_example =
    export_table_throws five_bytes never_canceled 500_001 between_table between_table-EndsBetween
      none start tt (omega arith) (omega arith)

abbrev whole_table : List Row
whole_table = row 1 3000 ∷ row 2 3000 ∷ row 1 5000 ∷ []

export_table_is_write_rows_example :
    export_table five_bytes never_canceled 4 whole_table none start
    ≡ and_then five_bytes never_canceled
        (λ q. finished (persist q))
        (write_rows five_bytes never_canceled whole_table start)
export_table_is_write_rows_example =
    export_table_is_write_rows five_bytes never_canceled 4 whole_table start
      ((refl, (refl, tt)), ((refl, tt), (tt, tt))) (refl, (refl, (refl, tt))) (omega arith)

abbrev request : Request
request = record {
  bytes_written = 0;
  canceled_at = none;
  completed_at = none;
  created_at = 1;
  download_revoked_at = none;
  error = none;
  expires_at = none;
  file_key = none;
  id = 3;
  organization_id = "org";
  requested_by_user_id = "u";
  rows_written = 0;
  status = DataExportStatus.pending;
}

late_cancel_becomes_ready_example :
    let begun =
      (update_data_export_request_status 3
        (only_status DataExportStatus.processing)
        (request ∷ [])).1 in
    let (result, after) =
      process_data_export_request 9 3
        (streamed 80 "exports/3" 2)
        (λ rs. (cancel_data_export_request 5 "org" 3 rs).1)
        (request ∷ []) in
    ((cancel_data_export_request 5 "org" 3 begun).0
      ≡ some (canceled_request 5 (patch_request (only_status DataExportStatus.processing) request)))
    × (result ≡ ready "org" "u")
    × IsReadyThoughCanceled 5 3 after
unfolding get_data_export_request_by_id
late_cancel_becomes_ready_example =
    late_cancel_becomes_ready 9 5 3 request 80 2 "exports/3" (request ∷ []) refl refl

process_data_export_request_concludes_example :
    IsConcluded 9 3
      (streamed 80 "exports/3" 2)
      (process_data_export_request 9 3 (streamed 80 "exports/3" 2) (λ rs. rs) (request ∷ [])).1
unfolding get_data_export_request_by_id update_data_export_request_status
process_data_export_request_concludes_example =
    process_data_export_request_concludes 9 3 request
      (patch_request (only_status DataExportStatus.processing) request) (streamed 80 "exports/3" 2)
      (λ rs. rs) (request ∷ []) refl refl refl
