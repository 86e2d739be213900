-- ===== src/Export/Lifecycle.antt =====
-- What a run of `processDataExportRequest` leaves of a request, and a cancel that comes too late.
use saa_sweave.Prelude.{
  ℕ, ◌+◌, String, ◌≡◌, refl, ap, ◌∙◌, ◌⊎◌, inl, inr, Bool, true, false, ◌||◌, some, List, [], ◌∷◌,
  arith, ◌==◌, is_some,
}
use mathlib.Core.Option
use text.Mathlib.TextPositions.{eq_refl}
use saa_sweave.Prelude.Sql.{first_where, update_where, first_where-update_where}
use saa_sweave.Retention.{DataExportStatus}
use saa_sweave.Export.Requests.{
  Request, RequestPatch, only_status, patch_request, is_canceled, is_processing,
  get_data_export_request_by_id, update_data_export_request_status, cancel_data_export_request,
  canceled_request, is_cancelable,
}
use saa_sweave.Export.Process.{
  StreamEnd, streamed, export_canceled, fails, ready, is_ready, ready_patch, canceled_patch,
  failed_patch, conclude_export, process_data_export_request,
}

found_patched :
    (id : ℕ) (p : RequestPatch) (r : Request) (requests : List Request)
    → first_where (λ k. k.id == id) requests ≡ some r
    → first_where (λ k. k.id == id) (update_where (λ k. k.id == id) (patch_request p) requests)
      ≡ some (patch_request p r)
found_patched id p r requests e =
    first_where-update_where (λ k. k.id == id) (patch_request p) (λ k. refl) requests
    ∙ ap (Option.map (patch_request p)) e

found_canceled :
    (t : ℕ) (org : String) (id : ℕ) (r : Request) (requests : List Request)
    → first_where (λ k. k.id == id) requests ≡ some r
    → r.organization_id ≡ org
    → is_processing r.status ≡ true
    → (first_where (is_cancelable org id) requests ≡ some r)
      × (first_where
            (λ k. k.id == id)
            (update_where (is_cancelable org id) (canceled_request t) requests)
          ≡ some (canceled_request t r))
found_canceled t org id r [] e o a = absurd (ground (arith, e))
found_canceled t org id r (k ∷ rest) e o a =
    ground (arith, eq_refl org, found_canceled t org id r rest)

-- What is left of a request that was canceled in vain.
pub record IsReadyThoughCanceled (t id : ℕ) (requests : List Request) : Type 0 where
  pub row : Request
  pub found : get_data_export_request_by_id id requests ≡ some row
  pub status : row.status ≡ DataExportStatus.ready
  pub canceled_at : row.canceled_at ≡ some t

-- A cancel that is made while an export runs, after the stream's last look at the request, is
-- answered with the canceled request, and yet the request becomes `ready` with its file.
pub late_cancel_becomes_ready :
    (now t id : ℕ) (r : Request) (bytes rows : ℕ) (key : String) (requests : List Request)
    → get_data_export_request_by_id id requests ≡ some r
    → (is_ready r.status || is_canceled r.status || is_some r.canceled_at) ≡ false
    → let begun =
        (update_data_export_request_status id
          (only_status DataExportStatus.processing)
          requests).1 in
      let cancel = cancel_data_export_request t r.organization_id id in
      let (result, after) =
        process_data_export_request now id
          (streamed bytes key rows)
          (λ rs. (cancel rs).1)
          requests in
      ((cancel begun).0
        ≡ some (canceled_request t (patch_request (only_status DataExportStatus.processing) r)))
      × (result ≡ ready r.organization_id r.requested_by_user_id)
      × IsReadyThoughCanceled t id after
unfolding process_data_export_request get_data_export_request_by_id cancel_data_export_request
    update_data_export_request_status
late_cancel_becomes_ready now t id r bytes rows key requests found active =
    let working = patch_request (only_status DataExportStatus.processing) r in
    let begun =
      update_where (λ k. k.id == id) (patch_request (only_status DataExportStatus.processing))
        requests in
    let e = found_patched id (only_status DataExportStatus.processing) r requests found in
    let c = found_canceled t r.organization_id id working begun e refl refl in
    let after = update_where (is_cancelable r.organization_id id) (canceled_request t) begun in
    let not_ready : is_ready r.status ≡ false = ground (arith, active) in
    let not_canceled : (is_canceled r.status || is_some r.canceled_at) ≡ false =
      ground (arith, active) in
    (
      ap (Option.map (canceled_request t)) c.0,
      rw (found, not_ready, not_canceled) refl,
      rw (found, not_ready, not_canceled)
          (record {
            row = patch_request (ready_patch now bytes key rows) (canceled_request t working);
            found =
                found_patched id (ready_patch now bytes key rows) (canceled_request t working) after
                  c.1;
            status = refl;
            canceled_at = refl;
          }),
    )

abbrev pub is_final : DataExportStatus → Bool
is_final DataExportStatus.ready = true
is_final DataExportStatus.failed = true
is_final DataExportStatus.canceled = true
is_final _ = false

-- A request that has come to its end at a time: a final status, and a file exactly if it is ready.
pub record IsConcluded (now id : ℕ) (end : StreamEnd) (requests : List Request) : Type 0 where
  pub row : Request
  pub found : get_data_export_request_by_id id requests ≡ some row
  pub final : is_final row.status ≡ true
  pub completed : row.completed_at ≡ some now
  pub outcome :
      ((bytes rows : ℕ) × (key : String) × (end ≡ streamed bytes key rows)
        × (row.status ≡ DataExportStatus.ready)
        × (row.file_key ≡ some key)
        × (row.expires_at ≡ some (now + 604_800_000)))
      ⊎ (is_ready row.status ≡ false)

conclude_export-IsConcluded :
    (now id : ℕ) (seen m : Request) (end : StreamEnd) (requests : List Request)
    → get_data_export_request_by_id id requests ≡ some m
    → IsConcluded now id end (conclude_export now id seen end requests).1
unfolding get_data_export_request_by_id update_data_export_request_status
conclude_export-IsConcluded now id seen m (streamed bytes key rows) requests e = record {
  row = patch_request (ready_patch now bytes key rows) m;
  found = found_patched id (ready_patch now bytes key rows) m requests e;
  final = refl;
  completed = refl;
  outcome = inl (bytes, rows, key, refl, refl, refl, refl);
}
conclude_export-IsConcluded now id seen m export_canceled requests e = record {
  row = patch_request (canceled_patch now) m;
  found = found_patched id (canceled_patch now) m requests e;
  final = refl;
  completed = refl;
  outcome = inr refl;
}
conclude_export-IsConcluded now id seen m (fails message) requests e = record {
  row = patch_request (failed_patch now message) m;
  found = found_patched id (failed_patch now message) m requests e;
  final = refl;
  completed = refl;
  outcome = inr refl;
}

-- A run over a request that is not ready or canceled, whatever the stream ends with and whatever
-- others write meanwhile, as long as they leave the request in the table, gives it a final status
-- and a completion time; it is `ready` only after a stream to its end, with the file's key and an
-- expiry seven days later.
pub process_data_export_request_concludes :
    (now id : ℕ) (r m : Request) (end : StreamEnd) (meanwhile : List Request → List Request)
    (requests : List Request)
    → get_data_export_request_by_id id requests ≡ some r
    → (is_ready r.status || is_canceled r.status || is_some r.canceled_at) ≡ false
    → get_data_export_request_by_id id (
        meanwhile
          (update_data_export_request_status id
            (only_status DataExportStatus.processing)
            requests).1)
      ≡ some m
    → IsConcluded now id end (process_data_export_request now id end meanwhile requests).1
unfolding process_data_export_request
process_data_export_request_concludes now id r m end meanwhile requests found active kept =
    let not_ready : is_ready r.status ≡ false = ground (arith, active) in
    let not_canceled : (is_canceled r.status || is_some r.canceled_at) ≡ false =
      ground (arith, active) in
    let begun =
      (update_data_export_request_status id (only_status DataExportStatus.processing) requests).1 in
    rw (found, not_ready, not_canceled)
      (conclude_export-IsConcluded now id r m end (meanwhile begun) kept)
