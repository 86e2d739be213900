-- ===== src/Retention/Tests.antt =====
-- The retention theorems at concrete inputs.
use saa_sweave.Prelude.{
  ℕ, ◌+◌, ◌≡◌, refl, Bool, true, false, none, some, [], ◌∷◌, arith, keep, All, length,
}
use saa_sweave.Retention.{
  AgedRow, DataExportRow, DataExportStatus, Store, Options, HasUniqueIds, purge_data_export_records,
  run_retention_purge_pass, aged, purge_rows, purge_rows_counts,
}
use saa_sweave.Retention.Hold.{is_kept_audit}
use saa_sweave.Retention.Exports.{is_safe, purge_exports_file_first}
use saa_sweave.Retention.Pass.{
  HasKeys, SameFor, dry_run_changes_nothing, pass_keeps_audit_trail, pass_honours_legal_hold,
}

abbrev export : DataExportRow
export = record {
  id = 4;
  completed_at = some 10;
  created_at = 5;
  download_revoked_at = none;
  expires_at = some 20;
  file_key = some "exports/4";
  organization_id = "free";
  status = DataExportStatus.ready;
}

abbrev store : Store
store = record {
  notifications =
      record { id = 1; created_at = 3; organization_id = some "held" }
      ∷ record { id = 2; created_at = 4; organization_id = some "free" }
      ∷ [];
  webhook_deliveries = [];
  processed_events = [];
  email_deliveries = [];
  usage_events = [];
  audit_logs =
      record { id = 1; action = "auth.login"; created_at = 3; organization_id = none }
      ∷ record { id = 2; action = "member.added"; created_at = 4; organization_id = some "free" }
      ∷ [];
  mrr_snapshots = [];
  data_exports = export ∷ [];
  batch_jobs = [];
  batch_job_items = [];
  objects = [];
}

abbrev options : Bool → Options
options dry = record {
  chunk_size = none;
  delete_data_export_object = some (λ key. true);
  dry_run = some dry;
  legal_hold_org_ids = some ("held" ∷ []);
  retention_days = λ c. none;
}

abbrev today : ℕ
today = 1_000_000_000_000

audit_keys : HasUniqueIds (λ k. k.id) store.audit_logs
audit_keys x = ground arith

export_keys : HasUniqueIds (λ k. k.id) store.data_exports
export_keys x = ground arith

store_keys : HasKeys store
store_keys = record {
  notifications = λ x. ground arith;
  email_deliveries = λ x. omega arith;
  usage_events = λ x. omega arith;
  data_exports = export_keys;
  batch_jobs = λ x. omega arith;
}

dry_run_changes_nothing_test : (run_retention_purge_pass today (options true) store).1 ≡ store
dry_run_changes_nothing_test = dry_run_changes_nothing today (options true) store refl

pass_keeps_audit_trail_example :
    keep
      (is_kept_audit today (options false))
      (run_retention_purge_pass today (options false) store).1.audit_logs
    ≡ keep (is_kept_audit today (options false)) store.audit_logs
pass_keeps_audit_trail_example = pass_keeps_audit_trail today (options false) store audit_keys

pass_honours_legal_hold_example :
    SameFor "held" store (run_retention_purge_pass today (options false) store).1
pass_honours_legal_hold_example =
    pass_honours_legal_hold today (options false) "held" store refl store_keys

purge_exports_file_first_test :
    All
      (λ k. is_safe (purge_data_export_records today (options false) store).1 k ≡ true)
      (export ∷ [])
purge_exports_file_first_test = purge_exports_file_first today (options false) store export_keys

purge_of_rows :
    let (deleted, rows') =
      purge_rows
        (λ (r : AgedRow). r.id)
        (aged 100)
        (λ r. r.created_at)
        1
        false
        store.notifications in
    (deleted ≡ 1) × (length rows' + deleted ≡ 2)
purge_of_rows =
    purge_rows_counts (λ (r : AgedRow). r.id) (aged 100) (λ r. r.created_at) 1 false
      store.notifications store_keys.notifications
