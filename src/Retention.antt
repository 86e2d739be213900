-- ===== src/Retention.antt =====
-- packages/db/src/retention-purge.ts with packages/core/src/retention: one purge for each table and
-- the pass over all of them. The deletion of an export's file is a parameter, which throws on
-- `false`; `objects` lists the keys that it has deleted.
mod Tables
mod Purge
pub mod Hold
pub mod Deletions
pub mod Exports
pub mod Pass
mod Tests
unfoldable pub use Tables.*
unfoldable pub use Purge.{purge_rows}
pub use Purge.{
  HasUniqueIds, is_id, is_selected, purge_rows_keeps, purge_rows_counts, selection, unselected,
  keep-delete_where, same_row, All-selection,
}
use saa_sweave.Prelude.{
  ℕ, ◌+◌, String, Bool, true, false, not, ◌&&◌, ◌||◌, Option, none, some, List, [], ◌∷◌, ◌++◌, map,
  ltb, ◌==◌, if◌then◌else◌, length, any, all,
}
use saa_sweave.Prelude.Text.{like_prefix}
use saa_sweave.Prelude.Sql.{delete_where}
use saa_sweave.BatchJob.{BatchJobRow, BatchJobItemRow, BatchJobStatus}

abbrev pub report : RetentionClass → Options → ℕ → ClassResult
report c o deleted = record { class = class c; deleted = deleted; dry_run = is_dry o }

abbrev pub purge_aged : (AgedRow → Bool) → Options → List AgedRow → ℕ × List AgedRow
purge_aged qualifies o rows =
    purge_rows (λ r. r.id) qualifies (λ r. r.created_at) (chunk_of o) (is_dry o) rows

pub purge_notifications : ℕ → Options → Store → ClassResult × Store
purge_notifications now o s =
    let (n, rows) =
      purge_aged (aged_and_free (cutoff_for notification o now) (legal_hold o)) o s.notifications in
    (report notification o n, record s { notifications = rows })

pub purge_webhook_deliveries : ℕ → Options → Store → ClassResult × Store
purge_webhook_deliveries now o s =
    let (n, rows) = purge_aged (aged (cutoff_for webhook_delivery o now)) o s.webhook_deliveries in
    (report webhook_delivery o n, record s { webhook_deliveries = rows })

pub purge_processed_events : ℕ → Options → Store → ClassResult × Store
purge_processed_events now o s =
    let (n, rows) = purge_aged (aged (cutoff_for processed_event o now)) o s.processed_events in
    (report processed_event o n, record s { processed_events = rows })

pub purge_email_deliveries : ℕ → Options → Store → ClassResult × Store
purge_email_deliveries now o s =
    let (n, rows) =
      purge_aged (aged_and_free (cutoff_for email_delivery o now) (legal_hold o)) o
        s.email_deliveries in
    (report email_delivery o n, record s { email_deliveries = rows })

pub purge_usage_events : ℕ → Options → Store → ClassResult × Store
purge_usage_events now o s =
    let (n, rows) =
      purge_aged (aged_and_free (cutoff_for usage_event o now) (legal_hold o)) o s.usage_events in
    (report usage_event o n, record s { usage_events = rows })

-- `notLike(action, prefix%)` for every prefix
abbrev pub is_unprotected : String → Bool
is_unprotected action =
    all (λ prefix. not (like_prefix prefix action)) security_audit_action_prefixes

abbrev pub audit_qualifies : ℕ → List String → AuditLogRow → Bool
audit_qualifies cutoff held r =
    ltb r.created_at cutoff && is_unprotected r.action && is_free held r.organization_id

pub purge_audit_logs : ℕ → Options → Store → ClassResult × Store
unfolding purge_rows
purge_audit_logs now o s =
    let (n, rows) =
      purge_rows (λ r. r.id) (audit_qualifies (cutoff_for audit_log o now) (legal_hold o))
        (λ r. r.created_at) (chunk_of o) (is_dry o) s.audit_logs in
    (report audit_log o n, record s { audit_logs = rows })

pub purge_mrr_snapshots : ℕ → Options → Store → ClassResult × Store
purge_mrr_snapshots now o s =
    let (n, rows) = purge_aged (aged (cutoff_for mrr_snapshot o now)) o s.mrr_snapshots in
    (report mrr_snapshot o n, record s { mrr_snapshots = rows })

abbrev pub is_ready_or_failed : DataExportStatus → Bool
is_ready_or_failed ready = true
is_ready_or_failed failed = true
is_ready_or_failed _ = false

abbrev pub export_qualifies : ℕ → List String → DataExportRow → Bool
export_qualifies cutoff held r =
    (is_before cutoff r.expires_at
      || is_before cutoff r.download_revoked_at
      || is_before cutoff r.completed_at && is_ready_or_failed r.status)
    && is_free held (some r.organization_id)

abbrev pub delete_export : ℕ → Store → Store
delete_export id s = record s { data_exports = delete_where (λ r. r.id == id) s.data_exports }

-- The deletion of the file, if the row has one.
abbrev pub delete_object : Option (String → Bool) → Option String → Store → Result Store
delete_object deleter none s = done s
delete_object none (some key) s = throws data_export_object_deleter_required
delete_object (some deleter) (some key) s =
    if deleter key
    then done (record s { objects = key ∷ s.objects })
    else throws object_deletion_failed

abbrev pub if_deleted : (Store → Result ℕ × Store) → Store → Result Store → Result ℕ × Store
if_deleted next s (done s') = next s'
if_deleted next s (throws e) = (throws e, s)

-- The loop over the selected rows; what was deleted before a throw stays deleted.
pub delete_exports : Option (String → Bool) → List DataExportRow → ℕ → Store → Result ℕ × Store
delete_exports deleter [] deleted s = (done deleted, s)
delete_exports deleter (r ∷ rest) deleted s =
    if_deleted (λ s'. delete_exports deleter rest (deleted + 1) (delete_export r.id s')) s
      (delete_object deleter r.file_key s)

abbrev pub export_selection : ℕ → Options → Store → List DataExportRow
export_selection now o s =
    selection (λ r. r.id) (export_qualifies (cutoff_for data_export_record o now) (legal_hold o))
      (λ r. r.created_at) (chunk_of o) s.data_exports

abbrev pub export_report : Options → Result ℕ × Store → Result ClassResult × Store
export_report o (done n, s) =
    (done (record { class = data_export_request; deleted = n; dry_run = is_dry o }), s)
export_report o (throws e, s) = (throws e, s)

pub purge_data_export_records : ℕ → Options → Store → Result ClassResult × Store
unfolding delete_exports
purge_data_export_records now o s =
    let rows = export_selection now o s in
    export_report o (
      if length rows == 0 || is_dry o
      then (done (length rows), s)
      else delete_exports o.delete_data_export_object rows 0 s)

abbrev pub is_done_job : BatchJobStatus → Bool
is_done_job BatchJobStatus.completed = true
is_done_job BatchJobStatus.canceled = true
is_done_job BatchJobStatus.failed = true
is_done_job _ = false

abbrev pub job_qualifies : ℕ → List String → BatchJobRow → Bool
job_qualifies cutoff held j =
    ltb j.updated_at cutoff && is_done_job j.status && is_free held (some j.organization_id)

abbrev pub job_selection : ℕ → Options → Store → List BatchJobRow
job_selection now o s =
    selection (λ j. j.id) (job_qualifies (cutoff_for batch_job o now) (legal_hold o))
      (λ j. j.updated_at) (chunk_of o) s.batch_jobs

-- Both counts are the number of jobs.
abbrev job_reports : Options → ℕ → List ClassResult
job_reports o n =
    record { class = batch_job_item; deleted = n; dry_run = is_dry o } ∷ report batch_job o n ∷ []

pub purge_batch_jobs : ℕ → Options → Store → List ClassResult × Store
purge_batch_jobs now o s =
    let jobs = job_selection now o s in
    if length jobs == 0
    then (job_reports o 0, s)
    else if is_dry o
    then (job_reports o (length jobs), s)
    else (
      job_reports o (length jobs),
      record s {
        batch_jobs = delete_where (λ j. any (λ k. k.id == j.id) jobs) s.batch_jobs;
        batch_job_items =
            delete_where (λ i. any (λ k. k.id == i.batch_job_id) jobs) s.batch_job_items;
      },
    )

pub record Summary : Type 0 where
  pub classes : List ClassResult
  pub dry_run : Bool
  pub total_deleted : ℕ

abbrev pub total : List ClassResult → ℕ
total [] = 0
total (r ∷ rest) = r.deleted + total rest

-- The purges before the one that can throw, in the order of the pass.
pub purge_aged_tables : ℕ → Options → Store → List ClassResult × Store
unfolding purge_notifications purge_webhook_deliveries purge_processed_events purge_email_deliveries
    purge_usage_events purge_audit_logs purge_mrr_snapshots
purge_aged_tables now o s =
    let (r1, s1) = purge_notifications now o s in
    let (r2, s2) = purge_webhook_deliveries now o s1 in
    let (r3, s3) = purge_processed_events now o s2 in
    let (r4, s4) = purge_email_deliveries now o s3 in
    let (r5, s5) = purge_usage_events now o s4 in
    let (r6, s6) = purge_audit_logs now o s5 in
    let (r7, s7) = purge_mrr_snapshots now o s6 in (r1 ∷ r2 ∷ r3 ∷ r4 ∷ r5 ∷ r6 ∷ r7 ∷ [], s7)

abbrev pub summary : Options → List ClassResult → Summary
summary o classes = record { classes = classes; dry_run = is_dry o; total_deleted = total classes }

abbrev pub finish_pass :
    ℕ → Options → List ClassResult → Result ClassResult × Store → Result Summary × Store
finish_pass now o classes (throws e, s) = (throws e, s)
finish_pass now o classes (done r, s) =
    let (jobs, s') = purge_batch_jobs now o s in (done (summary o (classes ++ r ∷ jobs)), s')

pub run_retention_purge_pass : ℕ → Options → Store → Result Summary × Store
unfolding purge_aged_tables purge_data_export_records purge_batch_jobs
run_retention_purge_pass now o s =
    let (classes, s7) = purge_aged_tables now o s in
    finish_pass now o classes (purge_data_export_records now o s7)
