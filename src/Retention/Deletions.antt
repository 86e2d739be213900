-- ===== src/Retention/Deletions.antt =====
-- `purgeDataExportRecords`: what the deletions of exports leave alone.
use saa_sweave.Prelude.{
  ℕ, ◌+◌, String, ◌≡◌, refl, inl, inr, Bool, ◌||◌, Option, none, some, List, [], ◌∷◌, ◌==◌,
  Bool-cases, Option-cases, length, All, All_of,
}
use saa_sweave.Retention.{
  Options, Store, DataExportRow, is_dry, Result, done, throws, delete_export, delete_exports,
  export_selection, purge_data_export_records, export_report,
}

-- The tables that the purge of exports leaves alone.
pub record SameTables (s s' : Store) : Type 0 where
  pub notifications : s'.notifications ≡ s.notifications
  pub webhook_deliveries : s'.webhook_deliveries ≡ s.webhook_deliveries
  pub processed_events : s'.processed_events ≡ s.processed_events
  pub email_deliveries : s'.email_deliveries ≡ s.email_deliveries
  pub usage_events : s'.usage_events ≡ s.usage_events
  pub audit_logs : s'.audit_logs ≡ s.audit_logs
  pub mrr_snapshots : s'.mrr_snapshots ≡ s.mrr_snapshots
  pub batch_jobs : s'.batch_jobs ≡ s.batch_jobs
  pub batch_job_items : s'.batch_job_items ≡ s.batch_job_items

abbrev pub with_object : String → Store → Store
with_object key s = record s { objects = key ∷ s.objects }

-- What one deletion keeps, of an export without a file and of one with a file that is deleted.
pub record Keeps (P : Store → Type 0) (r : DataExportRow) : Type 0 where
  pub without : (s : Store) → r.file_key ≡ none → P s → P (delete_export r.id s)
  pub with_file :
      (key : String) (s : Store)
      → r.file_key ≡ some key
      → P s
      → P (delete_export r.id (with_object key s))

pub delete_exports_keeps :
    (P : Store → Type 0) (deleter : Option (String → Bool)) (rows : List DataExportRow) (n : ℕ)
    (s : Store)
    → All (Keeps P) rows
    → P s
    → P (delete_exports deleter rows n s).1
unfolding delete_exports
delete_exports_keeps P deleter [] n s h p = p
delete_exports_keeps P deleter (r ∷ rest) n s h p = elim (Option-cases r.file_key) [
  | inl e ↦
      rw e
        (delete_exports_keeps P deleter rest (n + 1) (delete_export r.id s) h.1 (h.0.without s e p))
  | inr (key, e) ↦ rw e (elim (Option-cases deleter) [
    | inl d ↦ rw d p
    | inr (f, d) ↦ elim (Bool-cases (f key)) [
      | inl ok ↦
          rw (d, ok)
            (delete_exports_keeps P deleter rest (n + 1) (delete_export r.id (with_object key s))
              h.1 (h.0.with_file key s e p))
      | inr failed ↦ rw (d, failed) p
    ]
  ])
]

pub reported :
    (P : Store → Type 0) (o : Options) (out : Result ℕ × Store)
    → P out.1
    → P (export_report o out).1
reported P o (done n, s) p = p
reported P o (throws e, s) p = p

-- What the loop keeps, the purge keeps.
pub purge_keeps :
    (P : Store → Type 0) (now : ℕ) (o : Options) (s : Store)
    → All (Keeps P) (export_selection now o s)
    → P s
    → P (purge_data_export_records now o s).1
unfolding purge_data_export_records
purge_keeps P now o s h p =
    let rows = export_selection now o s in
    elim (Bool-cases (length rows == 0 || is_dry o)) [
      | inl skip ↦ rw skip p
      | inr go ↦ rw go (
          reported P o (delete_exports o.delete_data_export_object rows 0 s)
            (delete_exports_keeps P o.delete_data_export_object rows 0 s h p))
    ]

pub purge_exports_same :
    (now : ℕ) (o : Options) (s : Store) → SameTables s (purge_data_export_records now o s).1
purge_exports_same now o s =
    purge_keeps (SameTables s) now o s
      (All_of (Keeps (SameTables s))
        (λ r. record {
          without = λ s' e p. record {
            notifications = p.notifications;
            webhook_deliveries = p.webhook_deliveries;
            processed_events = p.processed_events;
            email_deliveries = p.email_deliveries;
            usage_events = p.usage_events;
            audit_logs = p.audit_logs;
            mrr_snapshots = p.mrr_snapshots;
            batch_jobs = p.batch_jobs;
            batch_job_items = p.batch_job_items;
          };
          with_file = λ key s' e p. record {
            notifications = p.notifications;
            webhook_deliveries = p.webhook_deliveries;
            processed_events = p.processed_events;
            email_deliveries = p.email_deliveries;
            usage_events = p.usage_events;
            audit_logs = p.audit_logs;
            mrr_snapshots = p.mrr_snapshots;
            batch_jobs = p.batch_jobs;
            batch_job_items = p.batch_job_items;
          };
        })
        (export_selection now o s))
      (record {
        notifications = refl;
        webhook_deliveries = refl;
        processed_events = refl;
        email_deliveries = refl;
        usage_events = refl;
        audit_logs = refl;
        mrr_snapshots = refl;
        batch_jobs = refl;
        batch_job_items = refl;
      })
