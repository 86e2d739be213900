-- ===== src/Retention/Pass.antt =====
-- `runRetentionPurgePass`: what the whole pass keeps.
use saa_sweave.Prelude.{
  ℕ, String, ◌≡◌, refl, sym, subst, ap, ◌∙◌, ◌⊎◌, inl, inr, Bool, true, some, List, arith, any,
  ◌==◌, keep,
}
use saa_sweave.BatchJob.{BatchJobRow}
use saa_sweave.Retention.{
  RetentionClass, purge_aged, webhook_delivery, processed_event, audit_log, mrr_snapshot, aged,
  aged_and_free, audit_qualifies, Options, Store, AgedRow, DataExportRow, notification,
  email_delivery, usage_event, batch_job, legal_hold, is_in, cutoff_for, chunk_of, is_dry,
  HasUniqueIds, Result, ClassResult, done, throws, purge_rows, purge_audit_logs, purge_aged_tables,
  purge_data_export_records, purge_batch_jobs, finish_pass, run_retention_purge_pass, job_qualifies,
  job_selection, unselected, keep-delete_where,
}
use saa_sweave.Retention.Hold.{
  is_org, is_of, org_not_free, is_kept_audit, purge_audit_logs_kept, purge_aged_held,
}
use saa_sweave.Retention.Exports.{purge_exports_held, is_export_of}
use saa_sweave.Retention.Deletions.{purge_exports_same}

module _ {A : Type 0} (id : A → ℕ) (q : A → Bool) (age : A → ℕ) where
  purge_rows_dry :
      (o : Options) (rows : List A)
      → is_dry o ≡ true
      → (purge_rows id q age (chunk_of o) (is_dry o) rows).1 ≡ rows
  unfolding purge_rows
  purge_rows_dry o rows dry = ground arith

abbrev free : RetentionClass → ℕ → Options → AgedRow → Bool
free c now o = aged_and_free (cutoff_for c o now) (legal_hold o)

abbrev old : RetentionClass → ℕ → Options → AgedRow → Bool
old c now o = aged (cutoff_for c o now)

same_aged :
    (q : AgedRow → Bool) (o : Options) (rows : List AgedRow)
    → is_dry o ≡ true
    → (purge_aged q o rows).1 ≡ rows
same_aged q o rows dry = purge_rows_dry (λ r. r.id) q (λ r. r.created_at) o rows dry

dry_aged_tables :
    (now : ℕ) (o : Options) (s : Store) → is_dry o ≡ true → (purge_aged_tables now o s).1 ≡ s
unfolding purge_aged_tables
dry_aged_tables now o s dry = λ i. record s {
  notifications = same_aged (free notification now o) o s.notifications dry i;
  webhook_deliveries = same_aged (old webhook_delivery now o) o s.webhook_deliveries dry i;
  processed_events = same_aged (old processed_event now o) o s.processed_events dry i;
  email_deliveries = same_aged (free email_delivery now o) o s.email_deliveries dry i;
  usage_events = same_aged (free usage_event now o) o s.usage_events dry i;
  audit_logs =
      purge_rows_dry (λ r. r.id) (audit_qualifies (cutoff_for audit_log o now) (legal_hold o))
        (λ r. r.created_at) o s.audit_logs dry i;
  mrr_snapshots = same_aged (old mrr_snapshot now o) o s.mrr_snapshots dry i;
}

dry_exports :
    (now : ℕ) (o : Options) (s : Store)
    → is_dry o ≡ true
    → (purge_data_export_records now o s).1 ≡ s
unfolding purge_data_export_records
dry_exports now o s dry = ground (arith)

dry_jobs : (now : ℕ) (o : Options) (s : Store) → is_dry o ≡ true → (purge_batch_jobs now o s).1 ≡ s
unfolding purge_batch_jobs
dry_jobs now o s dry = ground (arith)

finish_pass_cases :
    (now : ℕ) (o : Options) (classes : List ClassResult) (out : Result ClassResult × Store)
    → ((finish_pass now o classes out).1 ≡ out.1)
      ⊎ ((finish_pass now o classes out).1 ≡ (purge_batch_jobs now o out.1).1)
finish_pass_cases now o classes (throws e, s) = inl refl
finish_pass_cases now o classes (done r, s) = inr refl

-- A dry run of the whole pass changes no table and deletes no file.
pub dry_run_changes_nothing :
    (now : ℕ) (o : Options) (s : Store) → is_dry o ≡ true → (run_retention_purge_pass now o s).1 ≡ s
unfolding run_retention_purge_pass
dry_run_changes_nothing now o s dry =
    let s7 = (purge_aged_tables now o s).1 in
    let out = purge_data_export_records now o s7 in
    let tables : s7 ≡ s = dry_aged_tables now o s dry in
    let exports : out.1 ≡ s = dry_exports now o s7 dry ∙ tables in
    elim (finish_pass_cases now o (purge_aged_tables now o s).0 out) [
      | inl e ↦ e ∙ exports
      | inr e ↦ e ∙ dry_jobs now o out.1 dry ∙ exports
    ]

jobs_audit_logs :
    (now : ℕ) (o : Options) (s : Store) → (purge_batch_jobs now o s).1.audit_logs ≡ s.audit_logs
unfolding purge_batch_jobs
jobs_audit_logs now o s = ground arith

-- The whole pass, whether it ends or throws, leaves every protected row of the audit log as it is:
-- actions under a protected prefix, rows younger than 730 days whatever the overrides, and rows of
-- organizations under a legal hold.
pub pass_keeps_audit_trail :
    (now : ℕ) (o : Options) (s : Store)
    → HasUniqueIds (λ k. k.id) s.audit_logs
    → keep (is_kept_audit now o) (run_retention_purge_pass now o s).1.audit_logs
      ≡ keep (is_kept_audit now o) s.audit_logs
unfolding run_retention_purge_pass
pass_keeps_audit_trail now o s u =
    let s7 = (purge_aged_tables now o s).1 in
    let out = purge_data_export_records now o s7 in
    let aged : s7.audit_logs ≡ (purge_audit_logs now o s).1.audit_logs =
      unfold purge_aged_tables in refl in
    let exports = (purge_exports_same now o s7).audit_logs in
    let kept = purge_audit_logs_kept now o s u in
    elim (finish_pass_cases now o (purge_aged_tables now o s).0 out) [
      | inl e ↦ rw (e, exports, aged) kept
      | inr e ↦ rw (e, jobs_audit_logs now o out.1, exports, aged) kept
    ]

-- Primary keys of the tables with an organization.
pub record HasKeys (s : Store) : Type 0 where
  pub notifications : HasUniqueIds (λ k. k.id) s.notifications
  pub email_deliveries : HasUniqueIds (λ k. k.id) s.email_deliveries
  pub usage_events : HasUniqueIds (λ k. k.id) s.usage_events
  pub data_exports : HasUniqueIds (λ k. k.id) s.data_exports
  pub batch_jobs : HasUniqueIds (λ k. k.id) s.batch_jobs

abbrev pub is_job_of : String → BatchJobRow → Bool
is_job_of org j = is_org org (some j.organization_id)

-- The rows of an organization are the same in two stores.
pub record SameFor (org : String) (s s' : Store) : Type 0 where
  pub notifications : keep (is_of org) s'.notifications ≡ keep (is_of org) s.notifications
  pub email_deliveries : keep (is_of org) s'.email_deliveries ≡ keep (is_of org) s.email_deliveries
  pub usage_events : keep (is_of org) s'.usage_events ≡ keep (is_of org) s.usage_events
  pub data_exports :
      keep (is_export_of org) s'.data_exports ≡ keep (is_export_of org) s.data_exports
  pub batch_jobs : keep (is_job_of org) s'.batch_jobs ≡ keep (is_job_of org) s.batch_jobs

jobs_held :
    (now : ℕ) (o : Options) (org : String) (s : Store)
    → is_in (legal_hold o) org ≡ true
    → HasUniqueIds (λ k. k.id) s.batch_jobs
    → keep (is_job_of org) (purge_batch_jobs now o s).1.batch_jobs
      ≡ keep (is_job_of org) s.batch_jobs
unfolding purge_batch_jobs
jobs_held now o org s held u =
    let p = is_job_of org in
    let apart =
      unselected (λ k. k.id) p (job_qualifies (cutoff_for batch_job o now) (legal_hold o))
        (λ j. j.updated_at) (chunk_of o) s.batch_jobs u
        (λ j e. ground (arith, org_not_free (legal_hold o) org (some j.organization_id) held)) in
    ground (
      arith,
      keep-delete_where (λ (k : BatchJobRow). k.id) p
          (λ j. any (λ k. k.id == j.id) (job_selection now o s)) s.batch_jobs apart,
    )

aged_held :
    (now : ℕ) (o : Options) (org : String) (s : Store)
    → is_in (legal_hold o) org ≡ true
    → HasKeys s
    → SameFor org s (purge_aged_tables now o s).1
unfolding purge_aged_tables
aged_held now o org s held keys = record {
  notifications =
      purge_aged_held (cutoff_for notification o now) o org s.notifications held keys.notifications;
  email_deliveries =
      purge_aged_held (cutoff_for email_delivery o now) o org s.email_deliveries held
        keys.email_deliveries;
  usage_events =
      purge_aged_held (cutoff_for usage_event o now) o org s.usage_events held keys.usage_events;
  data_exports = refl;
  batch_jobs = refl;
}

same_exports_jobs :
    (now : ℕ) (o : Options) (s : Store)
    → ((purge_aged_tables now o s).1.data_exports ≡ s.data_exports)
      × ((purge_aged_tables now o s).1.batch_jobs ≡ s.batch_jobs)
unfolding purge_aged_tables
same_exports_jobs now o s = (refl, refl)

exports_held :
    (now : ℕ) (o : Options) (org : String) (s : Store)
    → is_in (legal_hold o) org ≡ true
    → HasKeys s
    → SameFor org s (purge_data_export_records now o (purge_aged_tables now o s).1).1
exports_held now o org s held keys =
    let s7 = (purge_aged_tables now o s).1 in
    let a = aged_held now o org s held keys in
    let e = purge_exports_same now o s7 in
    let x = same_exports_jobs now o s in
    record {
      notifications = ap (keep (is_of org)) e.notifications ∙ a.notifications;
      email_deliveries = ap (keep (is_of org)) e.email_deliveries ∙ a.email_deliveries;
      usage_events = ap (keep (is_of org)) e.usage_events ∙ a.usage_events;
      data_exports =
          purge_exports_held now o org s7 held
            (subst (HasUniqueIds (λ (k : DataExportRow). k.id)) (sym x.0) keys.data_exports)
          ∙ a.data_exports;
      batch_jobs = ap (keep (is_job_of org)) e.batch_jobs ∙ a.batch_jobs;
    }

same_jobs_rest :
    (now : ℕ) (o : Options) (org : String) (s0 s : Store)
    → is_in (legal_hold o) org ≡ true
    → HasUniqueIds (λ k. k.id) s.batch_jobs
    → SameFor org s0 s
    → SameFor org s0 (purge_batch_jobs now o s).1
same_jobs_rest now o org s0 s held u h = record {
  notifications = unfold purge_batch_jobs in ground (arith, h.notifications);
  email_deliveries = unfold purge_batch_jobs in ground (arith, h.email_deliveries);
  usage_events = unfold purge_batch_jobs in ground (arith, h.usage_events);
  data_exports = unfold purge_batch_jobs in ground (arith, h.data_exports);
  batch_jobs = jobs_held now o org s held u ∙ h.batch_jobs;
}

-- The whole pass, whether it ends or throws, leaves the notifications, e-mail deliveries, usage
-- events, exports and batch jobs of an organization under a legal hold exactly as they are.
pub pass_honours_legal_hold :
    (now : ℕ) (o : Options) (org : String) (s : Store)
    → is_in (legal_hold o) org ≡ true
    → HasKeys s
    → SameFor org s (run_retention_purge_pass now o s).1
unfolding run_retention_purge_pass
pass_honours_legal_hold now o org s held keys =
    let s7 = (purge_aged_tables now o s).1 in
    let out = purge_data_export_records now o s7 in
    let h : SameFor org s out.1 = exports_held now o org s held keys in
    let jobs : out.1.batch_jobs ≡ s.batch_jobs =
      (purge_exports_same now o s7).batch_jobs ∙ (same_exports_jobs now o s).1 in
    let u = subst (HasUniqueIds (λ (k : BatchJobRow). k.id)) (sym jobs) keys.batch_jobs in
    elim (finish_pass_cases now o (purge_aged_tables now o s).0 out) [
      | inl e ↦ subst (SameFor org s) (sym e) h
      | inr e ↦ subst (SameFor org s) (sym e) (same_jobs_rest now o org s out.1 held u h)
    ]
