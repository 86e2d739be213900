-- ===== src/Retention/Tables.antt =====
-- The tables that packages/db/src/retention-purge.ts reads, its options, and its WHERE conditions;
-- with packages/core/src/retention. A row carries the columns that the purges read; times are
-- milliseconds since 1970.
use saa_sweave.Prelude.{
  ℕ, ◌-◌, ◌*◌, max, String, Bool, true, false, not, ◌&&◌, Option, none, some, List, [], ◌∷◌, ltb,
  or_else, any,
}
use text.Mathlib.Text.{◌==◌ as str_eq}
use saa_sweave.Prelude.Text.{starts_with}
use saa_sweave.BatchJob.{BatchJobRow, BatchJobItemRow}

pub data RetentionClass : Type 0 where
  audit_log notification webhook_delivery processed_event data_export_record usage_event
        email_delivery mrr_snapshot batch_job :
      RetentionClass

abbrev pub retention_days : RetentionClass → ℕ
retention_days audit_log = 730
retention_days notification = 90
retention_days webhook_delivery = 30
retention_days processed_event = 90
retention_days data_export_record = 30
retention_days usage_event = 395
retention_days email_delivery = 90
retention_days mrr_snapshot = 1825
retention_days batch_job = 90

abbrev pub retention_purge_chunk_size : ℕ
retention_purge_chunk_size = 500

abbrev pub security_audit_action_prefixes : List String
security_audit_action_prefixes = "auth." ∷ "security." ∷ "api_key." ∷ "sso." ∷ "billing." ∷ []

unfoldable pub is_retention_protected_audit_action : String → Bool
is_retention_protected_audit_action action =
    any (λ prefix. starts_with prefix action) security_audit_action_prefixes

-- A row of a table whose purge reads its age and perhaps its organization.
pub record AgedRow : Type 0 where
  pub id : ℕ
  pub created_at : ℕ
  pub organization_id : Option String

pub record AuditLogRow : Type 0 where
  pub id : ℕ
  pub action : String
  pub created_at : ℕ
  pub organization_id : Option String

pub data DataExportStatus : Type 0 where
  pending processing ready failed canceled : DataExportStatus

pub record DataExportRow : Type 0 where
  pub id : ℕ
  pub completed_at : Option ℕ
  pub created_at : ℕ
  pub download_revoked_at : Option ℕ
  pub expires_at : Option ℕ
  pub file_key : Option String
  pub organization_id : String
  pub status : DataExportStatus

-- `processed_at` and `captured_at` are the ages of processed events and of MRR snapshots.
pub record Store : Type 0 where
  pub notifications : List AgedRow
  pub webhook_deliveries : List AgedRow
  pub processed_events : List AgedRow
  pub email_deliveries : List AgedRow
  pub usage_events : List AgedRow
  pub audit_logs : List AuditLogRow
  pub mrr_snapshots : List AgedRow
  pub data_exports : List DataExportRow
  pub batch_jobs : List BatchJobRow
  pub batch_job_items : List BatchJobItemRow
  pub objects : List String

pub record Options : Type 0 where
  pub chunk_size : Option ℕ
  pub delete_data_export_object : Option (String → Bool)
  pub dry_run : Option Bool
  pub legal_hold_org_ids : Option (List String)
  pub retention_days : RetentionClass → Option ℕ

pub data PurgeClass : Type 0 where
  class : RetentionClass → PurgeClass
  batch_job_item : PurgeClass
  data_export_request : PurgeClass

pub record ClassResult : Type 0 where
  pub class : PurgeClass
  pub deleted : ℕ
  pub dry_run : Bool

pub data PurgeError : Type 0 where
  data_export_object_deleter_required : PurgeError
  object_deletion_failed : PurgeError

pub data Result (A : Type 0) : Type 0 where
  done : A → Result A
  throws : PurgeError → Result A

abbrev day_ms : ℕ
day_ms = 86_400_000

-- A difference below 0 is cut to 0: no row is older than 1970.
abbrev pub cutoff_date : (now days : ℕ) → ℕ
cutoff_date now days = now - days * day_ms

abbrev with_floor : RetentionClass → ℕ → ℕ
with_floor audit_log configured = max configured (retention_days audit_log)
with_floor _ configured = configured

unfoldable pub resolve_days : RetentionClass → (RetentionClass → Option ℕ) → ℕ
resolve_days c overrides = with_floor c (or_else (overrides c) (retention_days c))

abbrev pub chunk_of : Options → ℕ
chunk_of o = or_else o.chunk_size retention_purge_chunk_size

abbrev pub is_dry : Options → Bool
is_dry o = or_else o.dry_run false

abbrev pub legal_hold : Options → List String
legal_hold o = or_else o.legal_hold_org_ids []

abbrev pub cutoff_for : RetentionClass → Options → ℕ → ℕ
cutoff_for c o now = cutoff_date now (resolve_days c o.retention_days)

abbrev pub is_in : List String → String → Bool
is_in orgs org = any (λ o. str_eq o org) orgs

-- With a legal hold: `organization_id IS NULL OR organization_id NOT IN (…)`
abbrev pub is_free : List String → Option String → Bool
is_free [] org = true
is_free orgs none = true
is_free orgs (some org) = not (is_in orgs org)

-- `column IS NOT NULL AND column < cutoff`
abbrev pub is_before : ℕ → Option ℕ → Bool
is_before cutoff none = false
is_before cutoff (some t) = ltb t cutoff

abbrev pub aged : ℕ → AgedRow → Bool
aged cutoff r = ltb r.created_at cutoff

abbrev pub aged_and_free : ℕ → List String → AgedRow → Bool
aged_and_free cutoff held r = ltb r.created_at cutoff && is_free held r.organization_id
