-- ===== src/BatchJob.antt =====
-- Batch jobs: the tables and queries of packages/db/src/batch-job.ts and
-- packages/db/src/schema/batch-job.schema.ts. `Process` is the worker's loop over them. Rows carry
-- times in milliseconds; the mapping of rows to ISO texts changes no value and is left out, as is the
-- row that an update returns and no caller reads.
pub mod Process
mod Tests
mod Tables
pub use Tables.*
use saa_sweave.Prelude.{
  ℕ, ◌+◌, ◌*◌, String, Bool, true, false, ◌&&◌, ◌||◌, Option, none, some, List, [], ◌∷◌, ◌++◌, map,
  ltb, ◌==◌, if◌then◌else◌, or_else, is_some, length, take, keep, any,
}
use mathlib.Core.Option
use text.Mathlib.Text.{◌==◌ as str_eq}
use saa_sweave.Prelude.Json.{Json}
use saa_sweave.Prelude.Sql.{update_where, first_where, sort_by, sort_by_desc}

abbrev pub new_item : (now job_id id : ℕ) → Json → BatchJobItemRow
new_item now job_id id input = record {
  attempts = 0;
  batch_job_id = job_id;
  claimed_at = none;
  created_at = now;
  error = none;
  id = id;
  input = input;
  lease_expires_at = none;
  output = none;
  status = BatchJobItemStatus.pending;
  updated_at = now;
  worker_id = none;
}

-- Each input with the id that `randomUUID` draws for it; both lists have one length.
abbrev pub item_rows : (now job_id : ℕ) → List (ℕ × Json) → List BatchJobItemRow
item_rows now job_id [] = []
item_rows now job_id ((id, input) ∷ rest) = new_item now job_id id input ∷ item_rows now job_id rest

unfoldable pub list_batch_job_items : ℕ → Db → List BatchJobItemRow
list_batch_job_items job_id db =
    sort_by (λ i. i.created_at) (keep (λ i. i.batch_job_id == job_id) db.batch_job_item)

unfoldable pub get_batch_job : String → ℕ → Db → Option BatchJobRow
get_batch_job organization_id id db =
    first_where (λ j. j.id == id && str_eq j.organization_id organization_id) db.batch_job

unfoldable pub get_batch_job_by_id : ℕ → Db → Option BatchJobRow
get_batch_job_by_id id db = first_where (λ j. j.id == id) db.batch_job

abbrev with_items : ℕ → Db → Option BatchJobRow → Option (BatchJobRow × List BatchJobItemRow)
with_items id db none = none
with_items id db (some job) = some (job, list_batch_job_items id db)

unfoldable pub get_batch_job_with_items :
    String → ℕ → Db → Option (BatchJobRow × List BatchJobItemRow)
unfolding list_batch_job_items get_batch_job
get_batch_job_with_items organization_id id db =
    with_items id db (get_batch_job organization_id id db)

unfoldable pub list_batch_jobs : String → ℕ → Db → List BatchJobRow
list_batch_jobs organization_id limit db = take limit (
    sort_by_desc (λ j. j.created_at)
      (keep (λ j. str_eq j.organization_id organization_id) db.batch_job))

-- The transaction writes the header and the items; the job is read back, and `none` is the throw
-- of "Failed to create batch job".
unfoldable pub create_batch_job_with_items :
    (now job_id : ℕ)
    → (created_by_user_id organization_id : String) → BatchJobType
    → List (ℕ × Json)
    → Db
    → Option (BatchJobRow × List BatchJobItemRow) × Db
unfolding get_batch_job_with_items
create_batch_job_with_items now job_id created_by_user_id organization_id type items db =
    let rows = item_rows now job_id items in
    let db' : Db = record {
      batch_job =
          db.batch_job
          ++ record {
            completed_items = 0;
            created_at = now;
            created_by_user_id = created_by_user_id;
            error = none;
            failed_items = 0;
            id = job_id;
            organization_id = organization_id;
            status = BatchJobStatus.pending;
            total_items = length rows;
            type = type;
            updated_at = now;
          }
            ∷ [];
      batch_job_item = db.batch_job_item ++ rows;
    } in
    (get_batch_job_with_items organization_id job_id db', db')

-- `lease_expires_at IS NOT NULL AND lease_expires_at < now`
abbrev pub is_lease_expired : ℕ → Option ℕ → Bool
is_lease_expired now none = false
is_lease_expired now (some t) = ltb t now

abbrev pub is_claimable : (now job_id : ℕ) → BatchJobItemRow → Bool
is_claimable now job_id i =
    i.batch_job_id == job_id
    && (is_pending_item i.status
        || is_processing_item i.status && is_lease_expired now i.lease_expires_at)

abbrev pub claimed : (now lease_until worker_id : ℕ) → BatchJobItemRow → BatchJobItemRow
claimed now lease_until worker_id i = record i {
  status = BatchJobItemStatus.processing;
  claimed_at = some now;
  lease_expires_at = some lease_until;
  worker_id = some worker_id;
  updated_at = now;
}

-- `id IN (…)` over the ids of the selected rows
abbrev pub is_among : List BatchJobItemRow → BatchJobItemRow → Bool
is_among rows i = any (λ r. r.id == i.id) rows

-- The subquery of the claim. One statement at a time runs on the store, so that SKIP LOCKED skips
-- no row.
abbrev pub claim_selection : (now job_id chunk_size : ℕ) → Db → List BatchJobItemRow
claim_selection now job_id chunk_size db =
    take chunk_size (sort_by (λ i. i.created_at) (keep (is_claimable now job_id) db.batch_job_item))

unfoldable pub claim_batch_job_items :
    (now job_id chunk_size lease_seconds worker_id : ℕ) → Db → List BatchJobItemRow × Db
claim_batch_job_items now job_id chunk_size lease_seconds worker_id db =
    let selected = claim_selection now job_id chunk_size db in
    let set = claimed now (now + lease_seconds * 1000) worker_id in
    (
      map set selected,
      record db { batch_job_item = update_where (is_among selected) set db.batch_job_item },
    )

abbrev pub is_expired_lease : (now job_id : ℕ) → BatchJobItemRow → Bool
is_expired_lease now job_id i =
    i.batch_job_id == job_id
    && is_processing_item i.status
    && is_lease_expired now i.lease_expires_at

abbrev pub released : ℕ → BatchJobItemRow → BatchJobItemRow
released now i = record i {
  claimed_at = none;
  lease_expires_at = none;
  status = BatchJobItemStatus.pending;
  updated_at = now;
  worker_id = none;
}

unfoldable pub release_expired_batch_job_leases : (now job_id : ℕ) → Db → ℕ × Db
release_expired_batch_job_leases now job_id db = (
  length (keep (is_expired_lease now job_id) db.batch_job_item),
  record db {
    batch_job_item = update_where (is_expired_lease now job_id) (released now) db.batch_job_item;
  },
)

-- A field of an update object: `undefined` leaves the column, a value (which may be null) sets it.
pub data Patch (A : Type 0) : Type 0 where
  unset : Patch A
  set_to : A → Patch A

abbrev pub patched : {A : Type 0} → Patch A → A → A
patched unset old = old
patched (set_to new) old = new

abbrev pub patch_job : ℕ → Patch (Option String) → BatchJobStatus → BatchJobRow → BatchJobRow
patch_job now error status j = record j {
  error = patched error j.error;
  status = status;
  updated_at = now;
}

unfoldable pub update_batch_job_status :
    (now id : ℕ) → Patch (Option String) → BatchJobStatus → Db → Db
update_batch_job_status now id error status db = record db {
  batch_job = update_where (λ j. j.id == id) (patch_job now error status) db.batch_job;
}

pub record ItemPatch : Type 0 where
  pub attempts : Patch ℕ
  pub error : Patch (Option String)
  pub output : Patch (Option Json)
  pub status : BatchJobItemStatus
  pub claimed_at : Patch (Option ℕ)
  pub lease_expires_at : Patch (Option ℕ)
  pub worker_id : Patch (Option ℕ)

abbrev pub patch_item : ℕ → ItemPatch → BatchJobItemRow → BatchJobItemRow
patch_item now p i = record i {
  attempts = patched p.attempts i.attempts;
  error = patched p.error i.error;
  output = patched p.output i.output;
  claimed_at = patched p.claimed_at i.claimed_at;
  lease_expires_at = patched p.lease_expires_at i.lease_expires_at;
  worker_id = patched p.worker_id i.worker_id;
  status = p.status;
  updated_at = now;
}

unfoldable pub update_batch_job_item_status : (now id : ℕ) → ItemPatch → Db → Db
update_batch_job_item_status now id p db = record db {
  batch_job_item = update_where (λ i. i.id == id) (patch_item now p) db.batch_job_item;
}

abbrev pub added : Option ℕ → ℕ → ℕ
added none n = n
added (some k) n = n + k

abbrev pub incremented : ℕ → (completed failed : Option ℕ) → BatchJobRow → BatchJobRow
incremented now completed_count failed_count j = record j {
  completed_items = added completed_count j.completed_items;
  failed_items = added failed_count j.failed_items;
  updated_at = now;
}

unfoldable pub increment_batch_job_progress : (now id : ℕ) → (completed failed : Option ℕ) → Db → Db
increment_batch_job_progress now id completed_count failed_count db = record db {
  batch_job =
      update_where (λ j. j.id == id) (incremented now completed_count failed_count) db.batch_job;
}

abbrev pub is_cancelable : String → ℕ → BatchJobRow → Bool
is_cancelable organization_id id j =
    j.id == id && str_eq j.organization_id organization_id && is_active_status j.status

abbrev pub canceled_job : ℕ → BatchJobRow → BatchJobRow
canceled_job now j = record j { status = BatchJobStatus.canceled; updated_at = now }

unfoldable pub cancel_batch_job : ℕ → String → ℕ → Db → Option BatchJobRow × Db
cancel_batch_job now organization_id id db = (
  Option.map (canceled_job now) (first_where (is_cancelable organization_id id) db.batch_job),
  record db {
    batch_job = update_where (is_cancelable organization_id id) (canceled_job now) db.batch_job;
  },
)

abbrev pub has_canceled : Option BatchJobRow → Bool
has_canceled none = false
has_canceled (some j) = is_canceled_status j.status

unfoldable pub is_batch_job_canceled : ℕ → Db → Bool
is_batch_job_canceled id db = has_canceled (first_where (λ j. j.id == id) db.batch_job)
