-- ===== src/BatchJob/Process/Item.antt =====
-- What the worker does with one claimed item, and with a chunk of them.
use saa_sweave.Prelude.{ℕ, String, ◌≡◌, refl, ap, ◌∙◌, Bool, true, false, none, some, List, ◌==◌}
use saa_sweave.Prelude.Json.{Json}
use saa_sweave.Prelude.Sql.{update_where, update_where_twice}
use saa_sweave.BatchJob.{
  BatchJobItemRow, BatchJobItemStatus, BatchJobType, Db, ItemPatch, update_batch_job_item_status,
  patch_item,
}
use saa_sweave.BatchJob.Process.{
  Outcome, returns, throws, attempt_item, finish_item, process_batch_item, process_item,
  item_process_max_attempts, succeeded, started, gave_up,
}

abbrev pub settled_status : Bool → BatchJobItemStatus
settled_status true = BatchJobItemStatus.completed
settled_status false = BatchJobItemStatus.failed

-- The rows with one id have come to a final status, and nothing else has changed.
pub record Settles (id : ℕ) (ok : Bool) (db db' : Db) : Type 0 where
  pub effect : BatchJobItemRow → BatchJobItemRow
  pub items : db'.batch_job_item ≡ update_where (λ i. i.id == id) effect db.batch_job_item
  pub jobs : db'.batch_job ≡ db.batch_job
  pub same_id : (i : BatchJobItemRow) → (effect i).id ≡ i.id
  pub same_job : (i : BatchJobItemRow) → (effect i).batch_job_id ≡ i.batch_job_id
  pub final : (i : BatchJobItemRow) → (effect i).status ≡ settled_status ok

abbrev then_patch : ℕ → ℕ → ItemPatch → List BatchJobItemRow → List BatchJobItemRow
then_patch id now p = update_where (λ i. i.id == id) (patch_item now p)

patch_twice :
    (id now : ℕ) (p : ItemPatch) (f : BatchJobItemRow → BatchJobItemRow)
    → ((i : BatchJobItemRow) → (f i).id ≡ i.id)
    → (items : List BatchJobItemRow)
    → then_patch id now p (update_where (λ i. i.id == id) f items)
      ≡ update_where (λ i. i.id == id) (λ i. patch_item now p (f i)) items
patch_twice id now p f same items =
    update_where_twice (λ i. i.id == id) f (patch_item now p) (λ i. ap (λ n. n == id) (same i))
      items

module _ (to_upper_case : String → String) (zod_error : Json → String) where
  abbrev worked : ℕ → Outcome → BatchJobItemRow → Db → Bool × Db
  worked now outcome item db =
      finish_item to_upper_case zod_error now item
        (attempt_item to_upper_case zod_error item_process_max_attempts 1 now outcome item none db)

  worked-Settles :
      (now : ℕ) (outcome : Outcome) (item : BatchJobItemRow) (db : Db)
      → Settles item.id (worked now outcome item db).0 db (worked now outcome item db).1
  unfolding attempt_item update_batch_job_item_status
  worked-Settles now (returns output) item db = record {
    effect = λ i. patch_item now (succeeded 1 output) (patch_item now (started 1) i);
    items =
        patch_twice item.id now (succeeded 1 output) (patch_item now (started 1)) (λ i. refl)
          db.batch_job_item;
    jobs = refl;
    same_id = λ i. refl;
    same_job = λ i. refl;
    final = λ i. refl;
  }
  worked-Settles now (throws message) item db = record {
    effect = λ i.
        patch_item now (gave_up (some message))
          (patch_item now (started 3) (patch_item now (started 2) (patch_item now (started 1) i)));
    items =
        ap (λ is. then_patch item.id now (gave_up (some message)) is)
          (ap (λ is. then_patch item.id now (started 3) is)
              (patch_twice item.id now (started 2) (patch_item now (started 1)) (λ i. refl)
                db.batch_job_item)
            ∙ patch_twice item.id now (started 3)
                (λ i. patch_item now (started 2) (patch_item now (started 1) i)) (λ i. refl)
                db.batch_job_item)
        ∙ patch_twice item.id now (gave_up (some message))
            (λ i.
              patch_item now (started 3)
                (patch_item now (started 2) (patch_item now (started 1) i)))
            (λ i. refl) db.batch_job_item;
    jobs = refl;
    same_id = λ i. refl;
    same_job = λ i. refl;
    final = λ i. refl;
  }

  pub process_item-Settles :
      (now : ℕ) (type : BatchJobType) (item : BatchJobItemRow) (db : Db)
      → Settles item.id
          (process_item to_upper_case zod_error now type item db).0
          db
          (process_item to_upper_case zod_error now type item db).1
  unfolding process_item
  process_item-Settles now type item db =
      worked-Settles now (process_batch_item to_upper_case zod_error type item.input) item db
