-- ===== src/Webhooks/Disabled.antt =====
-- What disabling or deleting an endpoint does to jobs that are already on the queue, in
-- packages/jobs/src/webhook-dispatch.ts.
use saa_sweave.Prelude.{
  ℕ, String, true, false, Option, none, some, List, [], ◌∷◌, ◌≡◌, refl, ap, ◌∙◌, arith, any, keep,
  map, All, Bool-cases, inl, inr,
}
use mathlib.Core.Option
use text.Mathlib.Text.{◌==◌ as str_eq}
use saa_sweave.Prelude.Sql.{update_where, delete_where, first_where, first_where-update_where}
use saa_sweave.Outbound.Hop.{Network}
use saa_sweave.Outbound.Client.{is_too_large}
use saa_sweave.Webhooks.Endpoints.{
  WebhookEvent, WebhookEndpoint, WebhookDb, is_endpoint, is_target, target_of,
  set_webhook_endpoint_enabled, delete_webhook_endpoint, get_enabled_webhook_targets,
  get_webhook_endpoint,
}
use saa_sweave.Webhooks.Deliver.{Sender, deliver_webhook_http}
use saa_sweave.Webhooks.Recorded.{deliver-unknown}
use saa_sweave.Webhooks.Dispatch.{
  WebhookDeliveryJobData, completed, fails_job, process_found, process_queued_webhook_delivery,
}

abbrev disabled : WebhookEndpoint → WebhookEndpoint
disabled row = record row { enabled = false }

no_target :
    (organization_id id : String) (event : WebhookEvent) (rows : List WebhookEndpoint)
    → All
        (λ t. str_eq t.endpoint_id id ≡ false)
        (map target_of (
          keep
            (is_target organization_id event)
            (update_where (is_endpoint organization_id id) disabled rows)))
no_target organization_id id event [] = tt
no_target organization_id id event (row ∷ rows) =
    ground (arith, no_target organization_id id event rows)

disabled_is_found :
    (organization_id id : String) (db : WebhookDb)
    → get_webhook_endpoint organization_id id
        (set_webhook_endpoint_enabled organization_id id false db).1
      ≡ Option.map disabled (get_webhook_endpoint organization_id id db)
unfolding get_webhook_endpoint set_webhook_endpoint_enabled
disabled_is_found organization_id id db =
    first_where-update_where (is_endpoint organization_id id) disabled (λ row. refl)
      db.webhook_endpoint

deleted_is_missing :
    (organization_id id : String) (rows : List WebhookEndpoint)
    → first_where
        (is_endpoint organization_id id)
        (delete_where (is_endpoint organization_id id) rows)
      ≡ none
deleted_is_missing organization_id id [] = refl
deleted_is_missing organization_id id (row ∷ rows) =
    ground (arith, deleted_is_missing organization_id id rows)

-- Ids of endpoints are unique: the one with the id is the organization's.
abbrev pub IsOwned : String → String → List WebhookEndpoint → Type 0
IsOwned organization_id id =
    All (λ row. (str_eq row.id id ≡ true) → str_eq row.organization_id organization_id ≡ true)

deleted_is_gone :
    (organization_id id : String) (rows : List WebhookEndpoint)
    → IsOwned organization_id id rows
    → any (λ row. str_eq row.id id) (delete_where (is_endpoint organization_id id) rows) ≡ false
deleted_is_gone organization_id id [] h = refl
deleted_is_gone organization_id id (row ∷ rows) h =
    ground (arith, h.0, deleted_is_gone organization_id id rows h.1)

module _ (sender : Sender) (network : Network) (start now : ℕ) (id : String)
    (job : WebhookDeliveryJobData) (db : WebhookDb) where
  abbrev organization_id : String
  organization_id = job.payload.organization_id

  sent_when_found :
      (meanwhile meanwhile' : WebhookDb → WebhookDb) (db' : WebhookDb)
      (endpoint : Option WebhookEndpoint)
      → (process_found sender network start now id meanwhile job
          (Option.map disabled endpoint)
          db').1
        ≡ (process_found sender network start now id meanwhile' job endpoint db).1
  unfolding process_found deliver_webhook_http
  sent_when_found meanwhile meanwhile' db' none = refl
  sent_when_found meanwhile meanwhile' db' (some endpoint) =
      elim (Bool-cases (is_too_large (some (sender.stringify job.payload)))) [
        | inl large ↦ rw large refl
        | inr small ↦ rw small refl
      ]

  -- After an endpoint has been disabled no event has it as a target, but an attempt at a job for
  -- it that is already on the queue sends exactly what it would have sent before, whatever others
  -- write meanwhile.
  pub disabled_endpoint_is_delivered :
      (event : WebhookEvent) (meanwhile meanwhile' : WebhookDb → WebhookDb)
      → let db' = (set_webhook_endpoint_enabled organization_id job.endpoint_id false db).1 in
        All
          (λ t. str_eq t.endpoint_id job.endpoint_id ≡ false)
          (get_enabled_webhook_targets organization_id event db')
        × ((process_queued_webhook_delivery sender network start now id meanwhile job db').1
            ≡ (process_queued_webhook_delivery sender network start now id meanwhile' job db).1)
  unfolding get_enabled_webhook_targets set_webhook_endpoint_enabled process_queued_webhook_delivery
  disabled_endpoint_is_delivered event meanwhile meanwhile' = (
    no_target organization_id job.endpoint_id event db.webhook_endpoint,
    rw (disabled_is_found organization_id job.endpoint_id db) (
        sent_when_found meanwhile meanwhile'
          (set_webhook_endpoint_enabled organization_id job.endpoint_id false db).1
          (get_webhook_endpoint organization_id job.endpoint_id db)),
  )

  abbrev delete_it : WebhookDb → WebhookDb
  delete_it d = (delete_webhook_endpoint organization_id job.endpoint_id d).1

  retry_of_deleted :
      (d : WebhookDb)
      → process_queued_webhook_delivery sender network start now id delete_it job (delete_it d)
        ≡ ((completed, delete_it d), [])
  unfolding process_queued_webhook_delivery get_webhook_endpoint delete_webhook_endpoint
      process_found
  retry_of_deleted d =
      rw (deleted_is_missing organization_id job.endpoint_id d.webhook_endpoint) refl

  attempt_of_deleted :
      (endpoint : WebhookEndpoint)
      → is_too_large (some (sender.stringify job.payload)) ≡ false
      → IsOwned organization_id job.endpoint_id db.webhook_endpoint
      → (process_found sender network start now id delete_it job (some endpoint) db).0
        ≡ (fails_job, delete_it db)
  unfolding process_found delete_webhook_endpoint
  attempt_of_deleted endpoint small owned =
      deliver-unknown sender network start now id delete_it
        (record {
          endpoint_id = job.endpoint_id;
          secret = endpoint.secret;
          url = job.url;
          payload = job.payload;
        })
        db small (deleted_is_gone organization_id job.endpoint_id db.webhook_endpoint owned)

  attempt_lem :
      IsOwned organization_id job.endpoint_id db.webhook_endpoint
      → (endpoint : WebhookEndpoint)
      → get_webhook_endpoint organization_id job.endpoint_id db ≡ some endpoint
      → is_too_large (some (sender.stringify job.payload)) ≡ false
      → (process_queued_webhook_delivery sender network start now id delete_it job db).0
        ≡ (fails_job, delete_it db)
  unfolding process_queued_webhook_delivery
  attempt_lem owned endpoint found small = rw found (attempt_of_deleted endpoint small owned)

  -- An attempt during which the endpoint is deleted fails without a row, and the next one completes
  -- and sends nothing.
  pub deleted_endpoint_is_left :
      IsOwned organization_id job.endpoint_id db.webhook_endpoint
      → (endpoint : WebhookEndpoint)
      → get_webhook_endpoint organization_id job.endpoint_id db ≡ some endpoint
      → is_too_large (some (sender.stringify job.payload)) ≡ false
      → let attempt =
          process_queued_webhook_delivery sender network start now id delete_it job db in
        (attempt.0 ≡ (fails_job, delete_it db))
        × (process_queued_webhook_delivery sender network start now id delete_it job attempt.0.1
            ≡ ((completed, delete_it db), []))
  deleted_endpoint_is_left owned endpoint found small =
      let failure = attempt_lem owned endpoint found small in
      (
        failure,
        ap (process_queued_webhook_delivery sender network start now id delete_it job)
              (ap (λ x. x.1) failure)
            ∙ retry_of_deleted db,
      )
