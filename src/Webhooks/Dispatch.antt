-- ===== src/Webhooks/Dispatch.antt =====
-- packages/jobs/src/webhook-dispatch.ts. Without Redis the deliveries of one event are made one after
-- the other here, each with its own network; they write rows of different endpoints.
use saa_sweave.Prelude.{ℕ, String, Bool, Option, none, some, List, [], ◌∷◌, map, if◌then◌else◌}
use saa_sweave.Outbound.Hop.{Hop, Network}
use saa_sweave.Prelude.Json.{Fields}
use saa_sweave.Webhooks.Endpoints.{
  WebhookEvent, WebhookPayload, build_webhook_payload, WebhookEndpoint, WebhookDb, WebhookTarget,
  get_enabled_webhook_targets, get_webhook_endpoint,
}
use saa_sweave.Webhooks.Deliver.{
  Sender, DeliveryInput, Settled, returned, rejected, unfinished, deliver_webhook_http,
}

pub record WebhookDeliveryJobData : Type 0 where
  pub endpoint_id : String
  pub payload : WebhookPayload
  pub url : String

pub data JobEnd : Type 0 where
  completed fails_job open_job : JobEnd

abbrev pub job_of : WebhookPayload → WebhookTarget → WebhookDeliveryJobData
job_of payload target = record {
  endpoint_id = target.endpoint_id;
  payload = payload;
  url = target.url;
}

abbrev pub input_of : WebhookPayload → WebhookTarget → DeliveryInput
input_of payload target = record {
  endpoint_id = target.endpoint_id;
  secret = target.secret;
  url = target.url;
  payload = payload;
}

-- Nobody else writes during the requests of `deliver_all`.
abbrev alone : WebhookDb → WebhookDb
alone db = db

-- The deliveries in the process; an error of one is only logged. The network and the new id are
-- given for each endpoint.
unfoldable pub deliver_all :
    Sender
    → (network_of : String → Network) → (id_of : String → String) → (start now : ℕ) → WebhookPayload
    → List WebhookTarget
    → WebhookDb
    → WebhookDb
deliver_all sender network_of id_of start now payload [] db = db
deliver_all sender network_of id_of start now payload (target ∷ targets) db =
    let ((_, db'), _) =
      deliver_webhook_http sender (network_of target.endpoint_id) start now
        (id_of target.endpoint_id) alone (input_of payload target) db in
    deliver_all sender network_of id_of start now payload targets db'

-- The jobs that are put on the queue, and the tables.
unfoldable pub dispatch_org_webhook :
    Sender
    → (network_of : String → Network) → (id_of : String → String) → (start now : ℕ)
    → (redis_enabled : Bool) → (organization_id : String) → WebhookEvent
    → Fields
    → (created_at payload_id : String) → WebhookDb
    → List WebhookDeliveryJobData × WebhookDb
unfolding get_enabled_webhook_targets
dispatch_org_webhook sender network_of id_of start now redis_enabled organization_id event fields
      created_at payload_id db =
    let targets = get_enabled_webhook_targets organization_id event db in
    let payload = build_webhook_payload organization_id event fields created_at payload_id in
    let delivered = deliver_all sender network_of id_of start now payload targets db in
    if redis_enabled then (map (job_of payload) targets, db) else ([], delivered)

abbrev end_of_result : Bool → JobEnd
end_of_result ok = if ok then completed else fails_job

abbrev pub end_of : Settled → JobEnd
end_of (returned result) = end_of_result result.ok
end_of rejected = fails_job
end_of unfinished = open_job

unfoldable pub process_found :
    Sender
    → Network
    → (start now : ℕ) → String
    → (meanwhile : WebhookDb → WebhookDb) → WebhookDeliveryJobData
    → Option WebhookEndpoint
    → WebhookDb
    → (JobEnd × WebhookDb) × List Hop
process_found sender network start now id meanwhile job none db = ((completed, db), [])
process_found sender network start now id meanwhile job (some endpoint) db =
    let ((result, db'), sent) =
      deliver_webhook_http sender network start now id meanwhile
        (record {
          endpoint_id = job.endpoint_id;
          secret = endpoint.secret;
          url = job.url;
          payload = job.payload;
        })
        db in
    ((end_of result, db'), sent)

-- An attempt at a job: its end, the tables and what has been sent.
unfoldable pub process_queued_webhook_delivery :
    Sender
    → Network
    → (start now : ℕ) → String
    → (meanwhile : WebhookDb → WebhookDb) → WebhookDeliveryJobData
    → WebhookDb
    → (JobEnd × WebhookDb) × List Hop
unfolding process_found get_webhook_endpoint
process_queued_webhook_delivery sender network start now id meanwhile job db =
    process_found sender network start now id meanwhile job
      (get_webhook_endpoint job.payload.organization_id job.endpoint_id db) db
