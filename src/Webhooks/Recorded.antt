-- ===== src/Webhooks/Recorded.antt =====
-- What a delivery of packages/db/src/webhooks.ts leaves in the tables, on every way it can end.
use saa_sweave.Prelude.{
  ℕ, ◌/◌, String, Bool, true, false, some, [], ◌∷◌, ◌++◌, ◌≡◌, refl, inl, inr, any, Bool-cases,
}
use text.Mathlib.Text.{◌==◌ as str_eq}
use saa_sweave.Outbound.Hop.{Outcome, done, throws, no_fuel, Network, OutboundHttpFailureCode}
use saa_sweave.Outbound.Client.{HardenedOutboundResponse, is_too_large}
use saa_sweave.Outbound.Redirects.{IsDecided, hardened_outbound_request-IsDecided}
use saa_sweave.Webhooks.Endpoints.{
  WebhookDelivery, WebhookDeliveryStatus, is_delivered, is_failed, WebhookDb, WebhookEndpoint,
  get_webhook_endpoint,
}
use saa_sweave.Webhooks.Deliver.{
  Sender, DeliveryInput, Settled, record_webhook_delivery, fail_with, conclude_delivery,
  too_large_failure, request_of, is_ok, deliver_webhook_http,
}
use saa_sweave.Webhooks.Dispatch.{
  WebhookDeliveryJobData, JobEnd, completed, fails_job, end_of, process_found,
  process_queued_webhook_delivery,
}

-- The endpoint is in its table.
abbrev pub has_endpoint : String → WebhookDb → Bool
has_endpoint id db = any (λ row. str_eq row.id id) db.webhook_endpoint

-- The end of a job that agrees with the row of its delivery.
abbrev pub Agrees : JobEnd → WebhookDeliveryStatus → Type 0
Agrees completed is_delivered = Unit
Agrees fails_job is_failed = Unit
Agrees _ _ = ⊥

-- One delivery to the endpoint is added, and the end agrees with it.
abbrev pub IsRecorded : String → WebhookDb → JobEnd × WebhookDb → Type 0
IsRecorded endpoint_id db (job_end, db') =
    (d : WebhookDelivery) × (db' ≡ record db { webhook_delivery = db.webhook_delivery ++ d ∷ [] })
    × (d.endpoint_id ≡ endpoint_id)
    × Agrees job_end d.status

abbrev pub ended : Settled × WebhookDb → JobEnd × WebhookDb
ended (result, db) = (end_of result, db)

fail_with-IsRecorded :
    (now : ℕ) (id : String) (input : DeliveryInput) (failure : OutboundHttpFailureCode × String)
    (db : WebhookDb)
    → has_endpoint input.endpoint_id db ≡ true
    → IsRecorded input.endpoint_id db (ended (fail_with now id input failure db))
unfolding fail_with record_webhook_delivery
fail_with-IsRecorded now id input failure db known = rw known (_, refl, refl, tt)

conclude_delivery-IsRecorded :
    (sender : Sender) (now : ℕ) (id : String) (input : DeliveryInput)
    (outcome : Outcome HardenedOutboundResponse) (db : WebhookDb)
    → IsDecided outcome
    → has_endpoint input.endpoint_id db ≡ true
    → IsRecorded input.endpoint_id db (ended (conclude_delivery sender now id input outcome db))
unfolding conclude_delivery record_webhook_delivery
conclude_delivery-IsRecorded sender now id input (done response) db decided known =
    elim (Bool-cases (is_ok response.status)) [
      | inl e ↦ rw (known, e) (_, refl, refl, tt)
      | inr e ↦ rw (known, e) (_, refl, refl, tt)
    ]
conclude_delivery-IsRecorded sender now id input (throws thrown) db decided known =
    fail_with-IsRecorded now id input _ db known
conclude_delivery-IsRecorded sender now id input no_fuel db decided known = elim decided [ ]

deliver-IsRecorded :
    (sender : Sender) (network : Network) (start now : ℕ) (id : String)
    (meanwhile : WebhookDb → WebhookDb) (input : DeliveryInput) (db : WebhookDb)
    → is_too_large (some (sender.stringify input.payload)) ≡ false
    → has_endpoint input.endpoint_id (meanwhile db) ≡ true
    → IsRecorded input.endpoint_id
        (meanwhile db)
        (ended (deliver_webhook_http sender network start now id meanwhile input db).0)
unfolding deliver_webhook_http
deliver-IsRecorded sender network start now id meanwhile input db small known = rw small (
    conclude_delivery-IsRecorded sender now id input _ (meanwhile db)
      (hardened_outbound_request-IsDecided sender.platform (request_of sender (start / 1000) input)
        network)
      known)

deliver_too_large-IsRecorded :
    (sender : Sender) (network : Network) (start now : ℕ) (id : String)
    (meanwhile : WebhookDb → WebhookDb) (input : DeliveryInput) (db : WebhookDb)
    → is_too_large (some (sender.stringify input.payload)) ≡ true
    → has_endpoint input.endpoint_id db ≡ true
    → IsRecorded input.endpoint_id db
        (ended (deliver_webhook_http sender network start now id meanwhile input db).0)
unfolding deliver_webhook_http
deliver_too_large-IsRecorded sender network start now id meanwhile input db large known =
    rw large (fail_with-IsRecorded now id input (too_large_failure sender) db known)

fail_with-unknown :
    (now : ℕ) (id : String) (input : DeliveryInput) (failure : OutboundHttpFailureCode × String)
    (db : WebhookDb)
    → has_endpoint input.endpoint_id db ≡ false
    → ended (fail_with now id input failure db) ≡ (fails_job, db)
unfolding fail_with record_webhook_delivery
fail_with-unknown now id input failure db unknown = rw unknown refl

conclude_delivery-unknown :
    (sender : Sender) (now : ℕ) (id : String) (input : DeliveryInput)
    (outcome : Outcome HardenedOutboundResponse) (db : WebhookDb)
    → IsDecided outcome
    → has_endpoint input.endpoint_id db ≡ false
    → ended (conclude_delivery sender now id input outcome db) ≡ (fails_job, db)
unfolding conclude_delivery record_webhook_delivery
conclude_delivery-unknown sender now id input (done response) db decided unknown =
    rw unknown (fail_with-unknown now id input sender.other_failure db unknown)
conclude_delivery-unknown sender now id input (throws thrown) db decided unknown =
    fail_with-unknown now id input _ db unknown
conclude_delivery-unknown sender now id input no_fuel db decided unknown = elim decided [ ]

-- A delivery to an endpoint that is deleted meanwhile leaves no row.
pub deliver-unknown :
    (sender : Sender) (network : Network) (start now : ℕ) (id : String)
    (meanwhile : WebhookDb → WebhookDb) (input : DeliveryInput) (db : WebhookDb)
    → is_too_large (some (sender.stringify input.payload)) ≡ false
    → has_endpoint input.endpoint_id (meanwhile db) ≡ false
    → ended (deliver_webhook_http sender network start now id meanwhile input db).0
      ≡ (fails_job, meanwhile db)
unfolding deliver_webhook_http
deliver-unknown sender network start now id meanwhile input db small unknown = rw small (
    conclude_delivery-unknown sender now id input _ (meanwhile db)
      (hardened_outbound_request-IsDecided sender.platform (request_of sender (start / 1000) input)
        network)
      unknown)

-- A delivery during which nobody else writes adds its row, also when the payload is too large.
pub deliver_alone-IsRecorded :
    (sender : Sender) (network : Network) (start now : ℕ) (id : String) (input : DeliveryInput)
    (db : WebhookDb)
    → has_endpoint input.endpoint_id db ≡ true
    → IsRecorded input.endpoint_id db
        (ended (deliver_webhook_http sender network start now id (λ d. d) input db).0)
deliver_alone-IsRecorded sender network start now id input db known =
    elim (Bool-cases (is_too_large (some (sender.stringify input.payload)))) [
      | inl large ↦
          deliver_too_large-IsRecorded sender network start now id (λ d. d) input db large known
      | inr small ↦ deliver-IsRecorded sender network start now id (λ d. d) input db small known
    ]

-- An attempt at a queued delivery whose endpoint is found, whose payload is small enough to be
-- sent and whose endpoint is still there after the request adds exactly one row for that endpoint
-- to what others have written meanwhile, whatever the network does: either the row is delivered
-- and the job completes, or the row is failed and the job fails.
pub attempt-IsRecorded :
    (sender : Sender) (network : Network) (start now : ℕ) (id : String)
    (meanwhile : WebhookDb → WebhookDb) (job : WebhookDeliveryJobData) (endpoint : WebhookEndpoint)
    (db : WebhookDb)
    → get_webhook_endpoint job.payload.organization_id job.endpoint_id db ≡ some endpoint
    → is_too_large (some (sender.stringify job.payload)) ≡ false
    → has_endpoint job.endpoint_id (meanwhile db) ≡ true
    → IsRecorded job.endpoint_id
        (meanwhile db)
        (process_queued_webhook_delivery sender network start now id meanwhile job db).0
unfolding process_queued_webhook_delivery process_found
attempt-IsRecorded sender network start now id meanwhile job endpoint db found small known =
    rw found (
      deliver-IsRecorded sender network start now id meanwhile
        (record {
          endpoint_id = job.endpoint_id;
          secret = endpoint.secret;
          url = job.url;
          payload = job.payload;
        })
        db small known)
