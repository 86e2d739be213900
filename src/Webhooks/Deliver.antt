-- ===== src/Webhooks/Deliver.antt =====
-- `recordWebhookDelivery` and `deliverWebhookHttp` of packages/db/src/webhooks.ts, and
-- `toSanitizedOutboundFailure` of packages/db/src/outbound-http/sanitize.ts.
use saa_sweave.Prelude.{
  ℕ, ◌/◌, String, Bool, true, false, ◌&&◌, Option, none, some, List, [], ◌∷◌, ◌++◌, ltb, leb,
  if◌then◌else◌, any,
}
use mathlib.Core.Option
use text.Mathlib.Text.{◌==◌ as str_eq}
use saa_sweave.Prelude.Text.{joined}
use saa_sweave.Prelude.Decimal.{decimal}
use saa_sweave.Outbound.Address.{Platform}
use saa_sweave.Outbound.Hop.{
  OutboundHttpFailureCode, network_error, Thrown, outbound, other_error, Hop, Outcome, done, throws,
  no_fuel, Network,
}
use saa_sweave.Outbound.Client.{
  HardenedOutboundRequestInput, HardenedOutboundResponse, is_too_large, hardened_outbound_request,
}
use saa_sweave.Webhooks.Endpoints.{
  WebhookPayload, event_text, WebhookDeliveryStatus, is_delivered, is_failed, WebhookDelivery,
  WebhookDb,
}

-- What the code calls: HMAC-SHA256 in hexadecimal, JSON, the text of a body's bytes, the redactions
-- of `sanitizeOutboundFailureMessage`, and what `toSanitizedOutboundFailure` makes of an error that
-- is none of `OutboundHttpError`.
pub record Sender : Type 0 where
  pub platform : Platform
  pub hmac_sha256 : (secret text : String) → String
  pub stringify : WebhookPayload → String
  pub to_text : List ℕ → String
  pub sanitize_outbound_failure_message : String → String
  pub other_failure : OutboundHttpFailureCode × String

pub record WebhookDeliveryResult : Type 0 where
  pub failure_code : Option OutboundHttpFailureCode
  pub ok : Bool
  pub response_body : String
  pub response_status : ℕ
  pub truncated : Option Bool

-- The argument of `deliverWebhookHttp`.
pub record DeliveryInput : Type 0 where
  pub endpoint_id : String
  pub secret : String
  pub url : String
  pub payload : WebhookPayload

pub data Settled : Type 0 where
  returned : WebhookDeliveryResult → Settled
  rejected unfinished : Settled

unfoldable pub sign_webhook_payload : Sender → (secret body : String) → (timestamp : ℕ) → String
unfolding joined decimal
sign_webhook_payload sender secret body timestamp =
    sender.hmac_sha256 secret (joined (decimal timestamp) (joined "." body))

abbrev pub format_stored_response_body : String → Bool → String
format_stored_response_body body truncated = if truncated then joined body "[truncated]" else body

unfoldable pub to_sanitized_outbound_failure : Sender → Thrown → OutboundHttpFailureCode × String
to_sanitized_outbound_failure sender (outbound code message) =
    (code, sender.sanitize_outbound_failure_message message)
to_sanitized_outbound_failure sender other_error = sender.other_failure

-- `toSanitizedOutboundFailure(new Error("payload_too_large"))`
abbrev pub too_large_failure : Sender → OutboundHttpFailureCode × String
too_large_failure sender =
    (network_error, sender.sanitize_outbound_failure_message "payload_too_large")

abbrev pub new_delivery :
    (now : ℕ) (id : String)
    → DeliveryInput
    → WebhookDeliveryStatus
    → (response_status : Option ℕ) → (response_body : String) → WebhookDelivery
new_delivery now id input status response_status response_body = record {
  attempt = "1";
  created_at = now;
  endpoint_id = input.endpoint_id;
  event_type = event_text input.payload.event;
  id = id;
  payload = input.payload;
  response_body = some response_body;
  response_status = Option.map decimal response_status;
  status = status;
}

-- Whether it returns: the row needs the endpoint that it refers to.
unfoldable pub record_webhook_delivery : WebhookDelivery → WebhookDb → Bool × WebhookDb
record_webhook_delivery delivery db =
    if any (λ row. str_eq row.id delivery.endpoint_id) db.webhook_endpoint
    then (true, record db { webhook_delivery = db.webhook_delivery ++ delivery ∷ [] })
    else (false, db)

abbrev pub failed_result : OutboundHttpFailureCode × String → WebhookDeliveryResult
failed_result (code, message) = record {
  failure_code = some code;
  ok = false;
  response_body = message;
  response_status = 0;
  truncated = none;
}

abbrev settled : WebhookDeliveryResult → Bool × WebhookDb → Settled × WebhookDb
settled result (true, db) = (returned result, db)
settled result (false, db) = (rejected, db)

-- The row and the result of a failure: the first branch, and the `catch`.
unfoldable pub fail_with :
    ℕ → String → DeliveryInput → OutboundHttpFailureCode × String → WebhookDb → Settled × WebhookDb
fail_with now id input failure db =
    settled (failed_result failure)
      (record_webhook_delivery (new_delivery now id input is_failed none failure.1) db)

abbrev pub is_ok : ℕ → Bool
is_ok status = leb 200 status && ltb status 300

abbrev pub status_of : ℕ → WebhookDeliveryStatus
status_of status = if is_ok status then is_delivered else is_failed

abbrev or_caught :
    WebhookDeliveryResult
    → (WebhookDb → Settled × WebhookDb)
    → Bool × WebhookDb
    → Settled × WebhookDb
or_caught result caught (true, db) = (returned result, db)
or_caught result caught (false, db) = caught db

-- The rest of the `try`, after the request; an error of its row goes to the `catch`.
unfoldable pub conclude_delivery :
    Sender
    → ℕ
    → String
    → DeliveryInput
    → Outcome HardenedOutboundResponse
    → WebhookDb
    → Settled × WebhookDb
unfolding fail_with to_sanitized_outbound_failure
conclude_delivery sender now id input (done response) db =
    let body = format_stored_response_body (sender.to_text response.body) response.truncated in
    or_caught
      (record {
        failure_code = none;
        ok = is_ok response.status;
        response_body = body;
        response_status = response.status;
        truncated = some response.truncated;
      })
      (λ db'. fail_with now id input sender.other_failure db')
      (record_webhook_delivery
        (new_delivery now id input (status_of response.status) (some response.status) body) db)
conclude_delivery sender now id input (throws thrown) db =
    fail_with now id input (to_sanitized_outbound_failure sender thrown) db
conclude_delivery sender now id input no_fuel db = (unfinished, db)

abbrev pub request_of : Sender → ℕ → DeliveryInput → HardenedOutboundRequestInput
request_of sender timestamp input =
    let text = sender.stringify input.payload in
    let signature = sign_webhook_payload sender input.secret text timestamp in
    record {
      body = some text;
      follow_redirects = none;
      headers =
          record { key = "Content-Type"; value = "application/json" }
          ∷ record {
            key = "X-SaaSWeave-Signature";
            value = joined "t=" (joined (decimal timestamp) (joined ",v1=" signature));
          }
          ∷ record { key = "X-SaaSWeave-Event"; value = event_text input.payload.event }
          ∷ [];
      max_redirects = none;
      method = "POST";
      sensitive_headers = "x-saasweave-signature" ∷ "x-saasweave-event" ∷ [];
      url = input.url;
    }

-- What is answered, what has been sent and the tables; `meanwhile` is what others write to them
-- during the request, which begins at `start` and ends at `now`.
unfoldable pub deliver_webhook_http :
    Sender
    → Network
    → (start now : ℕ) → String
    → (meanwhile : WebhookDb → WebhookDb) → DeliveryInput
    → WebhookDb
    → (Settled × WebhookDb) × List Hop
unfolding conclude_delivery
deliver_webhook_http sender network start now id meanwhile input db =
    let too_large = fail_with now id input (too_large_failure sender) db in
    let (outcome, sent) =
      hardened_outbound_request sender.platform network (request_of sender (start / 1000) input) in
    let concluded = conclude_delivery sender now id input outcome (meanwhile db) in
    if is_too_large (some (sender.stringify input.payload))
    then (too_large, [])
    else (concluded, sent)
