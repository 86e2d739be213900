-- ===== src/Webhooks/Tests.antt =====
-- Tests of the webhooks on the platform and network of the tests of Outbound, and the theorems at
-- concrete inputs.
use saa_sweave.Prelude.{Bool, true, false, some, List, [], ◌∷◌, ◌++◌, ◌≡◌, refl, map, All}
use text.Mathlib.Text.{◌==◌ as str_eq}
use saa_sweave.Prelude.Json
use saa_sweave.Prelude.Text.{joined}
use saa_sweave.Outbound.Hop.{network_error}
use saa_sweave.Outbound.Tests.{platform, network}
use saa_sweave.Webhooks.Endpoints.{
  usage_recorded, WebhookPayload, WebhookEndpoint, WebhookDb, get_webhook_endpoint,
  get_enabled_webhook_targets, set_webhook_endpoint_enabled,
}
use saa_sweave.Webhooks.Deliver.{Sender, sign_webhook_payload}
use saa_sweave.Webhooks.Dispatch.{
  WebhookDeliveryJobData, dispatch_org_webhook, process_queued_webhook_delivery,
}
use saa_sweave.Webhooks.Recorded.{IsRecorded, attempt-IsRecorded}
use saa_sweave.Webhooks.Fanout.{IsSubscriber, Picks, delivered_to, dispatch_org_webhook-subscribers}
use saa_sweave.Webhooks.Disabled.{disabled_endpoint_is_delivered}

abbrev sender : Sender
sender = record {
  platform = platform;
  hmac_sha256 = λ secret text. joined secret text;
  stringify = λ payload. "{}";
  to_text = λ bytes. "ok";
  sanitize_outbound_failure_message = λ message. message;
  other_failure = (network_error, "network_error");
}

abbrev payload : WebhookPayload
payload = record {
  id = "e1";
  created_at = "2026-01-01T00:00:00.000Z";
  data_fields = Json.end;
  event = usage_recorded;
  organization_id = "o1";
}

abbrev hook : WebhookEndpoint
hook = record {
  created_at = 1;
  enabled = true;
  events = "usage.recorded" ∷ [];
  id = "w1";
  organization_id = "o1";
  secret = "whsec_1";
  url = "https://hook.dev/a";
}

-- A second endpoint that is disabled, and a third one that is subscribed to nothing.
abbrev hooks : WebhookDb
hooks = record {
  webhook_endpoint =
      hook
      ∷ record hook { id = "w2"; enabled = false }
      ∷ record hook { id = "w3"; events = [] }
      ∷ [];
  webhook_delivery = [];
}

abbrev job : WebhookDeliveryJobData
job = record { endpoint_id = "w1"; payload = payload; url = "https://hook.dev/a" }

signature : sign_webhook_payload sender "whsec_1" "{}" 7 ≡ "whsec_17.{}"
unfolding sign_webhook_payload joined
signature = refl

hook_is_found : get_webhook_endpoint "o1" "w1" hooks ≡ some hook
unfolding get_webhook_endpoint
hook_is_found = refl

attempt-IsRecorded_example :
    IsRecorded "w1" hooks
      (process_queued_webhook_delivery sender network 5000 6000 "d1" (λ db. db) job hooks).0
attempt-IsRecorded_example =
    attempt-IsRecorded sender network 5000 6000 "d1" (λ db. db) job hook hooks hook_is_found refl
      refl

dispatch_org_webhook-subscribers_example :
    let dispatch : Bool → List WebhookDeliveryJobData × WebhookDb = λ redis_enabled.
      dispatch_org_webhook sender
        (λ id. network)
        (λ id. joined "d" id)
        5000
        6000
        redis_enabled
        "o1"
        usage_recorded
        Json.end
        "2026-01-01T00:00:00.000Z"
        "e1"
        hooks in
    Picks
      (IsSubscriber "o1" usage_recorded)
      hooks.webhook_endpoint
      (map (λ j. j.endpoint_id) (dispatch true).0)
    × ((dispatch true).1 ≡ hooks)
    × ((dispatch false).0 ≡ [])
    × (delivered_to (dispatch false).1
        ≡ delivered_to hooks ++ map (λ j. j.endpoint_id) (dispatch true).0)
dispatch_org_webhook-subscribers_example =
    dispatch_org_webhook-subscribers sender (λ id. network) (λ id. joined "d" id) 5000 6000 "o1"
      usage_recorded Json.end "2026-01-01T00:00:00.000Z" "e1" hooks

one_subscriber :
    map (λ t. t.endpoint_id) (get_enabled_webhook_targets "o1" usage_recorded hooks) ≡ "w1" ∷ []
unfolding get_enabled_webhook_targets
one_subscriber = refl

disabled_endpoint_is_delivered_example :
    let db' = (set_webhook_endpoint_enabled "o1" "w1" false hooks).1 in
    All
      (λ t. str_eq t.endpoint_id "w1" ≡ false)
      (get_enabled_webhook_targets "o1" usage_recorded db')
    × ((process_queued_webhook_delivery sender network 5000 6000 "d1" (λ db. db) job db').1
        ≡ (process_queued_webhook_delivery sender network 5000 6000 "d1" (λ db. db) job hooks).1)
disabled_endpoint_is_delivered_example =
    disabled_endpoint_is_delivered sender network 5000 6000 "d1" job hooks usage_recorded (λ db. db)
      (λ db. db)
