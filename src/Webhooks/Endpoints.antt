-- ===== src/Webhooks/Endpoints.antt =====
-- The tables of packages/db/src/schema/webhook.schema.ts and the queries of packages/db/src/webhooks.ts
-- on them. Random ids and tokens are arguments.
use saa_sweave.Prelude.{
  ℕ, String, Bool, true, ◌&&◌, Option, none, some, List, [], ◌∷◌, ◌++◌, ltb, if◌then◌else◌, or_else,
  any, keep, map, length, take,
}
use text.Mathlib.Text.{◌==◌ as str_eq}
use saa_sweave.Prelude.Text.{joined}
use saa_sweave.Prelude.Json.{Fields}
use saa_sweave.Outbound.Address.{Platform}
use saa_sweave.Outbound.Hop.{Network, assert_public_webhook_url}
use saa_sweave.Prelude.Sql.{update_where, delete_where, first_where, sort_by_desc}

pub data WebhookEvent : Type 0 where
  member_added member_removed usage_recorded api_key_created api_key_revoked subscription_updated :
      WebhookEvent

abbrev pub event_text : WebhookEvent → String
event_text member_added = "member.added"
event_text member_removed = "member.removed"
event_text usage_recorded = "usage.recorded"
event_text api_key_created = "api_key.created"
event_text api_key_revoked = "api_key.revoked"
event_text subscription_updated = "subscription.updated"

pub record WebhookPayload : Type 0 where
  pub id : String
  pub created_at : String
  pub data_fields : Fields
  pub event : WebhookEvent
  pub organization_id : String

abbrev pub build_webhook_payload :
    (organization_id : String) → WebhookEvent → Fields → (created_at id : String) → WebhookPayload
build_webhook_payload organization_id event data_fields created_at id = record {
  id = id;
  created_at = created_at;
  data_fields = data_fields;
  event = event;
  organization_id = organization_id;
}

pub record WebhookEndpoint : Type 0 where
  pub created_at : ℕ
  pub enabled : Bool
  pub events : List String
  pub id : String
  pub organization_id : String
  pub secret : String
  pub url : String

pub data WebhookDeliveryStatus : Type 0 where
  is_delivered is_failed : WebhookDeliveryStatus

pub record WebhookDelivery : Type 0 where
  pub attempt : String
  pub created_at : ℕ
  pub endpoint_id : String
  pub event_type : String
  pub id : String
  pub payload : WebhookPayload
  pub response_body : Option String
  pub response_status : Option String
  pub status : WebhookDeliveryStatus

pub record WebhookDb : Type 0 where
  pub webhook_endpoint : List WebhookEndpoint
  pub webhook_delivery : List WebhookDelivery

pub record WebhookEndpointSummary : Type 0 where
  pub id : String
  pub url : String
  pub events : List String
  pub enabled : Bool
  pub created_at : ℕ

pub record WebhookDeliveryEntry : Type 0 where
  pub id : String
  pub event_type : String
  pub status : WebhookDeliveryStatus
  pub response_status : Option String
  pub created_at : ℕ

pub record WebhookTarget : Type 0 where
  pub endpoint_id : String
  pub secret : String
  pub url : String

unfoldable pub list_webhook_endpoints : String → WebhookDb → List WebhookEndpointSummary
list_webhook_endpoints organization_id db =
    map
      (λ row. record {
        id = row.id;
        url = row.url;
        events = row.events;
        enabled = row.enabled;
        created_at = row.created_at;
      })
      (sort_by_desc (λ row. row.created_at)
        (keep (λ row. str_eq row.organization_id organization_id) db.webhook_endpoint))

-- The endpoint with the id, of the organization.
abbrev pub is_endpoint : String → String → WebhookEndpoint → Bool
is_endpoint organization_id id row = str_eq row.id id && str_eq row.organization_id organization_id

-- The id and the secret.
unfoldable pub insert_webhook_endpoint :
    (now : ℕ) (id token organization_id url : String)
    → List String
    → WebhookDb
    → (String × String) × WebhookDb
unfolding joined
insert_webhook_endpoint now id token organization_id url events db =
    let secret = joined "whsec_" token in
    let row : WebhookEndpoint = record {
      created_at = now;
      enabled = true;
      events = events;
      id = id;
      organization_id = organization_id;
      secret = secret;
      url = url;
    } in
    ((id, secret), record db { webhook_endpoint = db.webhook_endpoint ++ row ∷ [] })

-- `none` means that it throws.
unfoldable pub create_webhook_endpoint :
    Platform
    → Network
    → (now : ℕ) (id token organization_id url : String) → List String
    → WebhookDb
    → Option ((String × String) × WebhookDb)
unfolding insert_webhook_endpoint
create_webhook_endpoint platform network now id token organization_id url events db =
    let created = insert_webhook_endpoint now id token organization_id url events db in
    if assert_public_webhook_url platform network url then some created else none

unfoldable pub set_webhook_endpoint_enabled : String → String → Bool → WebhookDb → Bool × WebhookDb
set_webhook_endpoint_enabled organization_id id enabled db =
    let rows = keep (is_endpoint organization_id id) db.webhook_endpoint in
    (
      ltb 0 (length rows),
      record db {
        webhook_endpoint =
            update_where (is_endpoint organization_id id) (λ row. record row { enabled = enabled })
              db.webhook_endpoint;
      },
    )

-- The deliveries of a deleted endpoint are deleted with it.
unfoldable pub delete_webhook_endpoint : String → String → WebhookDb → Bool × WebhookDb
delete_webhook_endpoint organization_id id db =
    let rows = keep (is_endpoint organization_id id) db.webhook_endpoint in
    (
      ltb 0 (length rows),
      record {
        webhook_endpoint = delete_where (is_endpoint organization_id id) db.webhook_endpoint;
        webhook_delivery =
            delete_where (λ d. any (λ row. str_eq row.id d.endpoint_id) rows) db.webhook_delivery;
      },
    )

unfoldable pub list_webhook_deliveries :
    (organization_id endpoint_id : String) → Option ℕ → WebhookDb → List WebhookDeliveryEntry
list_webhook_deliveries organization_id endpoint_id limit db =
    map
      (λ row. record {
        id = row.id;
        event_type = row.event_type;
        status = row.status;
        response_status = row.response_status;
        created_at = row.created_at;
      })
      (take (or_else limit 20) (
        sort_by_desc (λ row. row.created_at)
          (keep
            (λ d.
              str_eq d.endpoint_id endpoint_id
              && any (is_endpoint organization_id d.endpoint_id) db.webhook_endpoint)
            db.webhook_delivery)))

-- The endpoint is enabled, of the organization and subscribed to the event.
abbrev pub is_target : String → WebhookEvent → WebhookEndpoint → Bool
is_target organization_id event row =
    (str_eq row.organization_id organization_id && row.enabled)
    && any (λ e. str_eq e (event_text event)) row.events

abbrev pub target_of : WebhookEndpoint → WebhookTarget
target_of row = record { endpoint_id = row.id; secret = row.secret; url = row.url }

unfoldable pub get_enabled_webhook_targets : String → WebhookEvent → WebhookDb → List WebhookTarget
get_enabled_webhook_targets organization_id event db =
    map target_of (keep (is_target organization_id event) db.webhook_endpoint)

unfoldable pub get_webhook_endpoint : String → String → WebhookDb → Option WebhookEndpoint
get_webhook_endpoint organization_id id db =
    first_where (is_endpoint organization_id id) db.webhook_endpoint
