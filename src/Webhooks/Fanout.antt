-- ===== src/Webhooks/Fanout.antt =====
-- Which endpoints an event of packages/jobs/src/webhook-dispatch.ts reaches, on the queue or in the
-- process.
use saa_sweave.Prelude.{
  ℕ, String, Bool, true, false, List, [], ◌∷◌, ◌++◌, ◌≡◌, refl, sym, ◌∙◌, ap, arith, keep, map, All,
  any, subst, inl, inr, Bool-cases, eq_iff,
}
use text.Mathlib.Text.{◌==◌ as str_eq}
use text.Mathlib.TextPositions.{eq_refl}
use mathlib.Core.List.{append-nil, Memᴰ}
use saa_sweave.Prelude.Sql.{All_of_mem, any_of_mem}
use saa_sweave.Prelude.Json.{Fields}
use saa_sweave.Outbound.Hop.{Network}
use saa_sweave.Webhooks.Endpoints.{
  WebhookEvent, WebhookPayload, WebhookEndpoint, WebhookTarget, WebhookDb, is_target, event_text,
  target_of, get_enabled_webhook_targets, build_webhook_payload,
}
use saa_sweave.Webhooks.Deliver.{Sender}
use saa_sweave.Webhooks.Dispatch.{
  WebhookDeliveryJobData, deliver_all, dispatch_org_webhook, input_of, job_of,
}
use saa_sweave.Webhooks.Recorded.{has_endpoint, deliver_alone-IsRecorded}

abbrev pub delivered_to : WebhookDb → List String
delivered_to db = map (λ d. d.endpoint_id) db.webhook_delivery

-- The endpoint is one of the organization, is enabled and lists the event.
pub record IsSubscriber (organization_id : String) (event : WebhookEvent) (row : WebhookEndpoint)
    : Type 0 where
  pub of_organization : row.organization_id ≡ organization_id
  pub is_enabled : row.enabled ≡ true
  pub is_subscribed : Memᴰ (event_text event) row.events

-- The ids are those of the rows with the property, in their order.
pub data Picks (P : WebhookEndpoint → Type 0) : List WebhookEndpoint → List String → Type 0 where
  picked_all : Picks P [] []
  pick :
      {row : WebhookEndpoint} {rows : List WebhookEndpoint} {ids : List String}
      → P row
      → Picks P rows ids
      → Picks P (row ∷ rows) (row.id ∷ ids)
  skip :
      {row : WebhookEndpoint} {rows : List WebhookEndpoint} {ids : List String}
      → ¬ P row
      → Picks P rows ids
      → Picks P (row ∷ rows) ids

mem_of_any : (text : String) (xs : List String) → any (λ e. str_eq e text) xs ≡ true → Memᴰ text xs
mem_of_any text [] h = cc
mem_of_any text (x ∷ xs) h = elim (Bool-cases (str_eq x text)) [
  | inl e ↦ Memᴰ.head (sym ((eq_iff x text).0 e))
  | inr e ↦ Memᴰ.tail (mem_of_any text xs (rw e at h))
]

module _ (organization_id : String) (event : WebhookEvent) where
  target-IsSubscriber :
      (row : WebhookEndpoint)
      → is_target organization_id event row ≡ true
      → IsSubscriber organization_id event row
  target-IsSubscriber row h = record {
    of_organization = (eq_iff row.organization_id organization_id).0 (ground (arith, h));
    is_enabled = ground (arith, h);
    is_subscribed = mem_of_any (event_text event) row.events (ground (arith, h));
  }

  IsSubscriber-target :
      (row : WebhookEndpoint)
      → IsSubscriber organization_id event row
      → is_target organization_id event row ≡ true
  IsSubscriber-target row s =
      let of = (eq_iff row.organization_id organization_id).1 s.of_organization in
      let lists =
        any_of_mem (λ e. str_eq e (event_text event)) s.is_subscribed
          (eq_refl (event_text event)) in
      ground (arith, of, s.is_enabled, lists)

  targets-Picks :
      (rows : List WebhookEndpoint)
      → Picks
          (IsSubscriber organization_id event)
          rows
          (map (λ row. row.id) (keep (is_target organization_id event) rows))
  targets-Picks [] = picked_all
  targets-Picks (row ∷ rows) = elim (Bool-cases (is_target organization_id event row)) [
    | inl e ↦ rw e (pick (target-IsSubscriber row e) (targets-Picks rows))
    | inr e ↦ rw e (
        skip (λ s. let yes = IsSubscriber-target row s in absurd (ground (arith, yes, e)))
          (targets-Picks rows))
  ]

abbrev AreKnown : WebhookDb → List WebhookTarget → Type 0
AreKnown db = All (λ t. has_endpoint t.endpoint_id db ≡ true)

map-target_of :
    (rows : List WebhookEndpoint)
    → map (λ t. t.endpoint_id) (map target_of rows) ≡ map (λ row. row.id) rows
map-target_of [] = refl
map-target_of (row ∷ rows) = rw (map-target_of rows) refl

map-job_of :
    (payload : WebhookPayload) (rows : List WebhookEndpoint)
    → map (λ job. job.endpoint_id) (map (job_of payload) (map target_of rows))
      ≡ map (λ row. row.id) rows
map-job_of payload [] = refl
map-job_of payload (row ∷ rows) = rw (map-job_of payload rows) refl

map-append_last :
    {A B : Type 0} (f : A → B) (xs : List A) (x : A) (ys : List B)
    → map f (xs ++ x ∷ []) ++ ys ≡ map f xs ++ f x ∷ ys
map-append_last f [] x ys = refl
map-append_last f (y ∷ xs) x ys = rw (map-append_last f xs x ys) refl

known_targets :
    (db : WebhookDb) (p : WebhookEndpoint → Bool) (rows : List WebhookEndpoint)
    → All (λ row. has_endpoint row.id db ≡ true) rows
    → AreKnown db (map target_of (keep p rows))
known_targets db p [] h = tt
known_targets db p (row ∷ rows) h = ground (arith, h.0, known_targets db p rows h.1)

are_known : (db : WebhookDb) → All (λ row. has_endpoint row.id db ≡ true) db.webhook_endpoint
are_known db =
    All_of_mem (λ row. has_endpoint row.id db ≡ true) db.webhook_endpoint
      (λ row m. any_of_mem (λ r. str_eq r.id row.id) m (eq_refl row.id))

module _ (sender : Sender) (network_of : String → Network) (id_of : String → String)
    (start now : ℕ) where
  deliver_all-targets :
      (payload : WebhookPayload) (targets : List WebhookTarget) (db : WebhookDb)
      → AreKnown db targets
      → delivered_to (deliver_all sender network_of id_of start now payload targets db)
        ≡ delivered_to db ++ map (λ t. t.endpoint_id) targets
  unfolding deliver_all
  deliver_all-targets payload [] db known = sym (append-nil (delivered_to db))
  deliver_all-targets payload (t ∷ ts) db known =
      let (d, stored, to, _) =
        deliver_alone-IsRecorded sender (network_of t.endpoint_id) start now (id_of t.endpoint_id)
          (input_of payload t) db known.0 in
      let db' = record db { webhook_delivery = db.webhook_delivery ++ d ∷ [] } in
      ap (λ x. delivered_to (deliver_all sender network_of id_of start now payload ts x)) stored
      ∙ deliver_all-targets payload ts db' known.1
      ∙ map-append_last (λ e. e.endpoint_id) db.webhook_delivery d (map (λ t'. t'.endpoint_id) ts)
      ∙ ap (λ i. delivered_to db ++ i ∷ map (λ t'. t'.endpoint_id) ts) to

  -- An event reaches exactly the endpoints that are of its organization, are enabled and list the
  -- event, in their order: with Redis by one job each and no row, without Redis by no job and one
  -- new row of a delivery each, whatever the network does.
  pub dispatch_org_webhook-subscribers :
      (organization_id : String) (event : WebhookEvent) (fields : Fields)
      (created_at payload_id : String) (db : WebhookDb)
      → let dispatch : Bool → List WebhookDeliveryJobData × WebhookDb = λ redis_enabled.
        dispatch_org_webhook sender network_of id_of start now redis_enabled organization_id event
          fields created_at payload_id db in
        Picks
          (IsSubscriber organization_id event)
          db.webhook_endpoint
          (map (λ job. job.endpoint_id) (dispatch true).0)
        × ((dispatch true).1 ≡ db)
        × ((dispatch false).0 ≡ [])
        × (delivered_to (dispatch false).1
            ≡ delivered_to db ++ map (λ job. job.endpoint_id) (dispatch true).0)
  unfolding dispatch_org_webhook get_enabled_webhook_targets
  dispatch_org_webhook-subscribers organization_id event fields created_at payload_id db =
      let rows = keep (is_target organization_id event) db.webhook_endpoint in
      let payload = build_webhook_payload organization_id event fields created_at payload_id in
      (
        subst (Picks (IsSubscriber organization_id event) db.webhook_endpoint)
            (sym (map-job_of payload rows))
            (targets-Picks organization_id event db.webhook_endpoint),
        refl,
        refl,
        deliver_all-targets payload (map target_of rows) db (
              known_targets db (is_target organization_id event) db.webhook_endpoint (are_known db))
            ∙ ap (λ ids. delivered_to db ++ ids)
                (map-target_of rows ∙ sym (map-job_of payload rows)),
      )
