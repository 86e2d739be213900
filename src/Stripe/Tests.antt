-- ===== src/Stripe/Tests.antt =====
-- Deliveries of small events, and the theorems on webhooks at concrete inputs.
use saa_sweave.Prelude.{String, ◌≡◌, refl, false, Option, none, some, [], ◌∷◌, arith}
use saa_sweave.Prelude.Text.{before}
use saa_sweave.Stripe.{
  Organization, Store, StripeEvent, EventData, Subscription, applied, apply_ordered,
  apply_stripe_webhook_event, extract_stripe_customer_id, deliver,
}
use saa_sweave.Stripe.Order.{Applies, SameButClaims, not_newer_is_skipped, late_delivery_is_skipped}
use saa_sweave.Stripe.Loss.{replay_is_ignored, failed_event_is_lost}

abbrev organization : Organization
organization = record {
  id = "org";
  cancel_at_period_end = none;
  current_period_end = none;
  last_stripe_event_at = some 5000;
  plan_id = none;
  stripe_customer_id = some "cus";
  stripe_subscription_id = none;
  subscription_status = none;
}

abbrev store : Store
store = record {
  organizations = organization ∷ [];
  members = record { organization_id = "org"; role = "owner"; user_id = "u" } ∷ [];
  users = record { id = "u"; email = "a@b.c"; name = "Ada Lovelace" } ∷ [];
  processed_events = [];
  audits = [];
}

abbrev subscription : Subscription
subscription = record {
  id = "sub";
  cancel_at_period_end = false;
  current_period_end = some 100;
  customer = "cus";
  metadata_organization_id = none;
  metadata_plan_id = some "pro";
  status = "active";
}

abbrev created_event : StripeEvent
created_event = record {
  id = "e1";
  created = 9;
  content = EventData.subscription_created subscription;
}

-- Made in the same second as the event before, and delivered after it.
abbrev changed_event : StripeEvent
changed_event = record {
  id = "e2";
  created = 9;
  content = EventData.subscription_changed (record subscription { status = "past_due" });
}

abbrev old_event : StripeEvent
old_event = record { id = "e0"; created = 5; content = EventData.subscription_changed subscription }

abbrev catalog : Option String → Option String
catalog plan = some "Pro"

abbrev broken_catalog : Option String → Option String
broken_catalog plan = none

older_event_skipped :
    let (out, s') = apply_ordered catalog "/billing" old_event store in
    (out ≡ applied none) × SameButClaims store s'
unfolding extract_stripe_customer_id
older_event_skipped =
    not_newer_is_skipped catalog "/billing" old_event "cus" 5000 store refl refl (omega arith)

created_event-Applies : Applies catalog "/billing" created_event "cus" store
unfolding extract_stripe_customer_id apply_stripe_webhook_event before
created_event-Applies = record {
  is_new = refl;
  customer_of = refl;
  newer = refl;
  email = some (record {
    manage_url = "/billing";
    organization_id = "org";
    owner_email = "a@b.c";
    owner_name = "Ada";
    plan_id = some "pro";
    plan_name = "Pro";
  });
  ends = refl;
}

late_delivery_is_skipped_example :
    let s' = (apply_ordered catalog "/billing" created_event store).1 in
    let (out, s2) = apply_ordered catalog "/billing" changed_event s' in
    (out ≡ applied none) × SameButClaims s' s2
unfolding extract_stripe_customer_id apply_ordered
late_delivery_is_skipped_example =
    late_delivery_is_skipped catalog "/billing" created_event changed_event "cus" "org" store
      created_event-Applies refl refl (omega arith)

replay_is_ignored_example :
    let s' = deliver catalog "/billing" (created_event ∷ changed_event ∷ []) store in
    apply_ordered broken_catalog "/billing" created_event s' ≡ (applied none, s')
replay_is_ignored_example =
    replay_is_ignored catalog broken_catalog "/billing" created_event (changed_event ∷ []) store

failed_event_is_lost_example :
    let s' = (apply_ordered broken_catalog "/billing" created_event store).1 in
    (s'.organizations ≡ store.organizations)
    × (apply_ordered catalog "/billing" created_event s' ≡ (applied none, s'))
unfolding extract_stripe_customer_id apply_ordered
failed_event_is_lost_example =
    failed_event_is_lost broken_catalog "/billing" catalog created_event "cus" store refl refl refl
