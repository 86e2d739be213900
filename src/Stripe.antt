-- ===== src/Stripe.antt =====
-- Stripe webhooks: packages/app/src/stripe/webhook-apply.ts and webhook-process.ts, with the
-- ordering guard of packages/db/src/stripe-webhook-ordering.ts and stripe-webhook.ts. The name of a
-- plan comes from the plan catalog, a parameter; `none` is a lookup that throws. Events are applied
-- one at a time, as the advisory lock makes them for one customer.
pub mod Order
pub mod Loss
mod Tests
mod Events
pub use Events.*
use saa_sweave.Prelude.{
  ℕ, ◌*◌, String, Bool, true, false, ◌&&◌, Option, none, some, List, [], ◌∷◌, leb, ◌==◌,
  if◌then◌else◌, or_else, any,
}
use text.Mathlib.Text.{◌==◌ as str_eq}
use saa_sweave.Prelude.Text.{before, is_empty}
use saa_sweave.Prelude.Sql.{update_where, first_where}

-- An absent or empty text is falsy.
abbrev pub truthy : Option String → Option String
truthy none = none
truthy (some s) = if is_empty s then none else some s

abbrev pub has_text : String → Option String → Bool
has_text x none = false
has_text x (some y) = str_eq y x

unfoldable pub extract_stripe_customer_id : EventData → Option String
extract_stripe_customer_id (subscription_created s) = some s.customer
extract_stripe_customer_id (subscription_changed s) = some s.customer
extract_stripe_customer_id (subscription_deleted s) = some s.customer
extract_stripe_customer_id (invoice_payment_failed i) = i.customer
extract_stripe_customer_id (invoice_was_paid i) = i.customer
extract_stripe_customer_id other = none

-- The id under which an event is claimed.
abbrev pub is_claimed : String → Store → Bool
is_claimed event_id s = any (λ k. str_eq k event_id) s.processed_events

-- INSERT … ON CONFLICT DO NOTHING: whether a row was inserted. The prefix `stripe:` of the key is the
-- same for every event.
unfoldable pub claim_stripe_webhook_event : String → Store → Bool × Store
claim_stripe_webhook_event event_id s =
    if is_claimed event_id s
    then (false, s)
    else (true, record s { processed_events = event_id ∷ s.processed_events })

abbrev find_user : String → List User → Option User
find_user id users = first_where (λ u. str_eq u.id id) users

abbrev or_later {ℓ} : {A : Type ℓ} → Option A → Option A → Option A
or_later none later = later
or_later (some a) later = some a

-- The join of members with users, up to its first row.
unfoldable pub get_org_owner : String → List Member → List User → Option User
get_org_owner organization_id [] users = none
get_org_owner organization_id (m ∷ rest) users =
    let later = get_org_owner organization_id rest users in
    if str_eq m.organization_id organization_id && str_eq m.role "owner"
    then or_later (find_user m.user_id users) later
    else later

abbrev pub is_org : String → Organization → Bool
is_org id o = str_eq o.id id

abbrev pub is_customer : String → Organization → Bool
is_customer customer o = has_text customer o.stripe_customer_id

-- A period end of 0 is falsy.
abbrev period_end : Option ℕ → Option ℕ
period_end none = none
period_end (some t) = if t == 0 then none else some (t * 1000)

abbrev pub subscribed : Subscription → Organization → Organization
subscribed sub o = record o {
  cancel_at_period_end = some sub.cancel_at_period_end;
  current_period_end = period_end sub.current_period_end;
  plan_id = sub.metadata_plan_id;
  stripe_customer_id = some sub.customer;
  stripe_subscription_id = some sub.id;
  subscription_status = some sub.status;
}

abbrev org_id_of : Option Organization → Option String
org_id_of none = none
org_id_of (some o) = some o.id

abbrev pub org_of_customer : String → Store → Option String
org_of_customer customer s = org_id_of (first_where (is_customer customer) s.organizations)

abbrev pub record_audit : AuditAction → Option String → String → Store → Store
record_audit action none label s = s
record_audit action (some org) label s = record s {
  audits = record { action = action; organization_id = org; target_label = label } ∷ s.audits;
}

abbrev pub set_subscription : (Organization → Bool) → Subscription → Store → Store
set_subscription which sub s = record s {
  organizations = update_where which (subscribed sub) s.organizations;
}

-- The organization to audit is the one named by the metadata, else the first with the customer.
abbrev pub subscription_target : Option String → Subscription → Store → Option String × Store
subscription_target none sub s =
    let s' = set_subscription (is_customer sub.customer) sub s in
    (org_of_customer sub.customer s', s')
subscription_target (some org) sub s = (some org, set_subscription (is_org org) sub s)

unfoldable pub apply_subscription : Subscription → Store → Option String × Store
apply_subscription sub s =
    let (target, s') = subscription_target (truthy sub.metadata_organization_id) sub s in
    (target, record_audit subscription_updated target (or_else sub.metadata_plan_id sub.status) s')

-- `orgId`, or the organization of the customer if there is one.
abbrev pub invoice_target : Option String → Option String → Store → Option String
invoice_target (some org) customer s = some org
invoice_target none none s = none
invoice_target none (some customer) s = org_of_customer customer s

abbrev first_name : String → String
first_name name = let first = before b' ' name in if is_empty first then name else first

abbrev pub is_stale_stripe_event : ℕ → Option ℕ → Bool
is_stale_stripe_event created none = false
is_stale_stripe_event created (some last) = leb (created * 1000) last

abbrev last_of : Option Organization → Option ℕ
last_of none = none
last_of (some o) = o.last_stripe_event_at

abbrev pub get_last_stripe_event_at : String → Store → Option ℕ
get_last_stripe_event_at customer s = last_of (first_where (is_customer customer) s.organizations)

abbrev pub set_last_stripe_event_at : String → ℕ → Store → Store
set_last_stripe_event_at customer at s = record s {
  organizations =
      update_where (is_customer customer) (λ o. record o { last_stripe_event_at = some at })
        s.organizations;
}

module _ (plan_name : Option String → Option String) (manage_url : String) where
  abbrev intent : String → Option String → User → Option String → Outcome
  intent org plan owner none = throws
  intent org plan owner (some name) = applied (
      some (record {
        manage_url = manage_url;
        organization_id = org;
        owner_email = owner.email;
        owner_name = first_name owner.name;
        plan_id = plan;
        plan_name = name;
      }))

  abbrev email_to : String → Option String → Option User → Outcome
  email_to org plan none = applied none
  email_to org plan (some owner) = intent org plan owner (plan_name plan)

  -- The mail that a created subscription asks for.
  abbrev created_email : Subscription → Option String → Store → Outcome
  created_email sub none s = applied none
  created_email sub (some org) s =
      if is_empty org
      then applied none
      else email_to org sub.metadata_plan_id (get_org_owner org s.members s.users)

  unfoldable pub apply_stripe_webhook_event : EventData → Store → Outcome × Store
  unfolding apply_subscription get_org_owner
  apply_stripe_webhook_event (subscription_created sub) s =
      let (target, s') = apply_subscription sub s in (created_email sub target s', s')
  apply_stripe_webhook_event (subscription_changed sub) s =
      (applied none, (apply_subscription sub s).1)
  apply_stripe_webhook_event (subscription_deleted sub) s =
      (applied none, (apply_subscription sub s).1)
  apply_stripe_webhook_event (invoice_payment_failed i) s = (
    applied none,
    record_audit payment_failed
        (invoice_target (truthy i.metadata_organization_id) (truthy i.customer) s) i.id s,
  )
  apply_stripe_webhook_event (invoice_was_paid i) s =
      (applied none, record_audit invoice_paid (invoice_target none (truthy i.customer) s) i.id s)
  apply_stripe_webhook_event other s = (applied none, s)

  -- A throw rolls the transaction back; the audit trail is written outside of it.
  abbrev pub commit : String → ℕ → Store → Outcome × Store → Outcome × Store
  commit customer at before_tx (applied r, s) = (applied r, set_last_stripe_event_at customer at s)
  commit customer at before_tx (throws, s) = (throws, record before_tx { audits = s.audits })

  abbrev pub ordered : StripeEvent → String → Store → Outcome × Store
  ordered e customer s =
      if is_stale_stripe_event e.created (get_last_stripe_event_at customer s)
      then (applied none, s)
      else commit customer (e.created * 1000) s (apply_stripe_webhook_event e.content s)

  abbrev pub by_customer : StripeEvent → Option String → Store → Outcome × Store
  by_customer e none s = apply_stripe_webhook_event e.content s
  by_customer e (some customer) s = ordered e customer s

  -- `applyOrderedStripeWebhookEvent`
  unfoldable pub apply_ordered : StripeEvent → Store → Outcome × Store
  unfolding claim_stripe_webhook_event extract_stripe_customer_id apply_stripe_webhook_event
  apply_ordered e s =
      let (is_new, s') = claim_stripe_webhook_event e.id s in
      if is_new
      then by_customer e (truthy (extract_stripe_customer_id e.content)) s'
      else (applied none, s')

  -- Events as they are delivered, whatever each one ends with.
  pub deliver : List StripeEvent → Store → Store
  deliver [] s = s
  deliver (e ∷ rest) s = deliver rest (apply_ordered e s).1
