-- ===== src/Stripe/Loss.antt =====
-- The claim of an event id: replays, and an event whose application throws.
use saa_sweave.Prelude.{
  ℕ, ◌*◌, String, ◌≡◌, refl, ◌∙◌, inl, inr, Bool, true, false, Option, none, some, List, [], ◌∷◌,
  or_else, arith, Bool-cases, if◌then◌else◌, any,
}
use text.Mathlib.Text.{◌==◌ as str_eq}
use text.Mathlib.TextPositions.{eq_refl}
use saa_sweave.Stripe.{
  Store, StripeEvent, EventData, subscription_created, subscription_changed, subscription_deleted,
  invoice_payment_failed, invoice_was_paid, other, Subscription, AuditAction, record_audit,
  subscription_target, Outcome, applied, throws, truthy, extract_stripe_customer_id, is_claimed,
  apply_subscription, apply_stripe_webhook_event, is_stale_stripe_event, get_last_stripe_event_at,
  commit, ordered, invoice_target, by_customer, apply_ordered, deliver,
}

audit_claims :
    (action : AuditAction) (target : Option String) (label : String) (s : Store)
    → (record_audit action target label s).processed_events ≡ s.processed_events
audit_claims action none label s = refl
audit_claims action (some org) label s = refl

target_claims :
    (org : Option String) (sub : Subscription) (s : Store)
    → (subscription_target org sub s).1.processed_events ≡ s.processed_events
target_claims none sub s = refl
target_claims (some org) sub s = refl

subscription_claims :
    (sub : Subscription) (s : Store)
    → (apply_subscription sub s).1.processed_events ≡ s.processed_events
unfolding apply_subscription
subscription_claims sub s =
    let (target, s') = subscription_target (truthy sub.metadata_organization_id) sub s in
    audit_claims AuditAction.subscription_updated target (or_else sub.metadata_plan_id sub.status)
      s'
    ∙ target_claims (truthy sub.metadata_organization_id) sub s

-- Whether the event id is among the claims.
abbrev pub has_claim : String → List String → Bool
has_claim id claims = any (λ k. str_eq k id) claims

module _ (plan_name : Option String → Option String) (manage_url : String) where
  apply_claims :
      (content : EventData) (s : Store)
      → (apply_stripe_webhook_event plan_name manage_url content s).1.processed_events
        ≡ s.processed_events
  unfolding apply_stripe_webhook_event
  apply_claims (subscription_created sub) s = subscription_claims sub s
  apply_claims (subscription_changed sub) s = subscription_claims sub s
  apply_claims (subscription_deleted sub) s = subscription_claims sub s
  apply_claims (invoice_payment_failed i) s =
      audit_claims AuditAction.payment_failed
        (invoice_target (truthy i.metadata_organization_id) (truthy i.customer) s) i.id s
  apply_claims (invoice_was_paid i) s =
      audit_claims AuditAction.invoice_paid (invoice_target none (truthy i.customer) s) i.id s
  apply_claims other s = refl

  commit_claims :
      (customer : String) (at : ℕ) (before_tx : Store) (out : Outcome × Store)
      → out.1.processed_events ≡ before_tx.processed_events
      → (commit plan_name manage_url customer at before_tx out).1.processed_events
        ≡ before_tx.processed_events
  commit_claims customer at before_tx (applied r, s) h = h
  commit_claims customer at before_tx (throws, s) h = refl

  by_customer_claims :
      (e : StripeEvent) (customer : Option String) (s : Store)
      → (by_customer plan_name manage_url e customer s).1.processed_events ≡ s.processed_events
  by_customer_claims e none s = apply_claims e.content s
  by_customer_claims e (some customer) s =
      elim (Bool-cases (is_stale_stripe_event e.created (get_last_stripe_event_at customer s))) [
        | inl old ↦ rw old refl
        | inr new ↦ rw new (
            commit_claims customer (e.created * 1000) s
              (apply_stripe_webhook_event plan_name manage_url e.content s)
              (apply_claims e.content s))
      ]

  -- The claims after an event: its id, and all the earlier ones.
  ordered_claims :
      (e : StripeEvent) (s : Store)
      → (apply_ordered plan_name manage_url e s).1.processed_events
        ≡ (if is_claimed e.id s then s.processed_events else e.id ∷ s.processed_events)
  unfolding apply_ordered
  ordered_claims e s = elim (Bool-cases (is_claimed e.id s)) [
    | inl seen ↦ rw seen refl
    | inr fresh ↦ rw fresh (
        by_customer_claims e (truthy (extract_stripe_customer_id e.content))
          (record s { processed_events = e.id ∷ s.processed_events }))
  ]

  claim_stays :
      (id : String) (e : StripeEvent) (s : Store)
      → is_claimed id s ≡ true
      → is_claimed id (apply_ordered plan_name manage_url e s).1 ≡ true
  claim_stays id e s h = rw (ordered_claims e s) (ground (arith, h))

  claims_stay :
      (id : String) (events : List StripeEvent) (s : Store)
      → is_claimed id s ≡ true
      → is_claimed id (deliver plan_name manage_url events s) ≡ true
  unfolding deliver
  claims_stay id [] s h = h
  claims_stay id (e ∷ rest) s h =
      claims_stay id rest (apply_ordered plan_name manage_url e s).1 (claim_stays id e s h)

  event_is_claimed :
      (e : StripeEvent) (s : Store)
      → is_claimed e.id (apply_ordered plan_name manage_url e s).1 ≡ true
  event_is_claimed e s = rw (ordered_claims e s) (ground (arith, eq_refl e.id))

claimed_is_ignored :
    (plan_name : Option String → Option String) (manage_url : String) (e : StripeEvent) (s : Store)
    → is_claimed e.id s ≡ true
    → apply_ordered plan_name manage_url e s ≡ (applied none, s)
unfolding apply_ordered
claimed_is_ignored plan_name manage_url e s h = rw h refl

-- Once an event has been delivered, a replay of it after any further events, with whatever plan
-- catalog, asks for nothing and changes nothing.
pub replay_is_ignored :
    (plan_name plan_name' : Option String → Option String) (manage_url : String) (e : StripeEvent)
    (events : List StripeEvent) (s : Store)
    → let s' = deliver plan_name manage_url (e ∷ events) s in
      apply_ordered plan_name' manage_url e s' ≡ (applied none, s')
unfolding deliver
replay_is_ignored plan_name plan_name' manage_url e events s =
    let s1 = (apply_ordered plan_name manage_url e s).1 in
    claimed_is_ignored plan_name' manage_url e (deliver plan_name manage_url events s1)
      (claims_stay plan_name manage_url e.id events s1 (event_is_claimed plan_name manage_url e s))

module _ (plan_name : Option String → Option String) (manage_url : String) where
  commit_throws :
      (customer : String) (at : ℕ) (before_tx : Store) (out : Outcome × Store)
      → (commit plan_name manage_url customer at before_tx out).0 ≡ throws
      → (commit plan_name manage_url customer at before_tx out).1.organizations
        ≡ before_tx.organizations
  commit_throws customer at before_tx (applied r, s) h = absurd (ground (arith, h))
  commit_throws customer at before_tx (throws, s) h = refl

  ordered_throws :
      (e : StripeEvent) (customer : String) (s : Store)
      → (ordered plan_name manage_url e customer s).0 ≡ throws
      → (ordered plan_name manage_url e customer s).1.organizations ≡ s.organizations
  ordered_throws e customer s h =
      elim (Bool-cases (is_stale_stripe_event e.created (get_last_stripe_event_at customer s))) [
        | inl old ↦ rw old refl
        | inr new ↦ rw new (
            commit_throws customer (e.created * 1000) s
              (apply_stripe_webhook_event plan_name manage_url e.content s) (rw new at h))
      ]

  -- An event of a customer whose application throws leaves the organizations as they were, and is
  -- lost: the retry finds the event claimed, asks for nothing and changes nothing, even if nothing
  -- would throw any more.
  pub failed_event_is_lost :
      (plan_name' : Option String → Option String) (e : StripeEvent) (customer : String) (s : Store)
      → is_claimed e.id s ≡ false
      → truthy (extract_stripe_customer_id e.content) ≡ some customer
      → (apply_ordered plan_name manage_url e s).0 ≡ throws
      → let s' = (apply_ordered plan_name manage_url e s).1 in
        (s'.organizations ≡ s.organizations)
        × (apply_ordered plan_name' manage_url e s' ≡ (applied none, s'))
  unfolding apply_ordered
  failed_event_is_lost plan_name' e customer s fresh c h =
      let claimed = record s { processed_events = e.id ∷ s.processed_events } in
      (
        rw (fresh, c) (ordered_throws e customer claimed (rw (fresh, c) at h)),
        claimed_is_ignored plan_name' manage_url e (apply_ordered plan_name manage_url e s).1
            (event_is_claimed plan_name manage_url e s),
      )
