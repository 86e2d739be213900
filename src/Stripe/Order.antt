-- ===== src/Stripe/Order.antt =====
-- The ordering guard: events of a customer that are not newer than the last one applied.
use saa_sweave.Prelude.{
  ℕ, ◌*◌, ◌≤◌, String, ◌≡◌, refl, sym, subst, ap, true, false, Option, none, some, ◌∷◌, arith,
  Bool-cases, Option-cases, inl, inr,
}
use saa_sweave.Prelude.Sql.{first_where, first_where-update_where}
use saa_sweave.Stripe.{
  Organization, Store, StripeEvent, Outcome, applied, throws, EmailIntent, truthy,
  extract_stripe_customer_id, is_claimed, is_customer, org_of_customer, apply_stripe_webhook_event,
  is_stale_stripe_event, get_last_stripe_event_at, set_last_stripe_event_at, apply_ordered, commit,
}

-- Nothing but the claims of events differs.
abbrev pub SameButClaims : Store → Store → Type 0
SameButClaims s s' = s' ≡ record s { processed_events = s'.processed_events }

stale :
    (created last : ℕ) → created * 1000 ≤ last → is_stale_stripe_event created (some last) ≡ true
stale created last old = ground arith

-- What the guard reads after the time of an event is set, if an organization has the customer.
last_after_set :
    (customer org : String) (at : ℕ) (s : Store)
    → org_of_customer customer (set_last_stripe_event_at customer at s) ≡ some org
    → get_last_stripe_event_at customer (set_last_stripe_event_at customer at s) ≡ some at
last_after_set customer org at s found =
    let set : Organization → Organization = λ o. record o { last_stripe_event_at = some at } in
    let e = first_where-update_where (is_customer customer) set (λ o. refl) s.organizations in
    elim (Option-cases (first_where (is_customer customer) s.organizations)) [
      | inl gone ↦ absurd (ground (arith, e, gone, found))
      | inr (o, there) ↦ rw (e, there) refl
    ]

module _ (plan_name : Option String → Option String) (manage_url : String) where
  -- An event of a customer whose organization has already seen an event of the same second or a
  -- later one asks for nothing and changes nothing but the claims.
  pub not_newer_is_skipped :
      (e : StripeEvent) (customer : String) (last : ℕ) (s : Store)
      → truthy (extract_stripe_customer_id e.content) ≡ some customer
      → get_last_stripe_event_at customer s ≡ some last
      → e.created * 1000 ≤ last
      → let (out, s') = apply_ordered plan_name manage_url e s in
        (out ≡ applied none) × SameButClaims s s'
  unfolding apply_ordered
  not_newer_is_skipped e customer last s c l old = elim (Bool-cases (is_claimed e.id s)) [
    | inl seen ↦ rw seen (refl, refl)
    | inr fresh ↦ rw (fresh, c, l, stale e.created last old) (refl, refl)
  ]

  -- An event of a customer is applied: it is new, newer than the last one, and nothing throws.
  pub record Applies (e : StripeEvent) (customer : String) (s : Store) : Type 0 where
    pub is_new : is_claimed e.id s ≡ false
    pub customer_of : truthy (extract_stripe_customer_id e.content) ≡ some customer
    pub newer : is_stale_stripe_event e.created (get_last_stripe_event_at customer s) ≡ false
    pub email : Option EmailIntent
    pub ends :
        (apply_stripe_webhook_event plan_name manage_url e.content
          (record s { processed_events = e.id ∷ s.processed_events })).0
        ≡ applied email

  commit_applied :
      (customer : String) (at : ℕ) (before_tx : Store) (email : Option EmailIntent)
      (out : Outcome × Store)
      → out.0 ≡ applied email
      → commit plan_name manage_url customer at before_tx out
        ≡ (applied email, set_last_stripe_event_at customer at out.1)
  commit_applied customer at before_tx email (applied r, s) h = rw h refl
  commit_applied customer at before_tx email (throws, s) h = absurd (ground (arith, h))

  Applies-apply_ordered :
      (e : StripeEvent) (customer : String) (s : Store) (a : Applies e customer s)
      → apply_ordered plan_name manage_url e s ≡ (
        applied a.email,
        set_last_stripe_event_at customer
            (e.created * 1000)
            (apply_stripe_webhook_event plan_name manage_url e.content
              (record s { processed_events = e.id ∷ s.processed_events })).1,
      )
  unfolding apply_ordered
  Applies-apply_ordered e customer s a =
      let claimed = record s { processed_events = e.id ∷ s.processed_events } in
      rw (a.is_new, a.customer_of, a.newer)
        (commit_applied customer (e.created * 1000) claimed a.email
          (apply_stripe_webhook_event plan_name manage_url e.content claimed) a.ends)

  -- When an event of a customer has been applied and an organization has that customer, then an
  -- event of the same customer that Stripe created earlier or in the same second, but that is
  -- delivered after it, asks for nothing and changes nothing but the claims.
  pub late_delivery_is_skipped :
      (e late : StripeEvent) (customer org : String) (s : Store)
      → Applies e customer s
      → org_of_customer customer (apply_ordered plan_name manage_url e s).1 ≡ some org
      → truthy (extract_stripe_customer_id late.content) ≡ some customer
      → late.created ≤ e.created
      → let s' = (apply_ordered plan_name manage_url e s).1 in
        let (out, s2) = apply_ordered plan_name manage_url late s' in
        (out ≡ applied none) × SameButClaims s' s2
  late_delivery_is_skipped e late customer org s a found c old =
      let same = ap (λ (r : Outcome × Store). r.1) (Applies-apply_ordered e customer s a) in
      let done =
        (apply_stripe_webhook_event plan_name manage_url e.content
          (record s { processed_events = e.id ∷ s.processed_events })).1 in
      let last =
        last_after_set customer org (e.created * 1000) done
          (subst (λ t. org_of_customer customer t ≡ some org) same found) in
      not_newer_is_skipped late customer (e.created * 1000)
        (apply_ordered plan_name manage_url e s).1 c
        (subst (λ t. get_last_stripe_event_at customer t ≡ some (e.created * 1000)) (sym same) last)
        (omega arith)
