-- ===== src/Stripe/Events.antt =====
-- The rows and events of packages/app/src/stripe/webhook-apply.ts: the columns of organizations,
-- members and users that it touches, and the fields of Stripe's events that it reads.
use saa_sweave.Prelude.{ℕ, String, Bool, Option, List}

pub record Organization : Type 0 where
  pub id : String
  pub cancel_at_period_end : Option Bool
  pub current_period_end : Option ℕ
  pub last_stripe_event_at : Option ℕ
  pub plan_id : Option String
  pub stripe_customer_id : Option String
  pub stripe_subscription_id : Option String
  pub subscription_status : Option String

pub record Member : Type 0 where
  pub organization_id : String
  pub role : String
  pub user_id : String

pub record User : Type 0 where
  pub id : String
  pub email : String
  pub name : String

pub data AuditAction : Type 0 where
  subscription_updated payment_failed invoice_paid : AuditAction

pub record Audit : Type 0 where
  pub action : AuditAction
  pub organization_id : String
  pub target_label : String

pub record Store : Type 0 where
  pub organizations : List Organization
  pub members : List Member
  pub users : List User
  pub processed_events : List String
  pub audits : List Audit

-- `current_period_end` is that of the first item, if there is one; the customer is its id.
pub record Subscription : Type 0 where
  pub id : String
  pub cancel_at_period_end : Bool
  pub current_period_end : Option ℕ
  pub customer : String
  pub metadata_organization_id : Option String
  pub metadata_plan_id : Option String
  pub status : String

pub record Invoice : Type 0 where
  pub id : String
  pub customer : Option String
  pub metadata_organization_id : Option String

pub data EventData : Type 0 where
  subscription_created subscription_changed subscription_deleted : Subscription → EventData
  invoice_payment_failed invoice_was_paid : Invoice → EventData
  other : EventData

pub record StripeEvent : Type 0 where
  pub id : String
  pub created : ℕ
  pub content : EventData

pub record EmailIntent : Type 0 where
  pub manage_url : String
  pub organization_id : String
  pub owner_email : String
  pub owner_name : String
  pub plan_id : Option String
  pub plan_name : String

pub data Outcome : Type 0 where
  applied : Option EmailIntent → Outcome
  throws : Outcome
