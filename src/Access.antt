-- ===== src/Access.antt =====
-- Who may do what: packages/auth/src/permissions.ts, impersonation-policy.ts and platform-policy.ts,
-- and packages/api/src/lib/console-access.ts. Roles are texts, as in the tables. JavaScript's `toLowerCase` is an argument.
use saa_sweave.Prelude.{
  ℕ, ◌+◌, ◌<◌, String, Bool, true, false, not, ◌&&◌, ◌||◌, Option, none, some, List, [], ◌∷◌, ◌≡◌,
  ◌⊎◌, refl, arith, ltb, leb, ◌==◌, if◌then◌else◌, or_else, any, keep, count, length, eq_iff,
  Bool-cases, inl, inr,
}
use mathlib.Core.Option
use text.Mathlib.Text.{◌==◌ as str_eq}
use saa_sweave.Prelude.Sql.{first_where}
pub mod Impersonation
pub mod Seats
pub mod Tests

-- `roles.includes(role)`
abbrev pub is_among : String → List String → Bool
is_among role roles = any (λ r. str_eq role r) roles

abbrev pub org_manager_roles : List String
org_manager_roles = "owner" ∷ "admin" ∷ []

abbrev pub billing_manager_roles : List String
billing_manager_roles = "owner" ∷ "admin" ∷ "billing" ∷ []

abbrev pub api_key_manager_roles : List String
api_key_manager_roles = "owner" ∷ "admin" ∷ "developer" ∷ []

abbrev pub usage_recorder_roles : List String
usage_recorder_roles = "owner" ∷ "admin" ∷ "developer" ∷ []

unfoldable pub can_manage_billing : String → Bool
can_manage_billing role = is_among role billing_manager_roles

unfoldable pub can_manage_api_keys : String → Bool
can_manage_api_keys role = is_among role api_key_manager_roles

unfoldable pub can_record_usage : String → Bool
can_record_usage role = is_among role usage_recorder_roles

pub record ImpersonationInput : Type 0 where
  pub actor_org_role : String
  pub actor_user_id : String
  pub target_org_role : String
  pub target_platform_role : Option String
  pub target_user_id : String

pub data Verdict : Type 0 where
  allowed : Verdict
  denied : (reason : String) → Verdict

abbrev pub is_role : String → Option String → Bool
is_role role none = false
is_role role (some r) = str_eq r role

unfoldable pub can_impersonate_workspace_member : ImpersonationInput → Verdict
can_impersonate_workspace_member input =
    if str_eq input.actor_user_id input.target_user_id
    then denied "You cannot impersonate yourself."
    else if not (is_among input.actor_org_role org_manager_roles)
    then denied "Only workspace owners and admins can impersonate members."
    else if str_eq input.target_org_role "owner"
    then denied "Workspace owners cannot be impersonated."
    else if str_eq input.actor_org_role "admin" && str_eq input.target_org_role "admin"
    then denied "Admins cannot impersonate other admins."
    else if is_role "admin" input.target_platform_role
    then denied "Platform admins cannot be impersonated from the workspace console."
    else allowed

-- Whether the role is admin rather than user.
unfoldable pub resolve_platform_admin_role_with_policy :
    (to_lower_case : String → String) (email : String) (is_first_user : Bool)
    (admin_emails : List String) (is_production : Bool)
    → Bool
resolve_platform_admin_role_with_policy to_lower_case email is_first_user admin_emails
      is_production =
    is_among (to_lower_case email) admin_emails
    || (not is_production && length admin_emails == 0 && is_first_user)

pub record OrganizationPlan : Type 0 where
  pub id : String
  pub plan_id : Option String

pub record Plan : Type 0 where
  pub id : String
  pub seats_included : ℕ

pub record Invitation : Type 0 where
  pub organization_id : String
  pub status : String

-- The tables; a member is the id of its organization.
pub record SeatDb : Type 0 where
  pub member : List String
  pub organization : List OrganizationPlan
  pub plan : List Plan
  pub invitation : List Invitation

unfoldable pub count_seats : String → SeatDb → ℕ
count_seats organization_id db = count (λ m. str_eq m organization_id) db.member

abbrev pub plan_seats : Option String → List Plan → ℕ
plan_seats none plans = 1
plan_seats (some plan_id) plans =
    let found = first_where (λ p. str_eq p.id plan_id) plans in
    if str_eq plan_id "" then 1 else or_else (Option.map (λ p. p.seats_included) found) 1

abbrev pub organization_seats : Option OrganizationPlan → List Plan → ℕ
organization_seats none plans = 1
organization_seats (some organization) plans = plan_seats organization.plan_id plans

unfoldable pub seats_included : String → SeatDb → ℕ
seats_included organization_id db =
    organization_seats (first_where (λ o. str_eq o.id organization_id) db.organization) db.plan

abbrev pub is_pending : String → Invitation → Bool
is_pending organization_id i = str_eq i.organization_id organization_id && str_eq i.status "pending"

-- Whether it returns.
unfoldable pub assert_seat_available : String → SeatDb → Bool
unfolding count_seats seats_included
assert_seat_available organization_id db =
    let used = count_seats organization_id db in
    let included = seats_included organization_id db in
    let pending = count (is_pending organization_id) db.invitation in
    if leb included used then false else not (leb included (used + pending))
