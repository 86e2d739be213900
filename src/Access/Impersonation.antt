-- ===== src/Access/Impersonation.antt =====
-- What impersonation in packages/auth/src/impersonation-policy.ts can reach.
use saa_sweave.Prelude.{ℕ, ◌<◌, String, false, ◌≡◌, arith, if◌then◌else◌}
use text.Mathlib.Text.{◌==◌ as str_eq}
use saa_sweave.Access.{
  ImpersonationInput, Verdict, allowed, denied, is_role, can_impersonate_workspace_member,
}

-- The rank of a role in its organization.
abbrev pub rank : String → ℕ
rank role = if str_eq role "owner" then 2 else if str_eq role "admin" then 1 else 0

abbrev IsAllowed : Verdict → Type 0
IsAllowed allowed = Unit
IsAllowed (denied reason) = ⊥

-- When a member may impersonate another, the other is somebody else, no platform admin, and of a
-- lower rank in the organization, where an owner stands above an admin and an admin above every
-- other role.
pub impersonation_lowers_rank :
    (input : ImpersonationInput)
    → can_impersonate_workspace_member input ≡ allowed
    → (rank input.target_org_role < rank input.actor_org_role)
      × (str_eq input.actor_user_id input.target_user_id ≡ false)
      × (is_role "admin" input.target_platform_role ≡ false)
unfolding can_impersonate_workspace_member
impersonation_lowers_rank input h = ground arith
