-- ===== src/Access/Tests.antt =====
-- Tests of the policies, and the theorem at a concrete input.
use saa_sweave.Prelude.{◌<◌, true, false, none, [], ◌≡◌, refl}
use text.Mathlib.Text.{◌==◌ as str_eq}
use saa_sweave.Access.{
  ImpersonationInput, allowed, is_role, can_impersonate_workspace_member, can_manage_billing,
  can_manage_api_keys, can_record_usage, resolve_platform_admin_role_with_policy,
}
use saa_sweave.Access.Impersonation.{rank, impersonation_lowers_rank}

abbrev input : ImpersonationInput
input = record {
  actor_org_role = "admin";
  actor_user_id = "u1";
  target_org_role = "developer";
  target_platform_role = none;
  target_user_id = "u2";
}

admin_over_developer : can_impersonate_workspace_member input ≡ allowed
unfolding can_impersonate_workspace_member
admin_over_developer = refl

billing_only :
    (can_manage_billing "billing" ≡ true)
    × (can_manage_api_keys "billing" ≡ false)
    × (can_record_usage "billing" ≡ false)
unfolding can_manage_billing can_manage_api_keys can_record_usage
billing_only = (refl, refl, refl)

first_user_in_production :
    resolve_platform_admin_role_with_policy (λ s. s) "a@b.c" true [] true ≡ false
unfolding resolve_platform_admin_role_with_policy
first_user_in_production = refl

impersonation_lowers_rank_example :
    (rank "developer" < rank "admin") × (str_eq "u1" "u2" ≡ false) × (is_role "admin" none ≡ false)
impersonation_lowers_rank_example = impersonation_lowers_rank input admin_over_developer
