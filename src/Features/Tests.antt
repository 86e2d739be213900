-- ===== src/Features/Tests.antt =====
-- Feature flags at concrete inputs.
use saa_sweave.Prelude.{ℕ, String, ◌≡◌, refl, true, false, none, some, [], ◌∷◌, arith}
use saa_sweave.Features.{
  FeatureFlag, FlagStore, set_feature_rollout, set_feature_for_organization,
  clear_feature_for_organization, is_feature_enabled_for_org,
}
use saa_sweave.Features.Rollout.{set_feature_rollout_monotone}
use saa_sweave.Features.Overrides.{set_feature_for_organization_lem}

abbrev flag : FeatureFlag
flag = record {
  available_on = "starter" ∷ "pro" ∷ [];
  enabled = true;
  key = "ip_allowlist";
  rollout = some 50;
}

abbrev store : FlagStore
store = record {
  flags = flag ∷ [];
  overrides =
      record { id = 1; enabled = false; feature_key = "ip_allowlist"; organization_id = "other" }
      ∷ [];
}

abbrev digest : String → ℕ
digest text = 1234

set_feature_rollout_monotone_example :
    is_feature_enabled_for_org digest "org" "ip_allowlist"
      (some "pro")
      (set_feature_rollout "ip_allowlist" (some 80) store)
    ≡ true
unfolding is_feature_enabled_for_org
set_feature_rollout_monotone_example =
    set_feature_rollout_monotone digest "org" "ip_allowlist" (some "pro") flag (some 80) store refl
      (omega arith) refl

set_feature_for_organization_lem_test :
    (is_feature_enabled_for_org digest "org" "ip_allowlist" none
        (set_feature_for_organization 2 "org" "ip_allowlist" false store)
      ≡ false)
    × (is_feature_enabled_for_org digest "org" "ip_allowlist" none (
          clear_feature_for_organization "org" "ip_allowlist"
            (set_feature_for_organization 2 "org" "ip_allowlist" false store))
        ≡ is_feature_enabled_for_org digest "org" "ip_allowlist" none
            (record store { overrides = [] }))
set_feature_for_organization_lem_test =
    set_feature_for_organization_lem digest 2 "org" "ip_allowlist" false none flag store refl
