-- ===== src/Features.antt =====
-- Feature flags: packages/api/src/lib/feature-rollout.ts and features.ts. The first four bytes of
-- the SHA-256 digest of a text are a parameter. The flag of a plan's eligibility comes from the
-- plan of the organization, an argument.
pub mod Rollout
pub mod Overrides
mod Tests
use saa_sweave.Prelude.{
  ℕ, ◌%◌, String, Bool, true, false, not, ◌&&◌, Option, none, some, List, [], ◌∷◌, ◌++◌, ltb, leb,
  ◌==◌, if◌then◌else◌, or_else, any, keep, map,
}
use mathlib.Core.Option
use text.Mathlib.Text.{◌==◌ as str_eq}
use saa_sweave.Prelude.Text.{joined}
use saa_sweave.Prelude.Sql.{update_where, delete_where, first_where}

pub record FeatureFlag : Type 0 where
  pub available_on : List String
  pub enabled : Bool
  pub key : String
  pub rollout : Option ℕ

pub record OrganizationFeatureFlag : Type 0 where
  pub id : ℕ
  pub enabled : Bool
  pub feature_key : String
  pub organization_id : String

pub record FlagStore : Type 0 where
  pub flags : List FeatureFlag
  pub overrides : List OrganizationFeatureFlag

unfoldable pub set_feature_global_enabled : String → Bool → FlagStore → FlagStore
set_feature_global_enabled key enabled s = record s {
  flags = update_where (λ f. str_eq f.key key) (λ f. record f { enabled = enabled }) s.flags;
}

unfoldable pub set_feature_rollout : String → Option ℕ → FlagStore → FlagStore
set_feature_rollout key rollout s = record s {
  flags = update_where (λ f. str_eq f.key key) (λ f. record f { rollout = rollout }) s.flags;
}

abbrev pub is_override : String → String → OrganizationFeatureFlag → Bool
is_override organization_id key o =
    str_eq o.organization_id organization_id && str_eq o.feature_key key

abbrev pub enable : Bool → OrganizationFeatureFlag → OrganizationFeatureFlag
enable enabled o = record o { enabled = enabled }

abbrev pub set_override :
    (id : ℕ) → String → String → Bool → Option OrganizationFeatureFlag → FlagStore → FlagStore
set_override id organization_id key enabled (some existing) s = record s {
  overrides = update_where (λ o. o.id == existing.id) (enable enabled) s.overrides;
}
set_override id organization_id key enabled none s = record s {
  overrides =
      s.overrides
      ++ record { id = id; enabled = enabled; feature_key = key; organization_id = organization_id }
        ∷ [];
}

unfoldable pub set_feature_for_organization :
    (id : ℕ) → String → String → Bool → FlagStore → FlagStore
set_feature_for_organization id organization_id key enabled s =
    set_override id organization_id key enabled
      (first_where (is_override organization_id key) s.overrides) s

unfoldable pub clear_feature_for_organization : String → String → FlagStore → FlagStore
clear_feature_for_organization organization_id key s = record s {
  overrides = delete_where (is_override organization_id key) s.overrides;
}

abbrev pub is_eligible : Option String → FeatureFlag → Bool
is_eligible plan_id f = any (λ p. str_eq p (or_else plan_id "starter")) f.available_on

abbrev pub override_of : String → String → FlagStore → Option Bool
override_of organization_id key s =
    Option.map (λ o. o.enabled) (first_where (is_override organization_id key) s.overrides)

module _ (digest_head : String → ℕ) where
  abbrev pub rollout_bucket : String → String → ℕ
  rollout_bucket organization_id key = digest_head (joined organization_id (joined ":" key)) % 100

  unfoldable pub is_in_rollout : String → String → ℕ → Bool
  is_in_rollout organization_id key rollout =
      if leb 100 rollout
      then true
      else if leb rollout 0
      then false
      else ltb (rollout_bucket organization_id key) rollout

  abbrev by_rollout : String → String → Option ℕ → Bool
  by_rollout organization_id key none = true
  by_rollout organization_id key (some rollout) = is_in_rollout organization_id key rollout

  abbrev by_default : String → String → Bool → Option ℕ → Option Bool → Bool
  by_default organization_id key global_enabled rollout none =
      if not global_enabled then false else by_rollout organization_id key rollout
  by_default organization_id key global_enabled rollout (some override) = override

  unfoldable pub resolve_feature_enabled :
      (organization_id feature_key : String)
      → (global_enabled : Bool) → (rollout : Option ℕ) → (override : Option Bool)
      → (plan_eligible : Bool) → Bool
  unfolding is_in_rollout
  resolve_feature_enabled organization_id key global_enabled rollout override plan_eligible =
      if not plan_eligible
      then false
      else by_default organization_id key global_enabled rollout override

  abbrev by_flag : String → String → Option String → Option Bool → Option FeatureFlag → Bool
  by_flag organization_id key plan_id override none = false
  by_flag organization_id key plan_id override (some f) =
      resolve_feature_enabled organization_id key f.enabled f.rollout override
        (is_eligible plan_id f)

  unfoldable pub is_feature_enabled_for_org : String → String → Option String → FlagStore → Bool
  unfolding resolve_feature_enabled
  is_feature_enabled_for_org organization_id key plan_id s =
      by_flag organization_id key plan_id (override_of organization_id key s)
        (first_where (λ f. str_eq f.key key) s.flags)
