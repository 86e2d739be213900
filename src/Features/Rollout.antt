-- ===== src/Features/Rollout.antt =====
-- A staged rollout: raising the percentage takes the feature from no organization.
use saa_sweave.Prelude.{ℕ, ◌≤◌, String, ◌≡◌, refl, Bool, true, Option, none, some, arith}
use text.Mathlib.Text.{◌==◌ as str_eq}
use saa_sweave.Prelude.Sql.{first_where, first_where-update_where}
use saa_sweave.Features.{
  FeatureFlag, FlagStore, set_feature_rollout, resolve_feature_enabled, is_feature_enabled_for_org,
  override_of, is_eligible,
}

-- Rollout `r'` reaches at least the organizations of rollout `r`; no rollout reaches all.
abbrev pub WiderThan : Option ℕ → Option ℕ → Type 0
WiderThan none r = Unit
WiderThan (some r') none = 100 ≤ r'
WiderThan (some r') (some r) = r ≤ r'

module _ (digest_head : String → ℕ) where
  resolve_monotone :
      (org key : String) (global_enabled : Bool) (r r' : Option ℕ) (override : Option Bool)
      (eligible : Bool)
      → WiderThan r' r
      → resolve_feature_enabled digest_head org key global_enabled r override eligible ≡ true
      → resolve_feature_enabled digest_head org key global_enabled r' override eligible ≡ true
  unfolding resolve_feature_enabled
  resolve_monotone org key global_enabled r none override eligible w h = ground (arith, h)
  resolve_monotone org key global_enabled none (some r') override eligible w h =
      ground (arith, h, w)
  resolve_monotone org key global_enabled (some r) (some r') override eligible w h =
      ground (arith, h, w)

  -- Raising a feature's rollout, or lifting it, never turns the feature off for an organization that
  -- has it, whatever its plan and overrides.
  pub set_feature_rollout_monotone :
      (org key : String) (plan_id : Option String) (f : FeatureFlag) (r' : Option ℕ) (s : FlagStore)
      → first_where (λ k. str_eq k.key key) s.flags ≡ some f
      → WiderThan r' f.rollout
      → is_feature_enabled_for_org digest_head org key plan_id s ≡ true
      → is_feature_enabled_for_org digest_head org key plan_id (set_feature_rollout key r' s) ≡ true
  unfolding is_feature_enabled_for_org set_feature_rollout
  set_feature_rollout_monotone org key plan_id f r' s found w h =
      let set : FeatureFlag → FeatureFlag = λ k. record k { rollout = r' } in
      rw (first_where-update_where (λ k. str_eq k.key key) set (λ k. refl) s.flags, found)
        (resolve_monotone org key f.enabled f.rollout r' (override_of org key s)
          (is_eligible plan_id f) w (rw found at h))
