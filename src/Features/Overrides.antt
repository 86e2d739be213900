-- ===== src/Features/Overrides.antt =====
-- Overrides of a feature for one organization: what setting and clearing one changes.
use saa_sweave.Prelude.{
  ℕ, String, ◌≡◌, refl, inl, inr, Bool, true, false, ◌&&◌, Option, none, some, List, [], ◌∷◌, ◌++◌,
  arith, ◌==◌, ==_refl, if◌then◌else◌, Option-cases,
}
use mathlib.Core.Option
use text.Mathlib.Text.{◌==◌ as str_eq}
use text.Mathlib.TextPositions.{eq_refl}
use saa_sweave.Prelude.Sql.{first_where, update_where, delete_where}
use saa_sweave.Features.{
  OrganizationFeatureFlag, FlagStore, FeatureFlag, is_override, enable,
  set_feature_for_organization, clear_feature_for_organization, override_of, is_eligible,
  is_feature_enabled_for_org, resolve_feature_enabled,
}

-- An UPDATE that does not change what is looked for.
first_after :
    (p q : OrganizationFeatureFlag → Bool) (f : OrganizationFeatureFlag → OrganizationFeatureFlag)
    → ((o : OrganizationFeatureFlag) → p (f o) ≡ p o)
    → (rows : List OrganizationFeatureFlag)
    → first_where p (update_where q f rows)
      ≡ Option.map (λ o. if q o then f o else o) (first_where p rows)
first_after p q f h [] = refl
first_after p q f h (o ∷ rows) = ground (arith, h o, first_after p q f h rows)

first_appended :
    (p : OrganizationFeatureFlag → Bool) (rows : List OrganizationFeatureFlag)
    (o : OrganizationFeatureFlag)
    → first_where p rows ≡ none
    → first_where p (rows ++ o ∷ []) ≡ (if p o then some o else none)
first_appended p [] o h = refl
first_appended p (k ∷ rows) o h = ground (arith, first_appended p rows o)

first_deleted :
    (p : OrganizationFeatureFlag → Bool) (rows : List OrganizationFeatureFlag)
    → first_where p (delete_where p rows) ≡ none
first_deleted p [] = refl
first_deleted p (k ∷ rows) = ground (arith, first_deleted p rows)

override_set :
    (id : ℕ) (org key : String) (enabled : Bool) (s : FlagStore)
    → override_of org key (set_feature_for_organization id org key enabled s) ≡ some enabled
unfolding set_feature_for_organization
override_set id org key enabled s =
    elim (Option-cases (first_where (is_override org key) s.overrides)) [
      | inl e ↦
          let row : OrganizationFeatureFlag = record {
            id = id;
            enabled = enabled;
            feature_key = key;
            organization_id = org;
          } in
          let h = first_appended (is_override org key) s.overrides row e in
          rw e (rw h (ground (arith, eq_refl org, eq_refl key)))
      | inr (o, e) ↦
          let h =
            first_after (is_override org key) (λ k. k.id == o.id) (enable enabled) (λ k. refl)
              s.overrides in
          rw e (rw (h, e) (ground (arith, ==_refl o.id)))
    ]

override_cleared :
    (org key : String) (s : FlagStore)
    → override_of org key (clear_feature_for_organization org key s) ≡ none
unfolding clear_feature_for_organization
override_cleared org key s = rw (first_deleted (is_override org key) s.overrides) refl

flags_kept :
    (id : ℕ) (org key : String) (enabled : Bool) (s : FlagStore)
    → (set_feature_for_organization id org key enabled s).flags ≡ s.flags
unfolding set_feature_for_organization
flags_kept id org key enabled s =
    elim (Option-cases (first_where (is_override org key) s.overrides)) [
      | inl e ↦ rw e refl
      | inr (o, e) ↦ rw e refl
    ]

flags_cleared :
    (org key : String) (s : FlagStore) → (clear_feature_for_organization org key s).flags ≡ s.flags
unfolding clear_feature_for_organization
flags_cleared org key s = refl

module _ (digest_head : String → ℕ) where
  overridden :
      (org key : String) (global_enabled : Bool) (r : Option ℕ) (enabled eligible : Bool)
      → resolve_feature_enabled digest_head org key global_enabled r (some enabled) eligible
        ≡ (eligible && enabled)
  unfolding resolve_feature_enabled
  overridden org key global_enabled r enabled true = refl
  overridden org key global_enabled r enabled false = refl

  -- After a feature that exists is set for an organization, the organization has it exactly if it was
  -- set to on and the plan includes it, whatever the global flag, the rollout and earlier overrides
  -- say; after the override is cleared, it has what an organization without overrides has.
  pub set_feature_for_organization_lem :
      (id : ℕ) (org key : String) (enabled : Bool) (plan_id : Option String) (f : FeatureFlag)
      (s : FlagStore)
      → first_where (λ k. str_eq k.key key) s.flags ≡ some f
      → (is_feature_enabled_for_org digest_head org key plan_id
            (set_feature_for_organization id org key enabled s)
          ≡ (is_eligible plan_id f && enabled))
        × (is_feature_enabled_for_org digest_head org key plan_id (
              clear_feature_for_organization org key
                (set_feature_for_organization id org key enabled s))
            ≡ is_feature_enabled_for_org digest_head org key plan_id (record s { overrides = [] }))
  unfolding is_feature_enabled_for_org
  set_feature_for_organization_lem id org key enabled plan_id f s found =
      let s' = set_feature_for_organization id org key enabled s in
      (
        rw (override_set id org key enabled s, flags_kept id org key enabled s, found)
            (overridden org key f.enabled f.rollout enabled (is_eligible plan_id f)),
        rw (override_cleared org key s', flags_cleared org key s', flags_kept id org key enabled s)
            refl,
      )
