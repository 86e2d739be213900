-- ===== src/Ip/Rules.antt =====
-- The rules of workspaces: every one valid, at most twenty for a workspace, none twice.
use saa_sweave.Prelude.{
  ℕ, ◌+◌, ◌≤◌, ◌<◌, String, ◌≡◌, subst, ◌∙◌, Bool, true, false, not, ◌&&◌, Option, List, [], ◌∷◌,
  ◌++◌, arith, leb, Bool-cases, inl, inr, count, keep, length, any, All, All-append, All-keep,
  length-keep, eq_iff,
}
use text.Mathlib.Text.{◌==◌ as str_eq}
use saa_sweave.Prelude.Text.{trim}
use saa_sweave.Prelude.Sql.{
  delete_where, sort_by_desc, count-keep, any_iff_count, length-sort_by_desc, count-sort_by_desc,
}
use mathlib.Core.Option
use saa_sweave.Ip.{
  IpRule, rule_of, is_rule, is_valid_ip_rule, max_ip_rules_per_org, list_organization_ip_rules,
  create_organization_ip_rule, delete_organization_ip_rule,
}

abbrev pub is_twin : String → String → IpRule → Bool
is_twin org cidr r = str_eq r.organization_id org && str_eq r.cidr cidr

pub record WellFormed (rules : List IpRule) : Type 0 where
  pub valid : All (λ r. is_valid_ip_rule r.cidr ≡ true) rules
  pub bounded : (org : String) → count (rule_of org) rules ≤ 20
  pub distinct : (org cidr : String) → count (is_twin org cidr) rules ≤ 1

count_append :
    (p : IpRule → Bool) (rules : List IpRule) (r : IpRule)
    → count p (rules ++ r ∷ []) ≡ count p rules + count p (r ∷ [])
count_append p [] r = omega arith
count_append p (k ∷ rules) r = ground (arith, count_append p rules r)

count-delete :
    (p gone : IpRule → Bool) (rules : List IpRule)
    → count p (delete_where gone rules) ≤ count p rules
count-delete p gone [] = omega arith
count-delete p gone (k ∷ rules) = ground (arith, count-delete p gone rules)

pub delete-WellFormed :
    (org : String) (id : ℕ) (rules : List IpRule)
    → WellFormed rules
    → WellFormed (delete_organization_ip_rule org id rules).1
unfolding delete_organization_ip_rule
delete-WellFormed org id rules w = record {
  valid =
      All-keep (λ r. is_valid_ip_rule r.cidr ≡ true) (λ r. not (is_rule org id r)) rules w.valid;
  bounded = λ o. omega (arith, w.bounded o, count-delete (rule_of o) (is_rule org id) rules);
  distinct =
      λ o c. omega (arith, w.distinct o c, count-delete (is_twin o c) (is_rule org id) rules);
}

length_listed :
    (org : String) (rules : List IpRule)
    → length (list_organization_ip_rules org rules) ≡ count (rule_of org) rules
unfolding list_organization_ip_rules
length_listed org rules =
    length-sort_by_desc (λ r. r.created_at) (keep (rule_of org) rules)
    ∙ length-keep (rule_of org) rules

any_listed :
    (org cidr : String) (rules : List IpRule)
    → any (λ r. str_eq r.cidr cidr) (list_organization_ip_rules org rules) ≡ false
    → count (is_twin org cidr) rules ≡ 0
unfolding list_organization_ip_rules
any_listed org cidr rules h =
    let q : IpRule → Bool = λ r. str_eq r.cidr cidr in
    ground (
      arith,
      any_iff_count q (sort_by_desc (λ r. r.created_at) (keep (rule_of org) rules)),
      count-sort_by_desc q (λ r. r.created_at) (keep (rule_of org) rules),
      count-keep q (rule_of org) rules,
    )

module _ (row : IpRule) (rules : List IpRule) (w : WellFormed rules)
    (ok : is_valid_ip_rule row.cidr ≡ true) (room : count (rule_of row.organization_id) rules < 20)
    (fresh : count (is_twin row.organization_id row.cidr) rules ≡ 0) where
  bounded_after : (o : String) → count (rule_of o) (rules ++ row ∷ []) ≤ 20
  bounded_after o = elim (Bool-cases (str_eq row.organization_id o)) [
    | inl same ↦
        let e = (eq_iff row.organization_id o).0 same in
        let room' = subst (λ x. count (rule_of x) rules < 20) e room in
        ground (arith, count_append (rule_of o) rules row, room')
    | inr other ↦ ground (arith, count_append (rule_of o) rules row, w.bounded o)
  ]

  distinct_after : (o c : String) → count (is_twin o c) (rules ++ row ∷ []) ≤ 1
  distinct_after o c = elim (Bool-cases (is_twin o c row)) [
    | inl same ↦
        let e = (eq_iff row.organization_id o).0 (ground (arith, same)) in
        let f = (eq_iff row.cidr c).0 (ground (arith, same)) in
        let g = subst (λ x. count (is_twin x row.cidr) rules ≡ 0) e fresh in
        let h = subst (λ x. count (is_twin o x) rules ≡ 0) f g in
        ground (arith, count_append (is_twin o c) rules row, h)
    | inr other ↦ ground (arith, count_append (is_twin o c) rules row, w.distinct o c)
  ]

  appended-WellFormed : WellFormed (rules ++ row ∷ [])
  appended-WellFormed = record {
    valid = All-append (λ r. is_valid_ip_rule r.cidr ≡ true) rules (row ∷ []) w.valid (ok, tt);
    bounded = bounded_after;
    distinct = distinct_after;
  }

-- Creating a rule, whatever it answers, keeps the table well formed: every rule valid, at most 20 for
-- a workspace, no range twice in a workspace.
pub create-WellFormed :
    (now id : ℕ) (organization_id cidr : String) (label created_by : Option String)
    (rules : List IpRule)
    → WellFormed rules
    → WellFormed (create_organization_ip_rule now id organization_id cidr label created_by rules).1
unfolding create_organization_ip_rule
create-WellFormed now id org cidr label created_by rules w =
    let value = trim cidr in
    let existing = list_organization_ip_rules org rules in
    let row : IpRule = record {
      id = id;
      cidr = value;
      created_at = now;
      created_by = created_by;
      label = Option.map trim label;
      organization_id = org;
    } in
    elim (Bool-cases (is_valid_ip_rule value)) [
      | inr bad ↦ rw bad w
      | inl ok ↦ elim (Bool-cases (leb max_ip_rules_per_org (length existing))) [
        | inl full ↦ rw (ok, full) w
        | inr room ↦ elim (Bool-cases (any (λ r. str_eq r.cidr value) existing)) [
          | inl twin ↦ rw (ok, room, twin) w
          | inr fresh ↦
              rw (ok, room, fresh)
                (appended-WellFormed row rules w ok (ground (arith, length_listed org rules, room))
                  (any_listed org value rules fresh))
        ]
      ]
    ]
