-- ===== src/Ip/Tests.antt =====
-- Rules and addresses at concrete inputs.
use saa_sweave.Prelude.{◌≡◌, refl, ◌↔◌, true, false, none, [], ◌∷◌, arith}
use saa_sweave.Prelude.Bits.{without_last}
use saa_sweave.Prelude.Text.{trim, split, includes, to_number}
use saa_sweave.Ip.{
  IpRule, is_valid_ip_rule, is_ipv4, ipv4_to_int, ip_matches_rule, create_organization_ip_rule,
}
use saa_sweave.Ip.Cidr.{ip_matches_rule_iff}
use saa_sweave.Ip.Rules.{WellFormed, create-WellFormed}

matches_inside : ip_matches_rule "10.1.2.3" " 10.1.0.0/16 " ≡ true
unfolding ip_matches_rule
matches_inside = refl

misses_outside : ip_matches_rule "10.2.2.3" "10.1.0.0/16" ≡ false
unfolding ip_matches_rule
misses_outside = refl

no_leading_zero : is_valid_ip_rule "10.01.0.0/16" ≡ false
unfolding is_valid_ip_rule
no_leading_zero = refl

ip_matches_rule_iff_example :
    (ip_matches_rule "10.1.2.3" " 10.1.0.0/16 " ≡ true)
    ↔ (without_last 16 (ipv4_to_int "10.1.2.3") ≡ without_last 16 (ipv4_to_int "10.1.0.0"))
unfolding trim split includes is_ipv4 to_number
ip_matches_rule_iff_example =
    ip_matches_rule_iff "10.1.2.3" " 10.1.0.0/16 " "10.1.0.0" "16" 16 refl refl refl refl refl
      (omega arith)

abbrev rule : IpRule
rule = record {
  id = 1;
  cidr = "10.1.0.0/16";
  created_at = 5;
  created_by = none;
  label = none;
  organization_id = "org";
}

one_rule-WellFormed : WellFormed (rule ∷ [])
unfolding is_valid_ip_rule
one_rule-WellFormed = record {
  valid = (refl, tt);
  bounded = λ org. ground arith;
  distinct = λ org cidr. ground arith;
}

create_rule_test :
    WellFormed (create_organization_ip_rule 9 2 "org" " 10.2.0.0/16" none none (rule ∷ [])).1
create_rule_test =
    create-WellFormed 9 2 "org" " 10.2.0.0/16" none none (rule ∷ []) one_rule-WellFormed
