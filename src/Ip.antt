-- ===== src/Ip.antt =====
-- IP allowlists: packages/core/src/security/ip-allowlist.ts, the rules of a workspace in
-- packages/db/src/organization-ip-rules.ts, and the check of packages/api/src/lib/ip-allowlist.ts.
-- `isIPv4` is Node's: four decimal numbers up to 255 without leading zeros.
pub mod Cidr
pub mod Rules
mod Tests
use saa_sweave.Prelude.{
  ℕ, ◌+◌, ◌-◌, ◌*◌, ◌^◌, ◌%◌, String, Bool, true, false, not, ◌&&◌, ◌||◌, Option, none, some, List,
  [], ◌∷◌, ◌++◌, ltb, leb, ◌==◌, if◌then◌else◌, length, all, any, keep, is_some,
}
use Prim.Native.Nat.{bit_and}
use mathlib.Core.Option
use text.Mathlib.Text.{◌==◌ as str_eq}
use saa_sweave.Prelude.Text.{
  trim, split, includes, are_digits, count_chars, decimal_from, to_number, before, starts_with,
}
use saa_sweave.Prelude.Sql.{delete_where, sort_by_desc}

abbrev pub max_ip_rules_per_org : ℕ
max_ip_rules_per_org = 20

-- `\d{1,n}`
unfoldable pub are_few_digits : ℕ → String → Bool
unfolding are_digits count_chars
are_few_digits n s = are_digits s && leb 1 (count_chars s) && leb (count_chars s) n

unfoldable pub is_octet : String → Bool
unfolding are_few_digits decimal_from starts_with
is_octet s =
    are_few_digits 3 s
    && leb (decimal_from 0 s) 255
    && (count_chars s == 1 || not (starts_with "0" s))

unfoldable pub is_ipv4 : String → Bool
unfolding is_octet split
is_ipv4 s = let parts = split b'.' s in length parts == 4 && all is_octet parts

-- IPV4_REGEX
unfoldable pub looks_like_ipv4 : String → Bool
unfolding are_few_digits split
looks_like_ipv4 s = let parts = split b'.' s in length parts == 4 && all (are_few_digits 3) parts

-- CIDR_REGEX, on the parts around the slashes
abbrev looks_like_cidr : List String → Bool
looks_like_cidr (network ∷ prefix ∷ []) = looks_like_ipv4 network && are_few_digits 2 prefix
looks_like_cidr _ = false

abbrev is_valid_cidr : List String → Bool
is_valid_cidr (network ∷ prefix ∷ []) =
    looks_like_cidr (network ∷ prefix ∷ []) && is_ipv4 network && leb (decimal_from 0 prefix) 32
is_valid_cidr _ = false

unfoldable pub is_valid_ip_rule : String → Bool
unfolding trim split is_ipv4 looks_like_ipv4
is_valid_ip_rule cidr =
    let value = trim cidr in
    if looks_like_ipv4 value then is_ipv4 value else is_valid_cidr (split b'/' value)

-- `(acc << 8) + octet` over the octets, `>>> 0` at the end: each step is taken modulo 2^32.
abbrev pub from_octets : ℕ → List String → ℕ
from_octets acc [] = acc
from_octets acc (o ∷ rest) = from_octets ((acc * 256 + decimal_from 0 o) % 2 ^ 32) rest

unfoldable pub ipv4_to_int : String → ℕ
unfolding split decimal_from
ipv4_to_int ip = from_octets 0 (split b'.' ip)

-- `prefix === 0 ? 0 : (~0 << (32 - prefix)) >>> 0`; a shift by NaN is a shift by 0.
abbrev pub mask_of : Option ℕ → ℕ
mask_of none = 2 ^ 32 - 1
mask_of (some prefix) = if prefix == 0 then 0 else (2 ^ 32 - 1) * 2 ^ (32 - prefix) % 2 ^ 32

-- `prefix < 0 || prefix > 32`, false of NaN
abbrev pub is_out_of_range : Option ℕ → Bool
is_out_of_range none = false
is_out_of_range (some prefix) = ltb 32 prefix

-- What follows the first two parts is ignored.
abbrev pub matches_cidr : String → List String → Bool
matches_cidr ip (network ∷ prefix_raw ∷ rest) =
    let mask = mask_of (to_number prefix_raw) in
    is_ipv4 network
    && not (is_out_of_range (to_number prefix_raw))
    && bit_and (ipv4_to_int ip) mask == bit_and (ipv4_to_int network) mask
matches_cidr ip _ = false

unfoldable pub ip_matches_rule : (ip rule : String) → Bool
unfolding trim split includes is_ipv4 ipv4_to_int to_number
ip_matches_rule ip rule =
    let r = trim rule in
    is_ipv4 ip && (if includes b'/' r then matches_cidr ip (split b'/' r) else str_eq ip r)

pub ip_matches_any_rule : String → List String → Bool
unfolding ip_matches_rule
ip_matches_any_rule ip [] = true
ip_matches_any_rule ip (rule ∷ rules) = any (ip_matches_rule ip) (rule ∷ rules)

pub record IpRule : Type 0 where
  pub id : ℕ
  pub cidr : String
  pub created_at : ℕ
  pub created_by : Option String
  pub label : Option String
  pub organization_id : String

pub data CreateError : Type 0 where
  invalid_rule maximum_reached already_exists : CreateError

pub data CreateResult : Type 0 where
  created : IpRule → CreateResult
  refused : CreateError → CreateResult

abbrev pub rule_of : String → IpRule → Bool
rule_of org r = str_eq r.organization_id org

pub list_organization_ip_rules : String → List IpRule → List IpRule
list_organization_ip_rules org rules = sort_by_desc (λ r. r.created_at) (keep (rule_of org) rules)

pub create_organization_ip_rule :
    (now id : ℕ)
    → (organization_id cidr : String) → (label created_by : Option String) → List IpRule
    → CreateResult × List IpRule
unfolding trim is_valid_ip_rule list_organization_ip_rules
create_organization_ip_rule now id organization_id cidr label created_by rules =
    let value = trim cidr in
    let existing = list_organization_ip_rules organization_id rules in
    let row : IpRule = record {
      id = id;
      cidr = value;
      created_at = now;
      created_by = created_by;
      label = Option.map trim label;
      organization_id = organization_id;
    } in
    if not (is_valid_ip_rule value)
    then (refused invalid_rule, rules)
    else if leb max_ip_rules_per_org (length existing)
    then (refused maximum_reached, rules)
    else if any (λ r. str_eq r.cidr value) existing
    then (refused already_exists, rules)
    else (created row, rules ++ row ∷ [])

abbrev pub is_rule : String → ℕ → IpRule → Bool
is_rule organization_id id r = r.id == id && str_eq r.organization_id organization_id

pub delete_organization_ip_rule : String → ℕ → List IpRule → Bool × List IpRule
delete_organization_ip_rule organization_id id rules = (
  ltb 0 (length (keep (is_rule organization_id id) rules)),
  delete_where (is_rule organization_id id) rules,
)

-- `assertIpAllowedForOrganization`: false is the throw. The feature flag and the rules, which it
-- reads through the cache, are arguments.
pub is_ip_allowed : (bypass enabled : Bool) → List String → String → Bool
unfolding ip_matches_any_rule
is_ip_allowed bypass enabled rules ip =
    if bypass
    then true
    else if not enabled
    then true
    else if length rules == 0
    then true
    else ip_matches_any_rule ip rules
