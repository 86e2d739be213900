-- ===== src/Outbound/SixToFour.antt =====
-- 6to4 addresses under `isPrivateIPv6` of packages/core/src/security/outbound-url-policy.ts.
use saa_sweave.Prelude.{
  ℕ, String, true, false, ◌||◌, some, ◌≡◌, ◌≢◌, refl, ap, arith, eq_iff, Bool-cases, inl, inr, ◌==◌,
}
use Prim.Native.Char.{code}
use text.Mathlib.Text.{◌==◌ as str_eq}
use saa_sweave.Prelude.Text.{before, includes, starts_with, joined}
use saa_sweave.Ip.{is_ipv4}
use saa_sweave.Outbound.Address.{
  Platform, is_private_group, is_private_6to4, is_private_ipv6, is_blocked_outbound_address,
  by_hextets, or_zero, parse_hex, slice_from,
}

before_of_absent : (c : ℕ) (s : String) → includes c s ≡ false → before c s ≡ s
unfolding before includes
before_of_absent c String.[] h = refl
before_of_absent c (String.◌∷◌ d s) h = ground (arith, before_of_absent c s)

includes-before : (c d : ℕ) (s : String) → includes c s ≡ false → includes c (before d s) ≡ false
unfolding before includes
includes-before c d String.[] h = refl
includes-before c d (String.◌∷◌ x s) h = elim (Bool-cases (code x == d)) [
  | inl found ↦ rw found refl
  | inr other ↦ rw other (ground (arith, includes-before c d s))
]

group_2002 : (second : ℕ) → is_private_group 0x2002 second ≡ false
unfolding is_private_group
group_2002 second = refl

-- A 6to4 address without a dot is not private.
six_to_four-groups :
    (rest : String) (second : ℕ)
    → includes b'.' rest ≡ false
    → parse_hex (or_zero (before b':' rest)) ≡ some second
    → by_hextets (joined "2002:" rest) ≡ false
unfolding by_hextets is_private_6to4 joined slice_from
six_to_four-groups rest second dotless group =
    rw (group, group_2002 second, includes-before b'.' b':' rest dotless) (ground arith)

zoneless_lem :
    (rest : String)
    → includes b'%' rest ≡ false
    → before b'%' (joined "2002:" rest) ≡ joined "2002:" rest
unfolding before joined
zoneless_lem rest h = rw (before_of_absent b'%' rest h) refl

abbrev head : String → ℕ
head String.[] = 0
head (String.◌∷◌ c s) = code c

different_heads : (s t : String) → head s ≢ head t → str_eq s t ≡ false
different_heads s t h = elim (Bool-cases (str_eq s t)) [
  | inl same ↦ absurd (h (ap head ((eq_iff s t).0 same)))
  | inr other ↦ other
]

not_loopback :
    (rest : String)
    → (str_eq (joined "2002:" rest) "::" || str_eq (joined "2002:" rest) "::1") ≡ false
unfolding joined
not_loopback rest =
    rw
      (
        different_heads (joined "2002:" rest) "::" (omega arith),
        different_heads (joined "2002:" rest) "::1" (omega arith),
      )
      refl

not_mapped : (rest : String) → starts_with "::ffff:" (joined "2002:" rest) ≡ false
unfolding joined starts_with
not_mapped rest = refl

-- An address 2002:… of 6to4, in its usual spelling without a dot and without a zone, is never
-- refused, whatever IPv4 address its second and third group hold.
pub six_to_four_is_allowed :
    (platform : Platform) (ip rest : String) (second : ℕ)
    → is_ipv4 ip ≡ false
    → platform.is_ipv6 ip ≡ true
    → platform.to_lower_case ip ≡ joined "2002:" rest
    → includes b'%' rest ≡ false
    → includes b'.' rest ≡ false
    → parse_hex (or_zero (before b':' rest)) ≡ some second
    → is_blocked_outbound_address platform ip ≡ false
unfolding is_blocked_outbound_address is_private_ipv6
six_to_four_is_allowed platform ip rest second not_v4 v6 lower zoneless dotless group =
    rw (not_v4, v6, lower, zoneless_lem rest zoneless, not_loopback rest, not_mapped rest)
      (six_to_four-groups rest second dotless group)
