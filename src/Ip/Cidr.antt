-- ===== src/Ip/Cidr.antt =====
-- `ipMatchesRule` against its meaning: a range holds the addresses that begin with its first bits.
use saa_sweave.Prelude.{
  ℕ, zero, suc, ◌+◌, ◌-◌, ◌*◌, ◌^◌, ◌%◌, ◌≤◌, String, ◌≡◌, refl, ◌↔◌, Bool, true, not, ◌&&◌, some,
  List, [], ◌∷◌, arith, ◌==◌, ==_iff,
}
use Prim.Native.Nat.{bit_and}
use saa_sweave.Prelude.Bits.{ones, shifted, without_last, mask_agrees}
use saa_sweave.Prelude.Text.{trim, split, includes, to_number, decimal_from}
use saa_sweave.Ip.{is_ipv4, ipv4_to_int, from_octets, mask_of, is_out_of_range, ip_matches_rule}

-- A range check over the prefixes, by evaluation.
abbrev every_prefix : ℕ → (ℕ → Bool) → Bool
every_prefix zero test = test 0
every_prefix (suc n) test = test (suc n) && every_prefix n test

every_prefix_lem :
    (n : ℕ) (test : ℕ → Bool) (p : ℕ) → every_prefix n test ≡ true → p ≤ n → test p ≡ true
every_prefix_lem zero test zero h le = h
every_prefix_lem zero test (suc p) h le = absurd (omega arith)
every_prefix_lem (suc n) test p h le = ground (arith, every_prefix_lem n test p)

masks : every_prefix 32 (λ p. mask_of (some p) == shifted (32 - p) (ones p)) ≡ true
masks = refl

all_ones : every_prefix 32 (λ p. shifted (32 - p) (ones p) + ones (32 - p) == 4_294_967_295) ≡ true
all_ones = refl

mask_shifted : (p : ℕ) → p ≤ 32 → mask_of (some p) ≡ shifted (32 - p) (ones p)
mask_shifted p h =
    (==_iff (mask_of (some p)) (shifted (32 - p) (ones p))).0
      (every_prefix_lem 32 (λ p. mask_of (some p) == shifted (32 - p) (ones p)) p masks h)

full_range : (p : ℕ) → p ≤ 32 → shifted (32 - p) (ones p) + ones (32 - p) ≡ 4_294_967_295
full_range p h = (==_iff (shifted (32 - p) (ones p) + ones (32 - p)) 4_294_967_295).0 (
    every_prefix_lem 32 (λ p. shifted (32 - p) (ones p) + ones (32 - p) == 4_294_967_295) p all_ones
      h)

octets_bounded :
    (acc : ℕ) (parts : List String) → acc ≤ 4_294_967_295 → from_octets acc parts ≤ 4_294_967_295
octets_bounded acc [] h = h
octets_bounded acc (o ∷ rest) h =
    octets_bounded ((acc * 256 + decimal_from 0 o) % 2 ^ 32) rest (omega arith)

ipv4_to_int_bounded : (ip : String) → ipv4_to_int ip ≤ 4_294_967_295
unfolding ipv4_to_int
ipv4_to_int_bounded ip = octets_bounded 0 (split b'.' ip) (omega arith)

masked_agrees :
    (p : ℕ) (ip network : String)
    → p ≤ 32
    → (bit_and (ipv4_to_int ip) (mask_of (some p))
        ≡ bit_and (ipv4_to_int network) (mask_of (some p)))
      ↔ (without_last (32 - p) (ipv4_to_int ip) ≡ without_last (32 - p) (ipv4_to_int network))
masked_agrees p ip network h = rw (mask_shifted p h) (
    mask_agrees p (32 - p) (ipv4_to_int ip) (ipv4_to_int network)
      (omega (arith, full_range p h, ipv4_to_int_bounded ip))
      (omega (arith, full_range p h, ipv4_to_int_bounded network)))

in_range_test :
    (p x y : ℕ) (Q : Type 0)
    → p ≤ 32
    → (x ≡ y) ↔ Q
    → ((not (is_out_of_range (some p)) && x == y) ≡ true) ↔ Q
in_range_test p x y Q h q = (λ e. q.0 (ground (arith, e)), λ e. let f = q.1 e in ground (arith, f))

-- A rule `network/prefix` with an IPv4 network and a prefix up to 32 matches an IPv4 address exactly
-- if address and network, as 32-bit numbers, are the same without their last 32 - prefix bits.
pub ip_matches_rule_iff :
    (ip rule network prefix_raw : String) (prefix : ℕ)
    → is_ipv4 ip ≡ true
    → includes b'/' (trim rule) ≡ true
    → split b'/' (trim rule) ≡ network ∷ prefix_raw ∷ []
    → is_ipv4 network ≡ true
    → to_number prefix_raw ≡ some prefix
    → prefix ≤ 32
    → (ip_matches_rule ip rule ≡ true) ↔ (
        without_last (32 - prefix) (ipv4_to_int ip)
        ≡ without_last (32 - prefix) (ipv4_to_int network))
unfolding ip_matches_rule
ip_matches_rule_iff ip rule network prefix_raw prefix v slash parts vn number le =
    rw (v, slash, parts, vn, number)
      (in_range_test prefix (bit_and (ipv4_to_int ip) (mask_of (some prefix)))
        (bit_and (ipv4_to_int network) (mask_of (some prefix)))
        (without_last (32 - prefix) (ipv4_to_int ip)
          ≡ without_last (32 - prefix) (ipv4_to_int network))
        le (masked_agrees prefix ip network le))
