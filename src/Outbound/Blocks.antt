-- ===== src/Outbound/Blocks.antt =====
-- `isPrivateIPv4` of packages/core/src/security/outbound-url-policy.ts against the blocks of
-- addresses that it stands for.
use saa_sweave.Prelude.{
  ℕ, ◌+◌, ◌-◌, ◌*◌, ◌/◌, ◌^◌, ◌<◌, Bool, ◌&&◌, ◌||◌, some, List, [], ◌∷◌, ◌≡◌, arith, ◌==◌, any,
}
use saa_sweave.Outbound.Address.{is_num, is_between, is_at_least, is_private}

-- The number of an address.
abbrev pub address : (a b c d : ℕ) → ℕ
address a b c d = ((a * 256 + b) * 256 + c) * 256 + d

-- A network and its number of free bits.
pub record Block : Type 0 where
  pub network : ℕ
  pub free_bits : ℕ

abbrev block : (a b c d prefix : ℕ) → Block
block a b c d prefix = record { network = address a b c d; free_bits = 32 - prefix }

unfoldable pub is_in : ℕ → Block → Bool
is_in v b = v / 2 ^ b.free_bits == b.network / 2 ^ b.free_bits

-- The blocks of the Internet registry for special purposes that the code names, in its order.
abbrev pub special_blocks : List Block
special_blocks =
    block 0 0 0 0 8
    ∷ block 10 0 0 0 8
    ∷ block 127 0 0 0 8
    ∷ block 169 254 0 0 16
    ∷ block 172 16 0 0 12
    ∷ block 192 168 0 0 16
    ∷ block 100 64 0 0 10
    ∷ block 192 0 0 0 24
    ∷ block 192 0 2 0 24
    ∷ block 198 18 0 0 15
    ∷ block 198 51 100 0 24
    ∷ block 203 0 113 0 24
    ∷ block 224 0 0 0 4
    ∷ block 240 0 0 0 4
    ∷ []

module _ (a b c d : ℕ) (ha : a < 256) (hb : b < 256) (hc : c < 256) (hd : d < 256) where
  in_first : (x : ℕ) → x < 256 → is_in (address a b c d) (block x 0 0 0 8) ≡ is_num x (some a)
  unfolding is_in
  in_first x h = ground arith

  in_second :
      (x y : ℕ)
      → x < 256
      → y < 256
      → is_in (address a b c d) (block x y 0 0 16) ≡ (is_num x (some a) && is_num y (some b))
  unfolding is_in
  in_second x y hx hy = ground arith

  in_third :
      (x y z : ℕ)
      → x < 256
      → y < 256
      → z < 256
      → is_in (address a b c d) (block x y z 0 24)
        ≡ (is_num x (some a) && is_num y (some b) && is_num z (some c))
  unfolding is_in
  in_third x y z hx hy hz = ground arith

  in_172 :
      is_in (address a b c d) (block 172 16 0 0 12)
      ≡ (is_num 172 (some a) && is_between 16 31 (some b))
  unfolding is_in
  in_172 = ground arith

  in_100 :
      is_in (address a b c d) (block 100 64 0 0 10)
      ≡ (is_num 100 (some a) && is_between 64 127 (some b))
  unfolding is_in
  in_100 = ground arith

  in_198 :
      is_in (address a b c d) (block 198 18 0 0 15)
      ≡ (is_num 198 (some a) && (is_num 18 (some b) || is_num 19 (some b)))
  unfolding is_in
  in_198 = ground arith

  in_224 : is_in (address a b c d) (block 224 0 0 0 4) ≡ is_between 224 239 (some a)
  unfolding is_in
  in_224 = ground arith

  in_240 : is_in (address a b c d) (block 240 0 0 0 4) ≡ is_at_least 240 (some a)
  unfolding is_in
  in_240 = ground arith

  -- An IPv4 address is refused exactly if it lies in one of the special blocks.
  pub is_private-special_blocks :
      is_private (some a) (some b) (some c) (some d) ≡ any (is_in (address a b c d)) special_blocks
  unfolding is_private
  is_private-special_blocks =
      rw
        (
          in_first 0 (omega arith),
          in_first 10 (omega arith),
          in_first 127 (omega arith),
          in_second 169 254 (omega arith) (omega arith),
          in_172,
          in_second 192 168 (omega arith) (omega arith),
          in_100,
          in_third 192 0 0 (omega arith) (omega arith) (omega arith),
          in_third 192 0 2 (omega arith) (omega arith) (omega arith),
          in_198,
          in_third 198 51 100 (omega arith) (omega arith) (omega arith),
          in_third 203 0 113 (omega arith) (omega arith) (omega arith),
          in_224,
          in_240,
        )
        (ground arith)
