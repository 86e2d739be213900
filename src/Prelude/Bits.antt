-- ===== src/Prelude/Bits.antt =====
-- JavaScript's `&` against masks of leading ones.
use Prim.Native.Nat.{ℕ, zero, suc, ◌+◌, ◌*◌, ◌/◌, ◌%◌, ◌≤◌, min, bit_and, digits, bit_and-bitwise}
use mathlib.Core.Path.{◌≡◌, refl, sym, ap, ◌∙◌}
use mathlib.Core.Logic.{◌↔◌}
use native.Mathlib.Omega.{arith}

-- The digitwise minimum with a bound on the number of digits.
abbrev common : ℕ → ℕ → ℕ → ℕ
common bound x y = digits (λ rest. zero) min bound x y

common-zero : (k y : ℕ) → common k 0 y ≡ 0
common-zero zero y = refl
common-zero (suc k) y = refl

-- Any bound that reaches the number gives the same digits.
common_agree : (j k x y : ℕ) → x ≤ j → x ≤ k → common j x y ≡ common k x y
common_agree j k zero y g h = common-zero j y ∙ sym (common-zero k y)
common_agree zero k (suc x) y g h = absurd (omega arith)
common_agree (suc j) zero (suc x) y g h = absurd (omega arith)
common_agree (suc j) (suc k) (suc x) y g h =
    let halves = common_agree j k (suc x / 2) (y / 2) (omega (arith, g)) (omega (arith, h)) in
    ap (λ r. r * 2 + min (suc x % 2) (y % 2)) halves

and-zero_left : (y : ℕ) → bit_and 0 y ≡ 0
and-zero_left y = bit_and-bitwise 0 y

-- Halving a positive number leaves fewer digits to go.
and_halves :
    (x y : ℕ) → bit_and (suc x) y ≡ bit_and (suc x / 2) (y / 2) * 2 + min (suc x % 2) (y % 2)
and_halves x y =
    let h = suc x / 2 in
    bit_and-bitwise (suc x) y
    ∙ ap (λ r. r * 2 + min (suc x % 2) (y % 2))
        (common_agree x h h (y / 2) (omega arith) (omega arith) ∙ sym (bit_and-bitwise h (y / 2)))

and_even : (x m : ℕ) → bit_and x (2 * m) ≡ 2 * bit_and (x / 2) m
and_even zero m = omega (arith, and-zero_left (2 * m), and-zero_left m)
and_even (suc x) m =
    let half : 2 * m / 2 ≡ m = omega arith in omega (arith, rw half at (and_halves x (2 * m)))

and_odd : (x m : ℕ) → bit_and x (2 * m + 1) ≡ 2 * bit_and (x / 2) m + x % 2
and_odd zero m = omega (arith, and-zero_left (2 * m + 1), and-zero_left m)
and_odd (suc x) m =
    let half : (2 * m + 1) / 2 ≡ m = omega arith in
    omega (arith, rw half at (and_halves x (2 * m + 1)))

-- `n` ones; `m` with `k` zeros behind it; `x` without its last `k` bits.
abbrev pub ones : ℕ → ℕ
ones zero = 0
ones (suc n) = 2 * ones n + 1

abbrev pub shifted : ℕ → ℕ → ℕ
shifted zero m = m
shifted (suc k) m = 2 * shifted k m

abbrev pub without_last : ℕ → ℕ → ℕ
without_last zero x = x
without_last (suc k) x = without_last k (x / 2)

zero_of : (x : ℕ) → x ≤ 0 → x ≡ 0
zero_of x h = omega (arith, h)

and-ones : (n x : ℕ) → x ≤ ones n → bit_and x (ones n) ≡ x
and-ones zero x h = omega (arith, ap (λ z. bit_and z 0) (zero_of x h), and-zero_left 0, zero_of x h)
and-ones (suc n) x h = omega (arith, and_odd x (ones n), and-ones n (x / 2) (omega (arith, h)))

and-shifted : (k m x : ℕ) → bit_and x (shifted k m) ≡ shifted k (bit_and (without_last k x) m)
and-shifted zero m x = refl
and-shifted (suc k) m x = omega (arith, and_even x (shifted k m), and-shifted k m (x / 2))

shifted_injective : (k x y : ℕ) → shifted k x ≡ shifted k y → x ≡ y
shifted_injective zero x y e = e
shifted_injective (suc k) x y e = shifted_injective k x y (omega (arith, e))

without_last_fits : (k n x : ℕ) → x ≤ shifted k (ones n) + ones k → without_last k x ≤ ones n
without_last_fits zero n x h = omega (arith, h)
without_last_fits (suc k) n x h = without_last_fits k n (x / 2) (omega (arith, h))

-- Two numbers agree under a mask of `n` ones and `k` zeros exactly if they agree in their first bits.
pub mask_agrees :
    (n k x y : ℕ)
    → x ≤ shifted k (ones n) + ones k
    → y ≤ shifted k (ones n) + ones k
    → (bit_and x (shifted k (ones n)) ≡ bit_and y (shifted k (ones n)))
      ↔ (without_last k x ≡ without_last k y)
mask_agrees n k x y hx hy =
    let ex = and-shifted k (ones n) x in
    let ey = and-shifted k (ones n) y in
    let fx = and-ones n (without_last k x) (without_last_fits k n x hx) in
    let fy = and-ones n (without_last k y) (without_last_fits k n y hy) in
    (
      λ e.
          sym fx
          ∙ shifted_injective k (bit_and (without_last k x) (ones n))
              (bit_and (without_last k y) (ones n)) (sym ex ∙ e ∙ ey)
          ∙ fy,
      λ e. ex ∙ ap (λ z. shifted k (bit_and z (ones n))) e ∙ sym ey,
    )
