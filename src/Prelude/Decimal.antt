-- ===== src/Prelude/Decimal.antt =====
-- The decimal text of a number, `n.toString()`, and its way back through `Number`.
use Prim.Native.Nat.{ℕ, zero, suc, ◌+◌, ◌/◌, ◌%◌, ◌<◌}
use Prim.Native.Char.{Char, code}
use Prim.Native.String.{String, ◌∷◌, []}
use mathlib.Core.Bool.{true, false}
use mathlib.Core.Option.{some}
use mathlib.Core.Path.{◌≡◌, refl, ◌∙◌, ap}
use mathlib.Core.Logic.{inl, inr}
use native.Mathlib.Omega.{arith}
use saa_sweave.Prelude.Tests.{ltb, if◌then◌else◌, Bool-cases}
use saa_sweave.Prelude.Text.{is_empty, are_digits, decimal_from, to_number}

unfoldable digit : ℕ → Char
digit zero = "0"
digit (suc zero) = "1"
digit (suc (suc zero)) = "2"
digit (suc (suc (suc zero))) = "3"
digit (suc (suc (suc (suc zero)))) = "4"
digit (suc (suc (suc (suc (suc zero))))) = "5"
digit (suc (suc (suc (suc (suc (suc zero)))))) = "6"
digit (suc (suc (suc (suc (suc (suc (suc zero))))))) = "7"
digit (suc (suc (suc (suc (suc (suc (suc (suc zero)))))))) = "8"
digit _ = "9"

code-digit : (d : ℕ) → d < 10 → code (digit d) ≡ b'0' + d
unfolding digit
code-digit zero h = refl
code-digit (suc zero) h = refl
code-digit (suc (suc zero)) h = refl
code-digit (suc (suc (suc zero))) h = refl
code-digit (suc (suc (suc (suc zero)))) h = refl
code-digit (suc (suc (suc (suc (suc zero))))) h = refl
code-digit (suc (suc (suc (suc (suc (suc zero)))))) h = refl
code-digit (suc (suc (suc (suc (suc (suc (suc zero))))))) h = refl
code-digit (suc (suc (suc (suc (suc (suc (suc (suc zero)))))))) h = refl
code-digit (suc (suc (suc (suc (suc (suc (suc (suc (suc zero))))))))) h = refl
code-digit (suc (suc (suc (suc (suc (suc (suc (suc (suc (suc d)))))))))) h = absurd (omega arith)

-- Prints the digits of the number before a text; fuel beyond the number is enough.
unfoldable print_before : ℕ → ℕ → String → String
print_before zero n s = s
print_before (suc fuel) n s =
    let rest = print_before fuel (n / 10) (digit (n % 10) ∷ s) in
    if ltb n 10 then digit n ∷ s else rest

unfoldable pub decimal : ℕ → String
unfolding print_before digit
decimal n = print_before (suc n) n []

decimal-print_before :
    (fuel n : ℕ) (s : String) → n < fuel → decimal_from 0 (print_before fuel n s) ≡ decimal_from n s
unfolding print_before decimal_from
decimal-print_before zero n s h = absurd (omega arith)
decimal-print_before (suc fuel) n s h = elim (Bool-cases (ltb n 10)) [
  | inl small ↦ rw small (ap (λ m. decimal_from m s) (ground (arith, code-digit n)))
  | inr large ↦ rw large (
      decimal-print_before fuel (n / 10) (digit (n % 10) ∷ s) (ground arith)
      ∙ ap (λ m. decimal_from m s) (ground (arith, code-digit (n % 10))))
]

digits-print_before :
    (fuel n : ℕ) (s : String)
    → n < fuel
    → are_digits s ≡ true
    → (are_digits (print_before fuel n s) ≡ true) × (is_empty (print_before fuel n s) ≡ false)
unfolding print_before are_digits
digits-print_before zero n s h ds = absurd (omega arith)
digits-print_before (suc fuel) n s h ds = ground (
  arith,
  code-digit n,
  code-digit (n % 10),
  digits-print_before fuel (n / 10) (digit (n % 10) ∷ s),
)

-- The text of a number is read back as the number.
pub to_number-decimal : (n : ℕ) → (to_number (decimal n) ≡ some n) × (is_empty (decimal n) ≡ false)
unfolding decimal to_number
to_number-decimal n =
    let (digits, filled) =
      digits-print_before (suc n) n [] (omega arith) (unfold are_digits in refl) in
    (
      rw digits
          (ap some (decimal-print_before (suc n) n [] (omega arith) ∙ unfold decimal_from in refl)),
      filled,
    )
