-- ===== src/Base/Decimal.antt =====
-- Decimal numerals: `String(n)` and `Number(s)` on a natural number.
use Prim.Native.Nat.{ℕ, zero, suc, ◌+◌, ◌-◌, ◌*◌, ◌/◌, ◌%◌, ◌<◌}
use mathlib.Core.Path.{◌≡◌, refl}
use mathlib.Core.List.{[], ◌∷◌, ◌++◌}
use native.Mathlib.Omega.{arith}
use pve_agent.Base.Tests.{ltb, if◌then◌else◌}
use pve_agent.Base.Strings.{Text}

-- Reading digits behind the number `n`.
unfoldable pub digits_value : ℕ → Text → ℕ
digits_value n [] = n
digits_value n (c ∷ s) = digits_value (n * 10 + (c - b'0')) s

unfoldable pub print_digits : ℕ → ℕ → Text
print_digits zero n = []
print_digits (suc fuel) n =
    let high = print_digits fuel (n / 10) in
    if ltb n 10 then (b'0' + n) ∷ [] else high ++ (b'0' + n % 10) ∷ []

-- A number has fewer digits than its value plus one.
unfoldable pub print_nat : ℕ → Text
unfolding print_digits
print_nat n = print_digits (suc n) n

digits_value-append :
    (s t : Text) (n : ℕ) → digits_value n (s ++ t) ≡ digits_value (digits_value n s) t
unfolding digits_value
digits_value-append [] t n = refl
digits_value-append (c ∷ s) t n = digits_value-append s t (n * 10 + (c - b'0'))

digits_value-print_digits : (fuel n : ℕ) → n < fuel → digits_value 0 (print_digits fuel n) ≡ n
unfolding digits_value print_digits
digits_value-print_digits zero n h = absurd (omega arith)
digits_value-print_digits (suc fuel) n h = ground (
  arith,
  digits_value-print_digits fuel (n / 10),
  digits_value-append (print_digits fuel (n / 10)) ((b'0' + n % 10) ∷ []) 0,
)

-- Printing a number and reading the digits gives the number.
pub digits_value-print_nat : (n : ℕ) → digits_value 0 (print_nat n) ≡ n
unfolding print_nat
digits_value-print_nat n = digits_value-print_digits (suc n) n (omega arith)
