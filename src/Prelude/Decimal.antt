-- ===== src/Prelude/Decimal.antt =====
-- Numbers in decimal, as `fmt.Sprintf` prints them.
use Prim.Native.Nat.{ℕ, zero, suc, ◌/◌, ◌%◌}
use Prim.Native.String
use Prim.Native.String.{String}
use mathlib.Core.Bool.{true, false}
use orion_belt.Prelude.Int.{negsuc, pos, ℤ}
use orion_belt.Prelude.Tests.{eqb, if◌then◌else◌, ltb}

digit : ℕ → String
digit d =
    if eqb d 0
    then "0"
    else if eqb d 1
    then "1"
    else if eqb d 2
    then "2"
    else if eqb d 3
    then "3"
    else if eqb d 4
    then "4"
    else if eqb d 5
    then "5"
    else if eqb d 6
    then "6"
    else if eqb d 7
    then "7"
    else if eqb d 8
    then "8"
    else "9"

-- One digit for each unit of fuel; a number has no more digits than its successor counts.
digits_of : ℕ → ℕ → String
digits_of zero n = ""
digits_of (suc fuel) n = elim (ltb n 10) [
  | true ↦ digit n
  | false ↦ String.◌++◌ (digits_of fuel (n / 10)) (digit (n % 10))
]

-- %d
unfoldable pub decimal : ℕ → String
unfolding digits_of digit
decimal n = digits_of (suc n) n

unfoldable pub decimal_ℤ : ℤ → String
unfolding decimal
decimal_ℤ (pos n) = decimal n
decimal_ℤ (negsuc n) = String.◌++◌ "-" (decimal (suc n))

-- %02d
unfoldable pub two_digits : ℕ → String
unfolding decimal
two_digits n = if ltb n 10 then String.◌++◌ "0" (decimal n) else decimal n

unfoldable pub two_digits_ℤ : ℤ → String
unfolding two_digits decimal
two_digits_ℤ (pos n) = two_digits n
two_digits_ℤ (negsuc n) = String.◌++◌ "-" (decimal (suc n))
