-- ===== src/Prelude/Decimal.antt =====
-- Decimal numbers: `std::to_string` of an unsigned value, and `to_integral` of string.hpp.
use Prim.Native.Nat.{ℕ, zero, suc, ◌+◌, ◌-◌, ◌*◌, ◌/◌, ◌%◌, ◌<◌}
use mathlib.Core.Path.{◌≡◌}
use mathlib.Core.Bool.{true, false, ◌||◌}
use mathlib.Core.Option
use mathlib.Core.Option.{Option, none, some}
use mathlib.Core.List.{[], ◌∷◌, ◌++◌}
use native.Mathlib.Omega.{arith}
use lfz.Prelude.Tests.{ltb, ◌==◌, if◌then◌else◌}
use lfz.Prelude.Text.{Bytes}

-- The fuel bounds the digits; 20 are enough for 64 bits.
unfoldable pub to_string_fuel : ℕ → ℕ → Bytes
to_string_fuel zero n = []
to_string_fuel (suc fuel) n = elim (ltb n 10) [
  | true ↦ (b'0' + n) ∷ []
  | false ↦ to_string_fuel fuel (n / 10) ++ ((b'0' + n % 10) ∷ [])
]

unfoldable pub to_string : ℕ → Bytes
unfolding to_string_fuel
to_string n = to_string_fuel 20 n

-- The loop of `to_integral_impl` over an unsigned type of `modulus` values; `none` is the error value.
unfoldable pub to_integral_loop : ℕ → Bytes → ℕ → Option ℕ
to_integral_loop modulus [] ret = some ret
to_integral_loop modulus (c ∷ s) ret =
    if ltb c b'0' || ltb b'9' c
    then none
    else to_integral_loop modulus s ((ret * 10 % modulus + (c - b'0')) % modulus)

-- `ret *= static_cast<T>(-1)`.
unfoldable pub negate : ℕ → ℕ → ℕ
negate modulus n = (modulus - n % modulus) % modulus

-- The digits behind an optional sign; no digit is an error.
unfoldable pub to_integral_digits : ℕ → Bytes → Option ℕ
unfolding to_integral_loop
to_integral_digits modulus [] = none
to_integral_digits modulus (c ∷ s) = to_integral_loop modulus (c ∷ s) 0

unfoldable pub to_integral : ℕ → Bytes → Option ℕ
unfolding to_integral_digits negate
to_integral modulus [] = none
to_integral modulus (c ∷ s) =
    if c == b'-'
    then Option.map (negate modulus) (to_integral_digits modulus s)
    else if c == b'+'
    then to_integral_digits modulus s
    else to_integral_digits modulus (c ∷ s)

-- The digits of a number below 1000.
unfoldable pub three_digits : ℕ → Bytes
three_digits n =
    if ltb n 10
    then (b'0' + n) ∷ []
    else if ltb n 100
    then (b'0' + n / 10) ∷ (b'0' + n % 10) ∷ []
    else (b'0' + n / 100) ∷ (b'0' + n / 10 % 10) ∷ (b'0' + n % 10) ∷ []

pub to_string_three : (n : ℕ) → n < 1000 → to_string n ≡ three_digits n
unfolding to_string three_digits
to_string_three n h = ground arith
