-- ===== src/Prelude/Int.antt =====
-- Signed numbers. Negative n is `negsuc (n - 1)`; a sum is worked out on the positive and the negative
-- parts.
use Prim.Native.Nat.{ℕ, suc, ◌+◌, ◌-◌, ◌*◌, ◌/◌, ◌%◌}
use mathlib.Core.Path.{◌≡◌}
use mathlib.Core.Bool.{Bool, true, false}
use native.Mathlib.Omega.{arith}
use lfz.Prelude.Tests.{ltb, ◌==◌, if◌then◌else◌}

pub data ℤ : Type 0 where
  pos negsuc : ℕ → ℤ

abbrev pub pos_part : ℤ → ℕ
pos_part (pos n) = n
pos_part (negsuc n) = 0

abbrev pub neg_part : ℤ → ℕ
neg_part (pos n) = 0
neg_part (negsuc n) = suc n

-- `a - b`.
abbrev pub difference : ℕ → ℕ → ℤ
difference a b = if ltb a b then negsuc (b - a - 1) else pos (a - b)

infixl 65 ◌+ℤ◌ ◌-ℤ◌
unfoldable pub ◌+ℤ◌ : ℤ → ℤ → ℤ
x +ℤ y = difference (pos_part x + pos_part y) (neg_part x + neg_part y)

unfoldable pub ◌-ℤ◌ : ℤ → ℤ → ℤ
x -ℤ y = difference (pos_part x + neg_part y) (neg_part x + pos_part y)

abbrev pub negative : ℤ → ℤ
negative x = difference (neg_part x) (pos_part x)

abbrev pub magnitude : ℤ → ℕ
magnitude x = pos_part x + neg_part x

abbrev pub is_negative : ℤ → Bool
is_negative (pos n) = false
is_negative (negsuc n) = true

-- Times a positive number.
abbrev pub scale : ℤ → ℕ → ℤ
scale x k = difference (pos_part x * k) (neg_part x * k)

-- Division and remainder of C++, towards zero, by a positive number.
abbrev pub quotient : ℤ → ℕ → ℤ
quotient x k = difference (pos_part x / k) (neg_part x / k)

abbrev pub remainder : ℤ → ℕ → ℤ
remainder x k = difference (pos_part x % k) (neg_part x % k)

abbrev pub ltb_ℤ : ℤ → ℤ → Bool
ltb_ℤ x y = ltb (pos_part x + neg_part y) (pos_part y + neg_part x)

infix 50 ◌==ℤ◌
abbrev pub ◌==ℤ◌ : ℤ → ℤ → Bool
x ==ℤ y = pos_part x + neg_part y == pos_part y + neg_part x

pub +ℤ_zero : (x : ℤ) → x +ℤ pos 0 ≡ x
unfolding ◌+ℤ◌
+ℤ_zero x = ground arith

pub -ℤ+ℤ_cancel : (x y : ℤ) → x -ℤ y +ℤ y ≡ x
unfolding ◌+ℤ◌ ◌-ℤ◌
-ℤ+ℤ_cancel x y = ground arith
