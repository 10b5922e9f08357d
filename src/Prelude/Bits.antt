-- ===== src/Prelude/Bits.antt =====
-- Facts about small numbers by evaluation at every value.
use Prim.Native.Nat.{ℕ, zero, suc, ◌+◌, ◌*◌, ◌/◌, ◌%◌, ◌<◌, bit_and, bit_or}
use mathlib.Core.Path.{◌≡◌, refl}
use mathlib.Core.Bool.{Bool, true, false}
use native.Mathlib.Omega.{arith}
use lfz.Prelude.Tests.{◌==◌, ==_iff, if◌then◌else◌}

-- A test at every value up to `n`, the greatest first.
unfoldable pub holds_below : (ℕ → Bool) → ℕ → Bool
holds_below test zero = true
holds_below test (suc n) = if test n then holds_below test n else false

pub holds_below-at :
    (test : ℕ → Bool) (bound x : ℕ) → x < bound → holds_below test bound ≡ true → test x ≡ true
unfolding holds_below
holds_below-at test zero x below h = absurd (omega arith)
holds_below-at test (suc bound) x below h = ground (arith, holds_below-at test bound x)

-- Masks of one to six ones.
pub bit_and_1 : (x : ℕ) → x < 256 → bit_and x 0x1 ≡ x % 2
bit_and_1 x h =
    (==_iff _ _).0
      (holds_below-at (λ x. bit_and x 0x1 == x % 2) 256 x h (unfold holds_below in refl))

pub bit_and_3 : (x : ℕ) → x < 256 → bit_and x 0x3 ≡ x % 4
bit_and_3 x h =
    (==_iff _ _).0
      (holds_below-at (λ x. bit_and x 0x3 == x % 4) 256 x h (unfold holds_below in refl))

pub bit_and_7 : (x : ℕ) → x < 256 → bit_and x 0x7 ≡ x % 8
bit_and_7 x h =
    (==_iff _ _).0
      (holds_below-at (λ x. bit_and x 0x7 == x % 8) 256 x h (unfold holds_below in refl))

pub bit_and_f : (x : ℕ) → x < 256 → bit_and x 0xf ≡ x % 16
bit_and_f x h =
    (==_iff _ _).0
      (holds_below-at (λ x. bit_and x 0xf == x % 16) 256 x h (unfold holds_below in refl))

pub bit_and_1f : (x : ℕ) → x < 256 → bit_and x 0x1f ≡ x % 32
bit_and_1f x h =
    (==_iff _ _).0
      (holds_below-at (λ x. bit_and x 0x1f == x % 32) 256 x h (unfold holds_below in refl))

pub bit_and_3f : (x : ℕ) → x < 256 → bit_and x 0x3f ≡ x % 64
bit_and_3f x h =
    (==_iff _ _).0
      (holds_below-at (λ x. bit_and x 0x3f == x % 64) 256 x h (unfold holds_below in refl))

-- The bits of a byte split at a power of two, and joined again.
split_joins : ℕ → ℕ → Bool
split_joins m x = bit_or (x / m * m) (x % m) == x

-- `|` of words with no common bit is their sum, inside a byte.
bit_or_sum :
    (m u v : ℕ)
    → holds_below (split_joins m) 256 ≡ true
    → (u * m + v) / m * m ≡ u * m
    → (u * m + v) % m ≡ v
    → u * m + v < 256
    → bit_or (u * m) v ≡ u * m + v
unfolding split_joins
bit_or_sum m u v table hi lo h =
    rw (hi, lo) at ((==_iff _ _).0 (holds_below-at (split_joins m) 256 (u * m + v) h table))

pub bit_or_2 : (u v : ℕ) → v < 2 → u * 2 + v < 256 → bit_or (u * 2) v ≡ u * 2 + v
unfolding holds_below split_joins
bit_or_2 u v hv h = bit_or_sum 2 u v refl (omega arith) (omega arith) h

pub bit_or_4 : (u v : ℕ) → v < 4 → u * 4 + v < 256 → bit_or (u * 4) v ≡ u * 4 + v
unfolding holds_below split_joins
bit_or_4 u v hv h = bit_or_sum 4 u v refl (omega arith) (omega arith) h

pub bit_or_8 : (u v : ℕ) → v < 8 → u * 8 + v < 256 → bit_or (u * 8) v ≡ u * 8 + v
unfolding holds_below split_joins
bit_or_8 u v hv h = bit_or_sum 8 u v refl (omega arith) (omega arith) h

pub bit_or_16 : (u v : ℕ) → v < 16 → u * 16 + v < 256 → bit_or (u * 16) v ≡ u * 16 + v
unfolding holds_below split_joins
bit_or_16 u v hv h = bit_or_sum 16 u v refl (omega arith) (omega arith) h

pub bit_or_32 : (u v : ℕ) → v < 32 → u * 32 + v < 256 → bit_or (u * 32) v ≡ u * 32 + v
unfolding holds_below split_joins
bit_or_32 u v hv h = bit_or_sum 32 u v refl (omega arith) (omega arith) h

pub bit_or_64 : (u v : ℕ) → v < 64 → u * 64 + v < 256 → bit_or (u * 64) v ≡ u * 64 + v
unfolding holds_below split_joins
bit_or_64 u v hv h = bit_or_sum 64 u v refl (omega arith) (omega arith) h

pub bit_or_128 : (u v : ℕ) → v < 128 → u * 128 + v < 256 → bit_or (u * 128) v ≡ u * 128 + v
unfolding holds_below split_joins
bit_or_128 u v hv h = bit_or_sum 128 u v refl (omega arith) (omega arith) h
