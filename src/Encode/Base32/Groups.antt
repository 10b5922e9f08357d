-- ===== src/Encode/Base32/Groups.antt =====
-- The bits of five bytes and of eight base32 values.
use lfz.Prelude.{ℕ, ◌+◌, ◌*◌, ◌/◌, ◌%◌, ◌<◌, ◌≡◌, refl, arith, IsByte, ◌==◌, ==_iff, Bytes, ◌∷◌}
use lfz.Prelude.Bits.{
  holds_below, holds_below-at, bit_and_1, bit_and_3, bit_and_7, bit_and_f, bit_and_1f,
}
use lfz.Prelude.Bits.{bit_or_2, bit_or_4, bit_or_8, bit_or_16, bit_or_32, bit_or_64, bit_or_128}
use lfz.Encode.Base32.{
  digit, next, quintet_1, quintet_2, quintet_3, quintet_4, quintet_5, quintet_6, quintet_7,
}
use lfz.Encode.Base32.{byte_1, byte_2, byte_3, byte_4, byte_5}
use lfz.Encode.Base32.Tables.{
  Base32Type, standard, base32hex, locale_safe, base32_chars, char_value,
}

-- The values of five bytes.
pub quintet_1_lem : (c1 : ℕ) → IsByte c1 → quintet_1 c1 ≡ c1 / 8
quintet_1_lem c1 h = omega (arith, bit_and_1f (c1 / 8))

pub quintet_2_lem : (c1 c2 : ℕ) → IsByte c1 → IsByte c2 → quintet_2 c1 c2 ≡ c1 % 8 * 4 + c2 / 64
quintet_2_lem c1 c2 h k =
    rw (bit_and_7 c1 h, bit_and_3 (c2 / 64) (omega arith))
      (omega (arith, bit_or_4 (c1 % 8) (c2 / 64 % 4)))

pub quintet_3_lem : (c2 : ℕ) → IsByte c2 → quintet_3 c2 ≡ c2 / 2 % 32
quintet_3_lem c2 h = bit_and_1f (c2 / 2) (omega arith)

pub quintet_4_lem : (c2 c3 : ℕ) → IsByte c2 → IsByte c3 → quintet_4 c2 c3 ≡ c2 % 2 * 16 + c3 / 16
quintet_4_lem c2 c3 h k =
    rw (bit_and_1 c2 h, bit_and_f (c3 / 16) (omega arith))
      (omega (arith, bit_or_16 (c2 % 2) (c3 / 16 % 16)))

pub quintet_5_lem : (c3 c4 : ℕ) → IsByte c3 → IsByte c4 → quintet_5 c3 c4 ≡ c3 % 16 * 2 + c4 / 128
quintet_5_lem c3 c4 h k =
    rw (bit_and_f c3 h, bit_and_1 (c4 / 128) (omega arith))
      (omega (arith, bit_or_2 (c3 % 16) (c4 / 128 % 2)))

pub quintet_6_lem : (c4 : ℕ) → IsByte c4 → quintet_6 c4 ≡ c4 / 4 % 32
quintet_6_lem c4 h = bit_and_1f (c4 / 4) (omega arith)

pub quintet_7_lem : (c4 c5 : ℕ) → IsByte c4 → IsByte c5 → quintet_7 c4 c5 ≡ c4 % 4 * 8 + c5 / 32
quintet_7_lem c4 c5 h k =
    rw (bit_and_3 c4 h, bit_and_7 (c5 / 32) (omega arith))
      (omega (arith, bit_or_8 (c4 % 4) (c5 / 32 % 8)))

-- The bytes of values.
pub byte_1_lem : (a b : ℕ) → a < 32 → b < 32 → byte_1 a b ≡ a * 8 + b / 4
byte_1_lem a b ha hb = rw (bit_and_7 (b / 4) (omega arith)) (omega (arith, bit_or_8 a (b / 4 % 8)))

pub byte_2_lem : (a b c : ℕ) → a < 32 → b < 32 → c < 32 → byte_2 a b c ≡ a % 4 * 64 + b * 2 + c / 16
byte_2_lem a b c ha hb hc =
    let high : a % 4 * 64 + b * 2 ≡ (a % 4 * 32 + b) * 2 = omega arith in
    rw
      (
        bit_and_3 a (omega arith),
        bit_and_1 (c / 16) (omega arith),
        bit_or_64 (a % 4) (b * 2) (omega arith) (omega arith),
        high,
      )
      (omega (arith, bit_or_2 (a % 4 * 32 + b) (c / 16 % 2)))

pub byte_3_lem : (a b : ℕ) → a < 32 → b < 32 → byte_3 a b ≡ a % 16 * 16 + b / 2
byte_3_lem a b ha hb = rw (bit_and_f a (omega arith)) (omega (arith, bit_or_16 (a % 16) (b / 2)))

pub byte_4_lem : (a b c : ℕ) → a < 32 → b < 32 → c < 32 → byte_4 a b c ≡ a % 2 * 128 + b * 4 + c / 8
byte_4_lem a b c ha hb hc =
    let high : a % 2 * 128 + b * 4 ≡ (a % 2 * 32 + b) * 4 = omega arith in
    rw
      (
        bit_and_1 a (omega arith),
        bit_and_3 (c / 8) (omega arith),
        bit_or_128 (a % 2) (b * 4) (omega arith) (omega arith),
        high,
      )
      (omega (arith, bit_or_4 (a % 2 * 32 + b) (c / 8 % 4)))

pub byte_5_lem : (a b : ℕ) → a < 32 → b < 32 → byte_5 a b ≡ a % 8 * 32 + b
byte_5_lem a b ha hb = rw (bit_and_7 a (omega arith)) (omega (arith, bit_or_32 (a % 8) b))

-- The decoder's tables invert the alphabets.
pub char_value-digit : (type : Base32Type) (k : ℕ) → k < 32 → char_value type (digit type k) ≡ k
unfolding base32_chars char_value holds_below
char_value-digit standard k h =
    (==_iff _ _).0 (holds_below-at (λ k. char_value standard (digit standard k) == k) 32 k h refl)
char_value-digit base32hex k h =
    (==_iff _ _).0 (holds_below-at (λ k. char_value base32hex (digit base32hex k) == k) 32 k h refl)
char_value-digit locale_safe k h =
    (==_iff _ _).0
      (holds_below-at (λ k. char_value locale_safe (digit locale_safe k) == k) 32 k h refl)

pub next-digit :
    (type : Base32Type) (k : ℕ) (s : Bytes) → k < 32 → next type (digit type k ∷ s) 0 ≡ (k, s, 0)
unfolding next
next-digit type k s h = ground (arith, char_value-digit type k h)
