-- ===== src/Encode/Base64/Groups.antt =====
-- The bits of three bytes and of four base64 values.
use lfz.Prelude.{
  ℕ, ◌+◌, ◌*◌, ◌/◌, ◌%◌, ◌<◌, ◌≡◌, refl, arith, IsByte, bit_and, bit_or, ◌==◌, ==_iff, Bytes, ◌∷◌,
}
use lfz.Prelude.Bits.{
  holds_below, holds_below-at, bit_and_3, bit_and_f, bit_and_3f, bit_or_4, bit_or_16, bit_or_64,
}
use lfz.Encode.Base64.{digit, next, byte_1, byte_2, byte_3}
use lfz.Encode.Base64.Tables.{Base64Type, standard, url, base64_chars, char_value}

-- The four values of three bytes.
pub sextet_1 : (c1 : ℕ) → IsByte c1 → bit_and (c1 / 4) 0x3f ≡ c1 / 4
sextet_1 c1 h = omega (arith, bit_and_3f (c1 / 4))

pub sextet_2 :
    (c1 c2 : ℕ)
    → IsByte c1
    → IsByte c2
    → bit_or (bit_and c1 0x3 * 16) (bit_and (c2 / 16) 0xf) ≡ c1 % 4 * 16 + c2 / 16
sextet_2 c1 c2 h1 h2 =
    rw (bit_and_3 c1 h1, bit_and_f (c2 / 16) (omega arith))
      (omega (arith, bit_or_16 (c1 % 4) (c2 / 16 % 16)))

pub sextet_3 :
    (c2 c3 : ℕ)
    → IsByte c2
    → IsByte c3
    → bit_or (bit_and c2 0xf * 4) (bit_and (c3 / 64) 0x3) ≡ c2 % 16 * 4 + c3 / 64
sextet_3 c2 c3 h2 h3 =
    rw (bit_and_f c2 h2, bit_and_3 (c3 / 64) (omega arith))
      (omega (arith, bit_or_4 (c2 % 16) (c3 / 64 % 4)))

-- The three bytes of four values.
pub byte_1_lem : (a b : ℕ) → a < 64 → b < 64 → byte_1 a b ≡ a * 4 + b / 16
byte_1_lem a b ha hb =
    rw (bit_and_3 (b / 16) (omega arith)) (omega (arith, bit_or_4 a (b / 16 % 4)))

pub byte_2_lem : (b c : ℕ) → b < 64 → c < 64 → byte_2 b c ≡ b % 16 * 16 + c / 4
byte_2_lem b c hb hc =
    rw (bit_and_f b (omega arith), bit_and_f (c / 4) (omega arith))
      (omega (arith, bit_or_16 (b % 16) (c / 4 % 16)))

pub byte_3_lem : (c d : ℕ) → c < 64 → d < 64 → byte_3 c d ≡ c % 4 * 64 + d
byte_3_lem c d hc hd = rw (bit_and_3 c (omega arith)) (omega (arith, bit_or_64 (c % 4) d))

-- The decoder's table inverts both alphabets.
pub char_value-digit : (type : Base64Type) (k : ℕ) → k < 64 → char_value (digit type k) ≡ k
unfolding base64_chars char_value holds_below
char_value-digit standard k h =
    (==_iff _ _).0 (holds_below-at (λ k. char_value (digit standard k) == k) 64 k h refl)
char_value-digit url k h =
    (==_iff _ _).0 (holds_below-at (λ k. char_value (digit url k) == k) 64 k h refl)

pub next-digit : (type : Base64Type) (k : ℕ) (s : Bytes) → k < 64 → next (digit type k ∷ s) ≡ (k, s)
unfolding next
next-digit type k s h = ground (arith, char_value-digit type k h)
