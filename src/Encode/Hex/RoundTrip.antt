-- ===== src/Encode/Hex/RoundTrip.antt =====
-- Hexadecimal text, written and read.
use lfz.Prelude.{
  ℕ, ◌+◌, ◌*◌, ◌/◌, ◌%◌, ◌<◌, ◌≡◌, refl, sym, ap, ◌∙◌, arith, Bool, true, false, Bytes, [], ◌∷◌,
  ◌++◌,
}
use lfz.Prelude.{length, All, IsByte, some, bit_and, append-nil, append_assoc, ◌==◌}
use lfz.Prelude.Bits.{bit_and_f}
use lfz.Encode.Hex.{hex_char_to_int, int_to_hex_char, hex_encode, hex_decode_pairs, hex_decode}

pub hex_char-int_to :
    (lowercase : Bool) (d : ℕ) → d < 16 → hex_char_to_int (int_to_hex_char lowercase d) ≡ some d
unfolding hex_char_to_int int_to_hex_char
hex_char-int_to true d h = ground arith
hex_char-int_to false d h = ground arith

pub nibbles : (c : ℕ) → IsByte c → (c / 16 * 16 + bit_and c 0xf) % 256 ≡ c
nibbles c h = omega (arith, bit_and_f c h)

pub length-hex_encode :
    (lowercase : Bool) (s : Bytes) → length (hex_encode lowercase s) ≡ 2 * length s
unfolding hex_encode
length-hex_encode lowercase [] = refl
length-hex_encode lowercase (c ∷ s) = omega (arith, length-hex_encode lowercase s)

pairs-hex_encode :
    (lowercase : Bool) (s ret : Bytes)
    → All IsByte s
    → hex_decode_pairs (hex_encode lowercase s) ret ≡ some (ret ++ s)
unfolding hex_encode hex_decode_pairs
pairs-hex_encode lowercase [] ret h = ap some (sym (append-nil ret))
pairs-hex_encode lowercase (c ∷ s) ret (hc, hs) =
    rw
      (
        hex_char-int_to lowercase (c / 16) (omega arith),
        hex_char-int_to lowercase (bit_and c 0xf) (omega (arith, bit_and_f c hc)),
        nibbles c hc,
        hex_decode_pairs,
      )
      (pairs-hex_encode lowercase s (ret ++ (c ∷ [])) hs ∙ ap some (append_assoc ret (c ∷ []) s))

-- `hex_decode` gives back every sequence of bytes that `hex_encode` wrote, in either letter case.
pub hex_decode-encode :
    (lowercase : Bool) (s : Bytes) → All IsByte s → hex_decode (hex_encode lowercase s) ≡ s
unfolding hex_decode
hex_decode-encode lowercase s h =
    let whole : (length (hex_encode lowercase s) % 2 == 0) ≡ true =
      ground (arith, length-hex_encode lowercase s) in
    rw (whole, pairs-hex_encode lowercase s [] h)
