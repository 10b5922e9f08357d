-- ===== src/Encode/Hex.antt =====
-- The hexadecimal functions of lib/libfilezilla/encode.hpp.
pub mod RoundTrip
use lfz.Prelude.{
  ℕ, ◌+◌, ◌-◌, ◌*◌, ◌/◌, ◌%◌, ◌^◌, Bool, ◌&&◌, Bytes, [], ◌∷◌, ◌++◌, length, bit_and, leb, ltb,
}
use lfz.Prelude.{◌==◌, if◌then◌else◌, Option, none, some}

-- `none` is the -1 of an invalid digit.
unfoldable pub hex_char_to_int : ℕ → Option ℕ
hex_char_to_int c =
    if leb b'a' c && leb c b'f'
    then some (c - b'a' + 10)
    else if leb b'A' c && leb c b'F'
    then some (c - b'A' + 10)
    else if leb b'0' c && leb c b'9'
    then some (c - b'0')
    else none

unfoldable pub int_to_hex_char : Bool → ℕ → ℕ
int_to_hex_char lowercase d =
    if ltb 9 d then (if lowercase then b'a' else b'A') + d - 10 else b'0' + d

unfoldable pub hex_encode : Bool → Bytes → Bytes
hex_encode lowercase [] = []
hex_encode lowercase (c ∷ s) =
    int_to_hex_char lowercase (c / 2 ^ 4)
    ∷ int_to_hex_char lowercase (bit_and c 0xf)
    ∷ hex_encode lowercase s

-- The loop of `hex_decode_impl` over the pairs that are left; `none` is `return OutString()`.
unfoldable pub hex_decode_pairs : Bytes → Bytes → Option Bytes
hex_decode_pairs [] ret = some ret
hex_decode_pairs (h ∷ []) ret = some ret
hex_decode_pairs (h ∷ l ∷ rest) ret = elim (hex_char_to_int h) [
  | none ↦ none
  | some high ↦ elim (hex_char_to_int l) [
    | none ↦ none
    | some low ↦ hex_decode_pairs rest (ret ++ (((high * 2 ^ 4 + low) % 256) ∷ []))
  ]
]

abbrev pub or_empty : Option Bytes → Bytes
or_empty none = []
or_empty (some s) = s

unfoldable pub hex_decode : Bytes → Bytes
hex_decode s = if length s % 2 == 0 then or_empty (hex_decode_pairs s []) else []
