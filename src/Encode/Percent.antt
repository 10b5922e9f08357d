-- ===== src/Encode/Percent.antt =====
-- Percent encoding, lib/encode.cpp.
pub mod RoundTrip
pub mod Escaped
use lfz.Prelude.{
  ℕ, ◌+◌, ◌*◌, ◌/◌, ◌%◌, ◌^◌, Bool, true, false, not, ◌&&◌, ◌||◌, Bytes, [], ◌∷◌, ◌++◌, bit_and,
}
use lfz.Prelude.{leb, ltb, ◌==◌, if◌then◌else◌, Option, none, some}
use lfz.Encode.Hex.{hex_char_to_int, int_to_hex_char, or_empty}

-- The characters that `percent_encode` keeps.
unfoldable pub is_unreserved : ℕ → Bool
is_unreserved c =
    (leb b'0' c && leb c b'9')
    || (leb b'a' c && leb c b'z')
    || (leb b'A' c && leb c b'Z')
    || c == b'-'
    || c == b'.'
    || c == b'_'
    || c == b'~'

-- What one round of `percent_encode` appends.
unfoldable pub percent_encode_char : Bool → ℕ → Bytes
percent_encode_char keep_slashes c =
    if is_unreserved c
    then c ∷ []
    else if c == b'/' && keep_slashes
    then c ∷ []
    else b'%' ∷ int_to_hex_char false (c / 2 ^ 4) ∷ int_to_hex_char false (bit_and c 0xf) ∷ []

-- A null byte ends the loop.
unfoldable pub percent_encode : Bool → Bytes → Bytes
percent_encode keep_slashes [] = []
percent_encode keep_slashes (c ∷ s) =
    if c == 0 then [] else percent_encode_char keep_slashes c ++ percent_encode keep_slashes s

-- A code unit that stands for itself.
unfoldable pub percent_plain : Bool → ℕ → Option ℕ
percent_plain allow_null c =
    if c == 0 && not allow_null then none else if ltb 255 c then none else some c

-- Where the pointer of `percent_decode_impl` stands: at a fresh unit, or behind a `%`.
pub data Cursor : Type 0 where
  fresh want_high : Cursor
  want_low : ℕ → Cursor

-- The loop of `percent_decode_impl`; `none` is `return Ret()`.
unfoldable pub percent_decode_loop : Bool → Cursor → Bytes → Bytes → Option Bytes
percent_decode_loop allow_null fresh [] ret = some ret
percent_decode_loop allow_null fresh (c ∷ s) ret = elim (c == b'%') [
  | true ↦ percent_decode_loop allow_null want_high s ret
  | false ↦ elim (percent_plain allow_null c) [
    | none ↦ none
    | some u ↦ percent_decode_loop allow_null fresh s (ret ++ (u ∷ []))
  ]
]
percent_decode_loop allow_null want_high [] ret = none
percent_decode_loop allow_null want_high (c ∷ s) ret = elim (hex_char_to_int c) [
  | none ↦ none
  | some high ↦ percent_decode_loop allow_null (want_low high) s ret
]
percent_decode_loop allow_null (want_low high) [] ret = none
percent_decode_loop allow_null (want_low high) (c ∷ s) ret = elim (hex_char_to_int c) [
  | none ↦ none
  | some low ↦ elim (high == 0 && low == 0 && not allow_null) [
    | true ↦ none
    | false ↦ percent_decode_loop allow_null fresh s (ret ++ (((high * 2 ^ 4 + low) % 256) ∷ []))
  ]
]

unfoldable pub percent_decode : Bool → Bytes → Bytes
percent_decode allow_null s = or_empty (percent_decode_loop allow_null fresh s [])
