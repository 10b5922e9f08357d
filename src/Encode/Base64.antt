-- ===== src/Encode/Base64.antt =====
-- Base64, lib/encode.cpp.
pub mod Tables
pub mod Groups
pub mod RoundTrip
pub mod Total
use lfz.Prelude.{
  ℕ, zero, suc, ◌*◌, ◌/◌, ◌%◌, ◌^◌, Bool, true, false, ◌&&◌, ◌||◌, Bytes, [], ◌∷◌, ◌++◌, not,
}
use lfz.Prelude.{length, take, get_or, bit_and, bit_or, leb, ◌==◌, if◌then◌else◌, is_empty}
use Tables.{Base64Type, base64_chars, char_value}

-- `base64_chars[k]`.
abbrev pub digit : Base64Type → ℕ → ℕ
digit type k = get_or (base64_chars type) k 0

-- The four digits of three bytes, and the parts of the digits of one or two bytes.
abbrev pub digit_1 : Base64Type → ℕ → ℕ
digit_1 type c1 = digit type (bit_and (c1 / 2 ^ 2) 0x3f)

abbrev pub digit_2 : Base64Type → ℕ → ℕ → ℕ
digit_2 type c1 c2 = digit type (bit_or (bit_and c1 0x3 * 2 ^ 4) (bit_and (c2 / 2 ^ 4) 0xf))

abbrev pub digit_3 : Base64Type → ℕ → ℕ → ℕ
digit_3 type c2 c3 = digit type (bit_or (bit_and c2 0xf * 2 ^ 2) (bit_and (c3 / 2 ^ 6) 0x3))

-- What the loop of `base64_encode_impl` and the code behind it append.
unfoldable pub base64_groups : Base64Type → Bool → Bytes → Bytes
base64_groups type pad [] = []
base64_groups type pad (c1 ∷ []) =
    digit_1 type c1 ∷ digit type (bit_and c1 0x3 * 2 ^ 4) ∷ (if pad then b'=' ∷ b'=' ∷ [] else [])
base64_groups type pad (c1 ∷ c2 ∷ []) =
    digit_1 type c1
    ∷ digit_2 type c1 c2
    ∷ digit type (bit_and c2 0xf * 2 ^ 2)
    ∷ (if pad then b'=' ∷ [] else [])
base64_groups type pad (c1 ∷ c2 ∷ c3 ∷ rest) =
    digit_1 type c1
    ∷ digit_2 type c1 c2
    ∷ digit_3 type c2 c3
    ∷ digit type (bit_and c3 0x3f)
    ∷ base64_groups type pad rest

unfoldable pub base64_encode_append : Bytes → Bytes → Base64Type → Bool → Bytes
base64_encode_append result s type pad = result ++ base64_groups type pad s

unfoldable pub base64_encode : Bytes → Base64Type → Bool → Bytes
base64_encode s type pad = base64_encode_append [] s type pad

-- `while (len && … chars[in[len - 1]] == 0x80) --len`.
unfoldable pub trimmed_length : Bytes → ℕ → ℕ
trimmed_length s zero = zero
trimmed_length s (suc len) = elim (char_value (get_or s len 0) == 0x80) [
  | true ↦ trimmed_length s len
  | false ↦ suc len
]

-- `next()`: the value of the next unit that is no white space, 0x40 at the end; and what is left.
unfoldable pub next : Bytes → ℕ × Bytes
next [] = (0x40, [])
next (u ∷ s) = elim (char_value u == 0x80) [ true ↦ next s | false ↦ (char_value u, s) ]

-- `bad` is `return Ret()`; `stuck` is no outcome of the code, the fuel ran out.
pub data Outcome : Type 0 where
  done : Bytes → Outcome
  bad stuck : Outcome

-- One round of the decoder on its four values, with the input that is left.
pub data Round : Type 0 where
  more : Bytes → Round
  refuse : Round

-- The bytes that the values give, converted to unsigned char.
abbrev pub byte_1 : ℕ → ℕ → ℕ
byte_1 c1 c2 = bit_or (c1 * 2 ^ 2) (bit_and (c2 / 2 ^ 4) 0x3) % 256

abbrev pub byte_2 : ℕ → ℕ → ℕ
byte_2 c2 c3 = bit_or (bit_and c2 0xf * 2 ^ 4) (bit_and (c3 / 2 ^ 2) 0xf) % 256

abbrev pub byte_3 : ℕ → ℕ → ℕ
byte_3 c3 c4 = bit_or (bit_and c3 0x3 * 2 ^ 6) c4 % 256

unfoldable pub decode_group : ℕ → ℕ → ℕ → ℕ → Bytes → Round
decode_group c1 c2 c3 c4 rest =
    if c1 == 0xff || c1 == 0x40 || c2 == 0xff || c2 == 0x40 || c3 == 0xff || c4 == 0xff
    then refuse
    else if c4 == 0x40
    then (if not (is_empty rest)
        then refuse
        else if c3 == 0x40
        then more (byte_1 c1 c2 ∷ [])
        else more (byte_1 c1 c2 ∷ byte_2 c2 c3 ∷ []))
    else if c3 == 0x40
    then refuse
    else more (byte_1 c1 c2 ∷ byte_2 c2 c3 ∷ byte_3 c3 c4 ∷ [])

-- `while (pos < len)`; every round takes a unit at least.
unfoldable pub decode_loop : ℕ → Bytes → Bytes → Outcome
decode_loop fuel [] ret = done ret
decode_loop zero (u ∷ s) ret = stuck
decode_loop (suc fuel) (u ∷ s) ret =
    let (c1, s1) = next (u ∷ s) in
    let (c2, s2) = next s1 in
    let (c3, s3) = next s2 in
    let (c4, s4) = next s3 in
    elim (decode_group c1 c2 c3 c4 s4) [
      | refuse ↦ bad
      | more bytes ↦ decode_loop fuel s4 (ret ++ bytes)
    ]

unfoldable pub decode_outcome : Bytes → Outcome
decode_outcome s = let len = trimmed_length s (length s) in decode_loop len (take len s) []

unfoldable pub base64_decode : Bytes → Bytes
base64_decode s = elim (decode_outcome s) [ done ret ↦ ret | bad ↦ [] | stuck ↦ [] ]
