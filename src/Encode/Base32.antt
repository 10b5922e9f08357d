-- ===== src/Encode/Base32.antt =====
-- Base32, lib/encode.cpp.
pub mod Tables
pub mod Groups
pub mod Rounds
pub mod RoundTrip
use lfz.Prelude.{
  ℕ, zero, suc, ◌*◌, ◌/◌, ◌%◌, ◌^◌, Bool, true, false, ◌&&◌, ◌||◌, not, Bytes, [], ◌∷◌, ◌++◌, codes,
}
use lfz.Prelude.{length, take, get_or, bit_and, bit_or, ◌==◌, if◌then◌else◌, Option, none, some}
use Tables.{Base32Type, base32_chars, char_value}

-- `base32_chars[k]`.
abbrev pub digit : Base32Type → ℕ → ℕ
digit type k = get_or (base32_chars type) k 0

-- The values of the eight digits of five bytes.
abbrev pub quintet_1 : ℕ → ℕ
quintet_1 c1 = bit_and (c1 / 2 ^ 3) 0x1f

abbrev pub quintet_2 : ℕ → ℕ → ℕ
quintet_2 c1 c2 = bit_or (bit_and c1 0x7 * 2 ^ 2) (bit_and (c2 / 2 ^ 6) 0x3)

abbrev pub quintet_3 : ℕ → ℕ
quintet_3 c2 = bit_and (c2 / 2) 0x1f

abbrev pub quintet_4 : ℕ → ℕ → ℕ
quintet_4 c2 c3 = bit_or (bit_and c2 0x1 * 2 ^ 4) (bit_and (c3 / 2 ^ 4) 0xf)

abbrev pub quintet_5 : ℕ → ℕ → ℕ
quintet_5 c3 c4 = bit_or (bit_and c3 0xf * 2) (bit_and (c4 / 2 ^ 7) 0x1)

abbrev pub quintet_6 : ℕ → ℕ
quintet_6 c4 = bit_and (c4 / 2 ^ 2) 0x1f

abbrev pub quintet_7 : ℕ → ℕ → ℕ
quintet_7 c4 c5 = bit_or (bit_and c4 0x3 * 2 ^ 3) (bit_and (c5 / 2 ^ 5) 0x7)

abbrev pub padding : Bool → Bytes → Bytes
padding pad signs = if pad then signs else []

-- What the loop of `base32_encode_impl` and the code behind it append.
unfoldable pub base32_groups : Base32Type → Bool → Bytes → Bytes
base32_groups type pad [] = []
base32_groups type pad (c1 ∷ []) =
    digit type (quintet_1 c1) ∷ digit type (bit_and c1 0x7 * 2 ^ 2) ∷ padding pad (codes "======")
base32_groups type pad (c1 ∷ c2 ∷ []) =
    digit type (quintet_1 c1)
    ∷ digit type (quintet_2 c1 c2)
    ∷ digit type (quintet_3 c2)
    ∷ digit type (bit_and c2 0x1 * 2 ^ 4)
    ∷ padding pad (codes "====")
base32_groups type pad (c1 ∷ c2 ∷ c3 ∷ []) =
    digit type (quintet_1 c1)
    ∷ digit type (quintet_2 c1 c2)
    ∷ digit type (quintet_3 c2)
    ∷ digit type (quintet_4 c2 c3)
    ∷ digit type (bit_and c3 0xf * 2)
    ∷ padding pad (codes "===")
base32_groups type pad (c1 ∷ c2 ∷ c3 ∷ c4 ∷ []) =
    digit type (quintet_1 c1)
    ∷ digit type (quintet_2 c1 c2)
    ∷ digit type (quintet_3 c2)
    ∷ digit type (quintet_4 c2 c3)
    ∷ digit type (quintet_5 c3 c4)
    ∷ digit type (quintet_6 c4)
    ∷ digit type (bit_and c4 0x3 * 2 ^ 3)
    ∷ padding pad (codes "=")
base32_groups type pad (c1 ∷ c2 ∷ c3 ∷ c4 ∷ c5 ∷ rest) =
    digit type (quintet_1 c1)
    ∷ digit type (quintet_2 c1 c2)
    ∷ digit type (quintet_3 c2)
    ∷ digit type (quintet_4 c2 c3)
    ∷ digit type (quintet_5 c3 c4)
    ∷ digit type (quintet_6 c4)
    ∷ digit type (quintet_7 c4 c5)
    ∷ digit type (bit_and c5 0x1f)
    ∷ base32_groups type pad rest

unfoldable pub base32_encode : Bytes → Base32Type → Bool → Bytes
base32_encode s type pad = base32_groups type pad s

-- `while (len && … chars[in[len - 1]] == 0x80) --len`.
unfoldable pub trimmed_length : Base32Type → Bytes → ℕ → ℕ
trimmed_length type s zero = zero
trimmed_length type s (suc len) = elim (char_value type (get_or s len 0) == 0x80) [
  | true ↦ trimmed_length type s len
  | false ↦ suc len
]

-- What the lambda `next` reads and writes: the input that is left and `end`, 0 or the value that
-- ended the data.
abbrev pub Input : Type 0
Input = Bytes × ℕ

-- `next()`: a value with what is left.
unfoldable pub next : Base32Type → Bytes → ℕ → ℕ × Bytes × ℕ
next type [] end = (if end == 0 then 0x40 else end, [], end)
next type (u ∷ s) end =
    let c = char_value type u in
    elim (c == 0x80) [
      | true ↦ next type s end
      | false ↦
          if not (end == 0)
          then (if c == end then (end, s, end) else (0xff, s, 0xff))
          else if c == 0xff || c == 0x40
          then (c, s, c)
          else (c, s, end)
    ]

-- The bytes that the values give, converted to unsigned char.
abbrev pub byte_1 : ℕ → ℕ → ℕ
byte_1 c1 c2 = bit_or (c1 * 2 ^ 3) (bit_and (c2 / 2 ^ 2) 0x7) % 256

abbrev pub byte_2 : ℕ → ℕ → ℕ → ℕ
byte_2 c2 c3 c4 = bit_or (bit_or (bit_and c2 0x3 * 2 ^ 6) (c3 * 2)) (bit_and (c4 / 2 ^ 4) 0x1) % 256

abbrev pub byte_3 : ℕ → ℕ → ℕ
byte_3 c4 c5 = bit_or (bit_and c4 0xf * 2 ^ 4) (c5 / 2) % 256

abbrev pub byte_4 : ℕ → ℕ → ℕ → ℕ
byte_4 c5 c6 c7 =
    bit_or (bit_or (bit_and c5 0x1 * 2 ^ 7) (c6 * 2 ^ 2)) (bit_and (c7 / 2 ^ 3) 0x3) % 256

abbrev pub byte_5 : ℕ → ℕ → ℕ
byte_5 c7 c8 = bit_or (bit_and c7 0x7 * 2 ^ 5) c8 % 256

-- One round on its eight values; `none` is `return Ret()`.
unfoldable pub decode_group : ℕ → ℕ → ℕ → ℕ → ℕ → ℕ → ℕ → ℕ → Option Bytes
decode_group c1 c2 c3 c4 c5 c6 c7 c8 =
    if c2 == 0x40 || c8 == 0xff
    then none
    else if c3 == 0x40
    then some (byte_1 c1 c2 ∷ [])
    else if c4 == 0x40
    then none
    else if c5 == 0x40
    then some (byte_1 c1 c2 ∷ byte_2 c2 c3 c4 ∷ [])
    else if c6 == 0x40
    then some (byte_1 c1 c2 ∷ byte_2 c2 c3 c4 ∷ byte_3 c4 c5 ∷ [])
    else if c7 == 0x40
    then none
    else if c8 == 0x40
    then some (byte_1 c1 c2 ∷ byte_2 c2 c3 c4 ∷ byte_3 c4 c5 ∷ byte_4 c5 c6 c7 ∷ [])
    else some (byte_1 c1 c2 ∷ byte_2 c2 c3 c4 ∷ byte_3 c4 c5 ∷ byte_4 c5 c6 c7 ∷ byte_5 c7 c8 ∷ [])

-- `stuck` is no outcome of the code, the fuel ran out.
pub data Outcome : Type 0 where
  done : Bytes → Outcome
  bad stuck : Outcome

-- `while (pos < len)`; every round takes a unit at least.
unfoldable pub decode_loop : Base32Type → ℕ → Bytes → ℕ → Bytes → Outcome
decode_loop type fuel [] end ret = done ret
decode_loop type zero (u ∷ s) end ret = stuck
decode_loop type (suc fuel) (u ∷ s) end ret =
    let (c1, s1, e1) = next type (u ∷ s) end in
    let (c2, s2, e2) = next type s1 e1 in
    let (c3, s3, e3) = next type s2 e2 in
    let (c4, s4, e4) = next type s3 e3 in
    let (c5, s5, e5) = next type s4 e4 in
    let (c6, s6, e6) = next type s5 e5 in
    let (c7, s7, e7) = next type s6 e6 in
    let (c8, s8, e8) = next type s7 e7 in
    elim (decode_group c1 c2 c3 c4 c5 c6 c7 c8) [
      | none ↦ bad
      | some bytes ↦ decode_loop type fuel s8 e8 (ret ++ bytes)
    ]

unfoldable pub decode_outcome : Bytes → Base32Type → Outcome
decode_outcome s type =
    let len = trimmed_length type s (length s) in decode_loop type len (take len s) 0 []

unfoldable pub base32_decode : Bytes → Base32Type → Bytes
base32_decode s type = elim (decode_outcome s type) [ done ret ↦ ret | bad ↦ [] | stuck ↦ [] ]
