-- ===== src/Json.antt =====
-- The strings of lib/json.cpp: how `to_string` escapes them and how `parse` reads them.
pub mod Strings
pub mod Value
pub mod Print
pub mod Number
pub mod Parse
pub mod Numerals
pub mod Spaces
pub mod Keys
pub mod Readable
pub mod Items
pub mod Members
pub mod RoundTrip
pub mod Reading
pub mod Total
pub mod Built
pub mod Gives
pub mod Grammar
mod Tests
use lfz.Prelude.{ℕ, zero, suc, ◌+◌, ◌*◌, ◌/◌, ◌^◌, Bool, true, false, not, ◌&&◌, ◌||◌, Bytes, []}
use lfz.Prelude.{◌∷◌, ◌++◌, leb, ltb, ◌==◌, if◌then◌else◌, Option, none, some, bit_and, bit_or}
use lfz.Encode.Hex.{hex_char_to_int}

-- One round of `json_append_escaped`; 8 is `\b` and 12 is `\f`.
unfoldable pub escaped_char : ℕ → Bytes
escaped_char c =
    if c == b'\r'
    then b'\\' ∷ b'r' ∷ []
    else if c == b'"'
    then b'\\' ∷ b'"' ∷ []
    else if c == b'\\'
    then b'\\' ∷ b'\\' ∷ []
    else if c == b'\n'
    then b'\\' ∷ b'n' ∷ []
    else if c == b'\t'
    then b'\\' ∷ b't' ∷ []
    else if c == 8
    then b'\\' ∷ b'b' ∷ []
    else if c == 12
    then b'\\' ∷ b'f' ∷ []
    else c ∷ []

unfoldable pub append_escaped : Bytes → Bytes → Bytes
append_escaped out [] = out
append_escaped out (c ∷ s) = append_escaped (out ++ escaped_char c) s

unfoldable pub is_space : ℕ → Bool
is_space c = c == b' ' || c == b'\r' || c == b'\n' || c == b'\t'

unfoldable pub skip_ws : Bytes → Bytes
skip_ws [] = []
skip_ws (c ∷ s) = elim (is_space c) [ true ↦ skip_ws s | false ↦ c ∷ s ]

-- The bytes of a code point.
unfoldable pub utf8 : ℕ → Bytes
utf8 u =
    if leb u 0x7f
    then u ∷ []
    else if leb u 0x7ff
    then bit_or 0xc0 (bit_and (u / 2 ^ 6) 0x1f) ∷ bit_or 0x80 (bit_and u 0x3f) ∷ []
    else if leb u 0xffff
    then bit_or 0xe0 (bit_and (u / 2 ^ 12) 0x0f)
      ∷ bit_or 0x80 (bit_and (u / 2 ^ 6) 0x3f)
      ∷ bit_or 0x80 (bit_and u 0x3f)
      ∷ []
    else bit_or 0xf0 (bit_and (u / 2 ^ 18) 0x07)
      ∷ bit_or 0x80 (bit_and (u / 2 ^ 12) 0x3f)
      ∷ bit_or 0x80 (bit_and (u / 2 ^ 6) 0x3f)
      ∷ bit_or 0x80 (bit_and u 0x3f)
      ∷ []

-- Where `json_unescape_string` stands: at a fresh unit, behind a backslash, before so many more
-- digits and one with the value read so far, or between the units of a surrogate pair.
pub data Place : Type 0 where
  fresh in_escape : Place
  want_unit : ℕ → ℕ → Place
  want_backslash want_u : ℕ → Place
  want_low : ℕ → ℕ → ℕ → Place

-- What a unit makes of it: `return {}`, the end of the string, or a new place and more bytes.
pub data Move : Type 0 where
  refuse finish : Move
  go : Place → Bytes → Move

unfoldable pub put_code_point : Bool → ℕ → Move
put_code_point allow_null u = if u == 0 && not allow_null then refuse else go fresh (utf8 u)

-- Behind a first unit of four digits.
unfoldable pub put_unit : Bool → ℕ → Move
put_unit allow_null u =
    if leb 0xd800 u && leb u 0xdbff
    then go (want_backslash u) []
    else if leb 0xdc00 u && leb u 0xdfff
    then refuse
    else put_code_point allow_null u

-- The code point of a surrogate pair.
unfoldable pub surrogates : ℕ → ℕ → ℕ
surrogates u low = bit_and u 0x3ff * 2 ^ 10 + bit_and low 0x3ff + 0x10000

unfoldable pub put_pair : Bool → ℕ → ℕ → Move
put_pair allow_null u low =
    if ltb low 0xdc00 || ltb 0xdfff low
    then refuse
    else if ltb 0x10ffff (surrogates u low)
    then refuse
    else put_code_point allow_null (surrogates u low)

unfoldable pub unit_digit : Bool → ℕ → ℕ → Move
unit_digit allow_null zero u = put_unit allow_null u
unit_digit allow_null (suc n) u = go (want_unit n u) []

unfoldable pub low_digit : Bool → ℕ → ℕ → ℕ → Move
low_digit allow_null zero u low = put_pair allow_null u low
low_digit allow_null (suc n) u low = go (want_low n u low) []

-- The unit behind a backslash.
unfoldable pub escape_move : ℕ → Move
escape_move c =
    if c == b'"' || c == b'\\' || c == b'/'
    then go fresh (c ∷ [])
    else if c == b'b'
    then go fresh (8 ∷ [])
    else if c == b'f'
    then go fresh (12 ∷ [])
    else if c == b'n'
    then go fresh (b'\n' ∷ [])
    else if c == b'r'
    then go fresh (b'\r' ∷ [])
    else if c == b't'
    then go fresh (b'\t' ∷ [])
    else if c == b'u'
    then go (want_unit 3 0) []
    else refuse

unfoldable pub move : Bool → Place → ℕ → Move
move allow_null fresh c =
    if c == b'"'
    then finish
    else if c == b'\\'
    then go in_escape []
    else if c == 0 && not allow_null
    then refuse
    else go fresh (c ∷ [])
move allow_null in_escape c = escape_move c
move allow_null (want_unit n u) c = elim (hex_char_to_int c) [
  | none ↦ refuse
  | some h ↦ unit_digit allow_null n (u * 2 ^ 4 + h)
]
move allow_null (want_backslash u) c = if c == b'\\' then go (want_u u) [] else refuse
move allow_null (want_u u) c = if c == b'u' then go (want_low 3 u 0) [] else refuse
move allow_null (want_low n u low) c = elim (hex_char_to_int c) [
  | none ↦ refuse
  | some h ↦ low_digit allow_null n u (low * 2 ^ 4 + h)
]

-- `json_unescape_string`: the string and the text behind its closing quote; `none` is `{}`. A text
-- that ends too early is refused at its end.
unfoldable pub unescape : Bool → Place → Bytes → Bytes → Option (Bytes × Bytes)
unescape allow_null place [] ret = none
unescape allow_null place (c ∷ s) ret = elim (move allow_null place c) [
  | refuse ↦ none
  | finish ↦ some (ret, s)
  | go next out ↦ unescape allow_null next s (ret ++ out)
]
