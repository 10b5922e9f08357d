-- ===== src/Format.antt =====
-- `fz::sprintf` of lib/libfilezilla/format.hpp for strings of char, where `format_assert` is nothing, as
-- without LFZ_FORMAT_DEBUG.
pub mod Sprintf
pub mod Returns
pub mod Reread
mod Tests
use lfz.Prelude.{
  ℕ, zero, suc, ◌+◌, ◌-◌, ◌*◌, ◌/◌, ◌%◌, ◌^◌, Bool, true, false, not, ◌&&◌, ◌||◌, Bytes, List, [],
  ◌∷◌, ◌++◌, length, take, drop, replicate, leb, ltb, ◌==◌, if◌then◌else◌, is_empty, Option, none,
  some, bit_and, find, codes, ℤ, pos, negsuc, pos_part, neg_part, magnitude, is_negative,
}
use lfz.Memory.{size_mod, sub_size}
use lfz.Encode.Hex.{int_to_hex_char}

-- `field` and its flags; type 0 is none.
pub record Field : Type 0 where
  pub width : ℕ
  pub pad_0 : Bool
  pub pad_blank : Bool
  pub with_width : Bool
  pub left_align : Bool
  pub always_sign : Bool
  pub type : ℕ

abbrev pub no_field : Field
no_field = record {
  width = 0;
  pad_0 = false;
  pad_blank = false;
  with_width = false;
  left_align = false;
  always_sign = false;
  type = 0;
}

-- Arguments: integers of so many bits, text, which is also what `toString` makes of an argument, and
-- pointers.
pub data Arg : Type 0 where
  integer : ℕ → ℤ → Arg
  text : Bytes → Arg
  pointer : ℕ → Arg

-- The digits that the loop of `integral_to_string` puts in front of those it has; 20 rounds are enough
-- for 64 bits.
unfoldable pub put_digits : ℕ → ℕ → Bytes → Bytes
put_digits zero v digits = digits
put_digits (suc rounds) v digits = elim (v / 10 == 0) [
  | true ↦ (b'0' + v % 10) ∷ digits
  | false ↦ put_digits rounds (v / 10) ((b'0' + v % 10) ∷ digits)
]

-- `lead`, where it is set.
unfoldable pub lead_of : Field → ℤ → Bytes
lead_of f v =
    if is_negative v
    then b'-' ∷ []
    else if f.always_sign
    then b'+' ∷ []
    else if f.pad_blank
    then b' ' ∷ []
    else []

-- `width - n` times the character, where that is more than 0.
abbrev pub fill : ℕ → ℕ → ℕ → Bytes
fill width n c = replicate (width - n) c

-- The result, for the lead, the digits and the width without the lead.
unfoldable pub place_digits : Field → Bytes → Bytes → ℕ → Bytes
place_digits f lead digits width =
    if f.pad_0
    then lead ++ (fill width (length digits) b'0' ++ digits)
    else (if f.left_align then [] else fill width (length digits) b' ')
      ++ (lead ++ (digits ++ (if f.left_align then fill width (length digits) b' ' else [])))

unfoldable pub integral_to_string : Field → ℤ → Bytes
integral_to_string f v =
    let lead = lead_of f v in
    let digits = put_digits 20 (magnitude v) [] in
    if f.with_width
    then place_digits f lead digits (if is_empty lead then f.width else f.width - 1)
    else lead ++ digits

unfoldable pub put_hex : Bool → ℕ → ℕ → Bytes → Bytes
put_hex lowercase zero v digits = digits
put_hex lowercase (suc rounds) v digits = elim (v / 2 ^ 4 == 0) [
  | true ↦ int_to_hex_char lowercase (bit_and v 0xf) ∷ digits
  | false ↦
      put_hex lowercase rounds (v / 2 ^ 4) (int_to_hex_char lowercase (bit_and v 0xf) ∷ digits)
]

-- The unsigned value of as many bits.
abbrev pub to_unsigned : ℕ → ℤ → ℕ
to_unsigned bits (pos n) = n % 2 ^ bits
to_unsigned bits (negsuc n) = 2 ^ bits - 1 - n % 2 ^ bits

unfoldable pub integral_to_hex_string : Bool → ℕ → Bytes
integral_to_hex_string lowercase v = put_hex lowercase 16 v []

unfoldable pub pad_arg : Field → Bytes → Bytes
pad_arg f s =
    if f.with_width && ltb (length s) f.width
    then (if f.left_align
        then s ++ fill f.width (length s) b' '
        else fill f.width (length s) (if f.pad_0 then b'0' else b' ') ++ s)
    else s

-- What `format_arg` makes of an argument of the wrong type is empty.
unfoldable pub arg_text : Arg → Bytes
arg_text (integer bits v) = integral_to_string no_field v
arg_text (text s) = s
arg_text (pointer p) = []

unfoldable pub arg_decimal : Field → Arg → Bytes
arg_decimal f (integer bits v) = integral_to_string f v
arg_decimal f (text s) = []
arg_decimal f (pointer p) = []

unfoldable pub arg_hex : Bool → Arg → Bytes
arg_hex lowercase (integer bits v) = integral_to_hex_string lowercase (to_unsigned bits v)
arg_hex lowercase (text s) = []
arg_hex lowercase (pointer p) = []

unfoldable pub arg_pointer : Arg → Bytes
arg_pointer (pointer p) = codes "0x" ++ integral_to_hex_string true p
arg_pointer (integer bits v) = []
arg_pointer (text s) = []

unfoldable pub arg_char : Arg → Bytes
arg_char (integer bits v) = to_unsigned 8 v ∷ []
arg_char (text s) = []
arg_char (pointer p) = []

unfoldable pub format_arg : Field → Arg → Bytes
format_arg f arg =
    if f.type == b's'
    then pad_arg f (arg_text arg)
    else if f.type == b'd' || f.type == b'i' || f.type == b'u'
    then arg_decimal f arg
    else if f.type == b'x'
    then pad_arg f (arg_hex true arg)
    else if f.type == b'X'
    then pad_arg f (arg_hex false arg)
    else if f.type == b'p'
    then pad_arg f (arg_pointer arg)
    else if f.type == b'c'
    then arg_char arg
    else []

unfoldable pub extract_arg : Field → ℕ → List Arg → Bytes
extract_arg f n [] = []
extract_arg f zero (arg ∷ args) = format_arg f arg
extract_arg f (suc n) (arg ∷ args) = extract_arg f n args
