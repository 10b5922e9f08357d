-- ===== src/Format/Sprintf.antt =====
-- `get_field` and `do_sprintf` of lib/libfilezilla/format.hpp.
use lfz.Prelude.{
  ℕ, zero, suc, ◌+◌, ◌-◌, ◌*◌, ◌%◌, Bool, true, false, ◌&&◌, ◌||◌, Bytes, List, [], ◌∷◌, ◌++◌,
  length, take, drop, leb, ltb, ◌==◌, if◌then◌else◌, Option, none, some, find,
}
use lfz.Memory.{size_mod, sub_size}
use lfz.Format.{Field, no_field, Arg, extract_arg}

-- Which of its loops `get_field` is in.
pub data Place : Type 0 where
  in_flags in_width in_length : Place

-- What the next character makes of it: it is read, with a new field and `arg_n`, or it is the type.
pub data FieldMove : Type 0 where
  reads : Place → Field → ℕ → FieldMove
  ends : Field → ℕ → FieldMove

abbrev pub is_flag : ℕ → Bool
is_flag c = c == b'0' || c == b' ' || c == b'-' || c == b'+'

unfoldable pub set_flag : ℕ → Field → Field
set_flag c f =
    if c == b'0'
    then record f { pad_0 = true }
    else if c == b' '
    then record f { pad_blank = true }
    else if c == b'-'
    then record f { pad_0 = false; left_align = true }
    else record f { pad_blank = false; always_sign = true }

unfoldable pub add_width : ℕ → Field → Field
add_width c f = record f {
  with_width = true;
  width = (f.width * 10 % size_mod + (c - b'0')) % size_mod;
}

unfoldable pub clamp_width : Field → Field
clamp_width f = record f { width = if ltb 10000 f.width then 10000 else f.width }

abbrev pub is_length : ℕ → Bool
is_length c = c == b'h' || c == b'l' || c == b'L' || c == b'j' || c == b'z' || c == b't'

-- Behind the length modifiers read so far.
unfoldable pub length_move : ℕ → Field → ℕ → FieldMove
length_move c f n = if is_length c then reads in_length f n else ends (record f { type = c }) n

-- Behind the width. A dollar makes it a position, and the flags start over.
unfoldable pub width_move : ℕ → Field → ℕ → FieldMove
width_move c f n = if c == b'$' then reads in_flags f (sub_size f.width 1) else length_move c f n

unfoldable pub digit_move : ℕ → Field → ℕ → FieldMove
digit_move c f n =
    if leb b'0' c && leb c b'9'
    then reads in_width (add_width c f) n
    else width_move c (clamp_width f) n

unfoldable pub field_move : Place → ℕ → Field → ℕ → FieldMove
field_move in_flags c f n = if is_flag c then reads in_flags (set_flag c f) n else digit_move c f n
field_move in_width c f n = digit_move c f n
field_move in_length c f n = length_move c f n

-- The field, `arg_n` and the text behind it. A format that ends within a field gives no type.
unfoldable pub read_field : Place → Field → ℕ → Bytes → Field × ℕ × Bytes
read_field place f n [] = (f, n, [])
read_field place f n (c ∷ s) = elim (field_move place c f n) [
  | reads next g m ↦ read_field next g m s
  | ends g m ↦ (g, m, s)
]

-- Behind a percent sign: what is put out for itself, the field, `arg_n` and the text.
unfoldable pub get_field : ℕ → Bytes → Bytes × Field × ℕ × Bytes
get_field n [] = ([], no_field, n, [])
get_field n (c ∷ s) =
    let (f, m, rest) = read_field in_flags no_field n (c ∷ s) in
    if c == b'%' then (b'%' ∷ [], no_field, n, s) else ([], f, m, rest)

-- The output for a field and the next `arg_n`.
unfoldable pub put_field : List Arg → Field → ℕ → Bytes × ℕ
put_field args f n = if f.type == 0 then ([], n) else (extract_arg f n args, (n + 1) % size_mod)

unfoldable pub put_front : Bytes → Option Bytes → Option Bytes
put_front s none = none
put_front s (some t) = some (s ++ t)

-- Each round takes a percent sign; `none` is no outcome of the code, the rounds ran out.
unfoldable pub sprintf_loop : ℕ → List Arg → ℕ → Bytes → Option Bytes
sprintf_loop zero args n fmt = none
sprintf_loop (suc rounds) args n fmt = elim (find b'%' fmt) [
  | none ↦ some fmt
  | some at ↦
      let (literal, f, m, rest) = get_field n (drop (at + 1) fmt) in
      let (out, next) = put_field args f m in
      put_front (take at fmt ++ (literal ++ out)) (sprintf_loop rounds args next rest)
]

unfoldable pub do_sprintf : Bytes → List Arg → Option Bytes
do_sprintf fmt args = sprintf_loop (suc (length fmt)) args 0 fmt
