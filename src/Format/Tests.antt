-- ===== src/Format/Tests.antt =====
-- Formats at concrete arguments.
use lfz.Prelude.{◌≡◌, refl, [], ◌∷◌, codes, some, find, find_if, pos, negsuc}
use lfz.Prelude.{arith}
use lfz.Time.Text.{to_int}
use lfz.Format.{no_field}
use lfz.Format.Returns.{Returns, do_sprintf-Returns}
use lfz.Format.Reread.{to_int-integral_to_string}
use lfz.Encode.Hex.{int_to_hex_char}
use lfz.Format.{integer, text, format_arg, arg_text, arg_decimal, arg_hex, pad_arg, extract_arg}
use lfz.Format.{
  integral_to_string, place_digits, put_digits, lead_of, integral_to_hex_string, put_hex,
}
use lfz.Format.Sprintf.{
  do_sprintf, sprintf_loop, put_field, put_front, get_field, read_field, field_move,
}
use lfz.Format.Sprintf.{digit_move, width_move, length_move, set_flag, add_width, clamp_width}

several :
    do_sprintf
      (codes "%s=%05d%% %-4x|%+d")
      (text (codes "a") ∷ integer 32 (negsuc 41) ∷ integer 32 (pos 255) ∷ integer 32 (pos 7) ∷ [])
    ≡ some (codes "a=-0042% ff  |+7")
unfolding do_sprintf sprintf_loop put_field put_front get_field read_field field_move digit_move
    width_move length_move set_flag add_width clamp_width format_arg arg_text arg_decimal arg_hex
    pad_arg extract_arg integral_to_string place_digits put_digits lead_of integral_to_hex_string
    put_hex int_to_hex_char find find_if
several = refl

-- The width is the position: the text is padded to it.
position :
    do_sprintf (codes "%3$s") (text [] ∷ text [] ∷ text (codes "a") ∷ []) ≡ some (codes "  a")
unfolding do_sprintf sprintf_loop put_field put_front get_field read_field field_move digit_move
    width_move length_move set_flag add_width clamp_width format_arg arg_text pad_arg extract_arg
    find find_if
position = refl

do_sprintf-Returns_example : Returns (do_sprintf (codes "%3$") [])
do_sprintf-Returns_example = do_sprintf-Returns (codes "%3$") []

to_int-integral_to_string_example :
    to_int (integral_to_string no_field (negsuc 41)) (pos 0) ≡ negsuc 41
to_int-integral_to_string_example =
    to_int-integral_to_string no_field (negsuc 41) (pos 0) (omega arith) refl refl
