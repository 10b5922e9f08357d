-- ===== src/Time/Printed.antt =====
-- What `get_rfc822` of lib/time.cpp prints.
use lfz.Prelude.{
  ℕ, ◌≤◌, ◌<◌, ◌≡◌, refl, ◌∙◌, arith, true, Bytes, [], ◌∷◌, ◌++◌, find, find_if, some, codes, ℤ,
  pos, ◌-ℤ◌, -ℤ+ℤ_cancel, ltb,
}
use lfz.Format.{text, integer, format_arg, arg_text, arg_decimal, pad_arg, extract_arg}
use lfz.Format.{integral_to_string}
use lfz.Format.Sprintf.{
  do_sprintf, sprintf_loop, put_field, put_front, get_field, read_field, field_move,
}
use lfz.Format.Sprintf.{digit_move, width_move, length_move, set_flag, add_width, clamp_width}
use lfz.Time.{Tm}
use lfz.Time.Digits.{two, four, two_field, plain_field, print_two, print_four}
use lfz.Time.Rfc822.{print_rfc822, entry, months, wdays}

-- "Sun, 06 Nov 1994 08:49:37 GMT", for the texts of its parts.
abbrev pub joined : Bytes → Bytes → Bytes → Bytes → Bytes → Bytes → Bytes → Bytes
joined wday day month year hour minute second =
    wday
    ++ (b','
        ∷ (b' '
            ∷ (day
                ++ (b' '
                    ∷ (month
                        ++ (b' '
                            ∷ (year
                                ++ (b' '
                                    ∷ (hour
                                        ++ (b':'
                                            ∷ (minute
                                                ++ (b':' ∷ (second ++ codes " GMT")))))))))))))

sprintf_lem :
    (wday month : Bytes) (day year hour minute second : ℤ)
    → do_sprintf (codes "%s, %02d %s %d %02d:%02d:%02d GMT") (
        text wday
        ∷ integer 32 day
        ∷ text month
        ∷ integer 32 year
        ∷ integer 32 hour
        ∷ integer 32 minute
        ∷ integer 32 second
        ∷ [])
      ≡ some (
          joined wday
            (integral_to_string two_field day)
            month
            (integral_to_string plain_field year)
            (integral_to_string two_field hour)
            (integral_to_string two_field minute)
            (integral_to_string two_field second))
unfolding do_sprintf sprintf_loop put_field put_front get_field read_field field_move digit_move
    width_move length_move set_flag add_width clamp_width format_arg arg_text arg_decimal pad_arg
    extract_arg find find_if
sprintf_lem wday month day year hour minute second = refl

-- `struct tm` with the calendar's year and month, from 0 on.
abbrev pub tm_of : ℕ → ℕ → ℕ → ℕ → ℕ → ℕ → ℕ → Tm
tm_of wday day mon year hour minute second = record {
  tm_sec = pos second;
  tm_min = pos minute;
  tm_hour = pos hour;
  tm_mday = pos day;
  tm_mon = pos mon;
  tm_year = pos year -ℤ pos 1900;
  tm_wday = pos wday;
}

-- Of the years, those with four digits.
abbrev pub InRange : ℕ → ℕ → ℕ → ℕ → ℕ → ℕ → ℕ → Type 0
InRange wday day mon year hour minute second =
    (wday < 7)
    × (1 ≤ day)
    × (day ≤ 31)
    × (mon < 12)
    × (1000 ≤ year)
    × (year < 10000)
    × (hour < 24)
    × (minute < 60)
    × (second ≤ 60)

pub print-tm_of :
    (wday day mon year hour minute second : ℕ)
    → InRange wday day mon year hour minute second
    → print_rfc822 (tm_of wday day mon year hour minute second)
      ≡ some (
          joined
            (entry wdays wday)
            (two day)
            (entry months mon)
            (four year)
            (two hour)
            (two minute)
            (two second))
unfolding print_rfc822
print-tm_of wday day mon year hour minute second (hw, hd, hd', hm, hy, hy', hh, hi, hs) =
    let known : ltb wday 7 ≡ true = ground (arith, hw) in
    let month : ltb mon 12 ≡ true = ground (arith, hm) in
    rw (known, month, print_rfc822, -ℤ+ℤ_cancel (pos year) (pos 1900))
      (sprintf_lem (entry wdays wday) (entry months mon) (pos day) (pos year) (pos hour)
          (pos minute) (pos second)
        ∙ rw
            (
              print_two day (omega (arith, hd')),
              print_two hour (omega (arith, hh)),
              print_two minute (omega (arith, hi)),
              print_two second (omega (arith, hs)),
              print_four year hy hy',
            )
            refl)
