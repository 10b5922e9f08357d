-- ===== src/Time/RoundTrip.antt =====
-- `set_rfc822` of lib/time.cpp on what `get_rfc822` prints.
use lfz.Prelude.{
  ℕ, suc, ◌≤◌, ◌<◌, ◌≡◌, refl, ap, ◌∙◌, arith, true, false, Bytes, List, [], ◌∷◌, codes, some, ℤ,
  pos, scale, ◌+ℤ◌, ◌-ℤ◌, +ℤ_zero, ltb_ℤ, ◌==ℤ◌,
}
use lfz.Time.{utc, Calendar, DateTime, empty, get_time_t, get_tm, set_tm, add_duration, counted}
use lfz.Time.{seconds}
use lfz.Time.Fields.{set, set_fields, absent}
use lfz.Time.Digits.{two, four, read_two, read_four, two-IsWord, four-IsWord}
use lfz.Time.Printed.{InRange, tm_of, joined, print-tm_of}
use lfz.Time.Words.{tokens-joined, wday-IsWord, month-IsWord, get_month-entry}
use lfz.Time.Rfc822.{entry, months, wdays, get_month, get_rfc822, set_rfc822, read_parts}
use lfz.Time.Rfc822.{
  read_day, century, zone_minutes, add_zone, add_token, set_from_parts, set_words,
}

-- The time in whole seconds.
abbrev pub to_seconds : DateTime → DateTime
to_seconds d = record { t_ = scale (get_time_t d) 1000; a_ = seconds }

abbrev words : Bytes → ℕ → Bytes → ℕ → ℕ → ℕ → ℕ → List Bytes
words wday day month year hour minute second =
    wday ∷ two day ∷ month ∷ four year ∷ two hour ∷ two minute ∷ two second ∷ codes "GMT" ∷ []

read_parts-words :
    (wday month : Bytes) (day year hour minute second : ℕ)
    → 1 ≤ day
    → day < 100
    → 1000 ≤ year
    → year < 10000
    → hour < 100
    → minute < 100
    → second < 100
    → read_parts (words wday day month year hour minute second)
      ≡ (pos day, get_month month, pos year, pos hour, pos minute, pos second)
unfolding read_parts read_day century entry
read_parts-words wday month day year hour minute second hd hd' hy hy' hh hi hs =
    let some_day : (pos day ==ℤ pos 0) ≡ false = ground (arith, hd) in
    let below : ltb_ℤ (pos second) (pos 1000) ≡ true = ground (arith, hs) in
    let above : ltb_ℤ (pos year) (pos 1000) ≡ false = ground (arith, hy) in
    rw
      (
        read_two day (pos 0) hd',
        read_two hour (pos 0) hh,
        read_two minute (pos 0) hi,
        read_two second (pos 0) hs,
        read_four year (pos 0) hy',
        some_day,
        below,
        above,
      )
      refl

add_zero : (d : DateTime) → add_duration d (pos 0) ≡ d
unfolding add_duration counted ◌+ℤ◌
add_zero d = ground arith

month_back : (mon : ℕ) → pos (suc mon) -ℤ pos 1 ≡ pos mon
unfolding ◌-ℤ◌
month_back mon = ground arith

given : (n : ℕ) → (pos n ==ℤ absent) ≡ false
given n = ground arith

set-seconds :
    (c : Calendar) (year month day : ℤ) (hour minute second : ℕ)
    → set c utc year month day (pos hour) (pos minute) (pos second) absent
      ≡ set_fields c utc seconds year month day (pos hour) (pos minute) (pos second) (pos 0)
unfolding set
set-seconds c year month day hour minute second = rw (given hour, given minute, given second) refl

set_fields-tm_of :
    (c : Calendar) (d : DateTime) (day mon year hour minute second : ℕ)
    → c.timegm (tm_of 0 day mon year hour minute second) ≡ some (get_time_t d)
    → set_fields c utc seconds
        (pos year)
        (pos (suc mon))
        (pos day)
        (pos hour)
        (pos minute)
        (pos second)
        (pos 0)
      ≡ (to_seconds d, true)
unfolding set_fields set_tm
set_fields-tm_of c d day mon year hour minute second h =
    rw (month_back mon, h, +ℤ_zero (scale (get_time_t d) 1000)) refl

set_from_parts-tm_of :
    (c : Calendar) (d : DateTime) (day mon year hour minute second : ℕ)
    → c.timegm (tm_of 0 day mon year hour minute second) ≡ some (get_time_t d)
    → set_from_parts c (pos day, suc mon, pos year, pos hour, pos minute, pos second)
      ≡ (to_seconds d, true)
unfolding set_from_parts
set_from_parts-tm_of c d day mon year hour minute second h =
    set-seconds c (pos year) (pos (suc mon)) (pos day) hour minute second
    ∙ set_fields-tm_of c d day mon year hour minute second h

add_token-words :
    (wday month : Bytes) (day year hour minute second : ℕ) (d : DateTime)
    → add_token (words wday day month year hour minute second) (d, true) ≡ (d, true)
unfolding add_token add_zone zone_minutes entry
add_token-words wday month day year hour minute second d = ap (λ e. (e, true)) (add_zero d)

set_rfc822-joined :
    (c : Calendar) (d : DateTime) (wday day mon year hour minute second : ℕ)
    → InRange wday day mon year hour minute second
    → c.timegm (tm_of 0 day mon year hour minute second) ≡ some (get_time_t d)
    → set_rfc822 c (
        joined
          (entry wdays wday)
          (two day)
          (entry months mon)
          (four year)
          (two hour)
          (two minute)
          (two second))
      ≡ (to_seconds d, true)
unfolding set_rfc822 set_words
set_rfc822-joined c d wday day mon year hour minute second (hw, hd, hd', hm, hy, hy', hh, hi, hs)
      h =
    let day_bound : day < 100 = omega (arith, hd') in
    let hour_bound : hour < 100 = omega (arith, hh) in
    let minute_bound : minute < 100 = omega (arith, hi) in
    let second_bound : second < 100 = omega (arith, hs) in
    let name = entry wdays wday in
    let month = entry months mon in
    ap (set_words c) (
      tokens-joined name (two day) month (four year) (two hour) (two minute) (two second) (
        wday-IsWord wday hw,
        (
          two-IsWord day day_bound,
          (
            month-IsWord mon hm,
            (
              four-IsWord year hy',
              (
                two-IsWord hour hour_bound,
                (two-IsWord minute minute_bound, (two-IsWord second second_bound, tt)),
              ),
            ),
          ),
        ),
      ))
    ∙ ap (λ p. add_token (words name day month year hour minute second) (set_from_parts c p))
        (read_parts-words name month day year hour minute second hd day_bound hy hy' hour_bound
            minute_bound second_bound
          ∙ ap (λ m. (pos day, m, pos year, pos hour, pos minute, pos second))
              (get_month-entry mon hm))
    ∙ ap (add_token (words name day month year hour minute second))
        (set_from_parts-tm_of c d day mon year hour minute second h)
    ∙ add_token-words name month day year hour minute second (to_seconds d)

-- A time with a year of four digits, at which timegm inverts gmtime, is printed by get_rfc822 as a
-- text that set_rfc822 reads back, in whole seconds.
pub set_rfc822-get_rfc822 :
    (c : Calendar) (d : DateTime) (wday day mon year hour minute second : ℕ)
    → InRange wday day mon year hour minute second
    → empty d ≡ false
    → c.gmtime (get_time_t d) ≡ some (tm_of wday day mon year hour minute second)
    → c.timegm (tm_of 0 day mon year hour minute second) ≡ some (get_time_t d)
    → (str : Bytes) × (get_rfc822 c d ≡ some str) × (set_rfc822 c str ≡ (to_seconds d, true))
unfolding get_rfc822 get_tm
set_rfc822-get_rfc822 c d wday day mon year hour minute second r set there back = (
  joined (entry wdays wday) (two day) (entry months mon) (four year) (two hour) (two minute)
      (two second),
  rw (set, there) (print-tm_of wday day mon year hour minute second r),
  set_rfc822-joined c d wday day mon year hour minute second r back,
)
