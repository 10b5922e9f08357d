-- ===== src/Time/Tests.antt =====
-- Dates, times and the setters at concrete values.
use lfz.Prelude.{
  ◌<◌, ◌≡◌, refl, true, false, Bytes, ◌++◌, codes, some, none, ℤ, pos, negsuc, negative, ◌+ℤ◌, ◌-ℤ◌,
  magnitude, arith, ltb, ◌||◌, ◌⊎◌,
}
use lfz.Time.{empty, Calendar, DateTime, utc, cleared, add_duration, counted, set_tm, get_time_t}
use lfz.Prelude.{not}
use lfz.Time.{lt_datetime, le_datetime}
use lfz.Time.{days, minutes, seconds, milliseconds, from_minutes}
use lfz.Time.Fields.{set, set_fields, absent, imbue_time, imbue}
use lfz.Time.Text.{
  to_int, as_int, int_digits, int_loop, set_text, set_parsed, parse_date, parse_clock, parse,
  parse_digits,
}
use lfz.Time.Text.{skip, parse_minute, parse_second, parse_millisecond}
use lfz.Time.Rfc822.{get_rfc822, set_rfc822, zone_minutes}
use lfz.Time.Rfc3339.{set_rfc3339}
use lfz.Time.Compare.{compare}
use lfz.Time.Printed.{tm_of}
use lfz.Time.RoundTrip.{to_seconds, set_rfc822-get_rfc822}
use lfz.Time.Offset.{date_time}
use lfz.Time.Zones.{numeric, correction, set_rfc3339-zones}
use lfz.Time.Midnight.{Imbued, imbue_time-Imbued}
use lfz.Time.Accuracy.{add_duration-units}
use lfz.Time.Order.{compare_swap}

-- The one second of the examples.
abbrev now : ℤ
now = pos 784111777

abbrev calendar : Calendar
calendar = record {
  timegm = λ t. some now;
  mktime = λ t. none;
  gmtime = λ t. some (tm_of 0 6 10 1994 8 49 37);
  localtime = λ t. none;
}

abbrev some_time : DateTime
some_time = record { t_ = pos 784111777250; a_ = milliseconds }

abbrev some_day : DateTime
some_day = record { t_ = pos 784080000000; a_ = days }

abbrev same_second : DateTime
same_second = record { t_ = pos 784111777000; a_ = seconds }

set_rfc822-get_rfc822_example :
    (str : Bytes) × (get_rfc822 calendar some_time ≡ some str)
    × (set_rfc822 calendar str ≡ (to_seconds some_time, true))
unfolding get_time_t
set_rfc822-get_rfc822_example =
    set_rfc822-get_rfc822 calendar some_time 0 6 10 1994 8 49 37
      (
        omega arith,
        omega arith,
        omega arith,
        omega arith,
        omega arith,
        omega arith,
        omega arith,
        omega arith,
        omega arith,
      )
      refl refl refl

set_rfc3339-zones_example :
    (set_rfc3339 calendar (date_time 1994 11 6 8 49 37 ++ numeric true 1 30)
      ≡ (add_duration same_second (from_minutes (correction true 90)), true))
    × (set_rfc3339 calendar (date_time 1994 11 6 8 49 37 ++ codes "Z") ≡ (same_second, true))
    × (set_rfc3339 calendar (date_time 1994 11 6 8 49 37 ++ codes "z") ≡ (cleared, false))
unfolding set set_fields set_tm ◌+ℤ◌ ◌-ℤ◌
set_rfc3339-zones_example =
    set_rfc3339-zones calendar 1994 11 6 8 49 37 1 30 true same_second
      (omega arith, omega arith, omega arith, omega arith, omega arith, omega arith, omega arith)
      (omega arith) (omega arith) refl

-- Half an hour ahead for "+0130", which is an hour and a half.
ahead : zone_minutes (codes "+0130") ≡ negsuc 29
unfolding zone_minutes to_int as_int int_digits int_loop ◌+ℤ◌
ahead = refl

imbue_time-Imbued_example :
    ((empty some_day || ltb days some_day.a_ ≡ true)
      × (imbue_time some_day (pos 8) (pos 49) absent absent ≡ (some_day, false)))
    ⊎ ((empty some_day || ltb days some_day.a_ ≡ false)
        × Imbued some_day minutes
            (pos 8)
            (pos 49)
            (pos 0)
            (pos 0)
            (imbue_time some_day (pos 8) (pos 49) absent absent))
imbue_time-Imbued_example = imbue_time-Imbued some_day (pos 8) (pos 49) absent absent

-- The accuracy is changed although the time is refused.
refused :
    imbue_time some_day (pos 8) (pos 60) absent absent ≡ (record some_day { a_ = minutes }, false)
unfolding imbue_time imbue
refused = refl

add_duration-units_example :
    ((add_duration same_second (pos 2750)).t_ ≡ pos 784111777000 +ℤ pos 2000)
    × (magnitude (pos 2750 -ℤ pos 2000) < 1000)
add_duration-units_example = add_duration-units same_second (pos 2750) refl

compare_swap_example :
    (compare calendar some_time some_day ≡ negative (compare calendar some_day some_time))
    × (lt_datetime some_time some_day ≡ not (le_datetime some_day some_time))
compare_swap_example = compare_swap calendar some_time some_day

from_text : set_text calendar utc (codes "1994-11-06 08:49:37.250") ≡ (some_time, true)
unfolding set_text set_parsed parse_date parse_clock parse parse_digits skip parse_minute
    parse_second parse_millisecond set_tm add_duration counted ◌+ℤ◌ ◌-ℤ◌
from_text = refl
