-- ===== src/Time/Fields.antt =====
-- The setters of lib/time.cpp from numbers: `set` of a date and a time, and `imbue_time`.
use lfz.Prelude.{
  ℕ, Bool, true, false, not, ◌&&◌, ◌||◌, if◌then◌else◌, ltb, ℤ, pos, negsuc, ◌+ℤ◌, ◌-ℤ◌, scale,
  ◌==ℤ◌,
}
use lfz.Time.{
  Zone, Tm, Calendar, DateTime, Outcome, set_tm, empty, days, hours, minutes, seconds, milliseconds,
}

-- A part that is not given.
abbrev pub absent : ℤ
absent = negsuc 0

-- `set`, behind the choice of the accuracy.
unfoldable pub set_fields : Calendar → Zone → ℕ → ℤ → ℤ → ℤ → ℤ → ℤ → ℤ → ℤ → Outcome
set_fields c z a year month day hour minute second millisecond =
    let tm : Tm = record {
      tm_sec = second;
      tm_min = minute;
      tm_hour = hour;
      tm_mday = day;
      tm_mon = month -ℤ pos 1;
      tm_year = year -ℤ pos 1900;
      tm_wday = pos 0;
    } in
    let (d, success) = set_tm c tm a z in
    if success then (record d { t_ = d.t_ +ℤ millisecond }, true) else (d, false)

-- The parts that are left out are the last ones.
unfoldable pub set : Calendar → Zone → ℤ → ℤ → ℤ → ℤ → ℤ → ℤ → ℤ → Outcome
set c z year month day hour minute second millisecond =
    if hour ==ℤ absent
    then set_fields c z days year month day (pos 0) (pos 0) (pos 0) (pos 0)
    else if minute ==ℤ absent
    then set_fields c z hours year month day hour (pos 0) (pos 0) (pos 0)
    else if second ==ℤ absent
    then set_fields c z minutes year month day hour minute (pos 0) (pos 0)
    else if millisecond ==ℤ absent
    then set_fields c z seconds year month day hour minute second (pos 0)
    else set_fields c z milliseconds year month day hour minute second millisecond

-- Whether a number is at least 0 and below the bound.
abbrev pub within : ℕ → ℤ → Bool
within bound (pos n) = ltb n bound
within bound (negsuc n) = false

-- `imbue_time`, behind the choice of the accuracy, which stays when the time is refused.
unfoldable pub imbue : DateTime → ℕ → ℤ → ℤ → ℤ → ℤ → Outcome
imbue d a hour minute second millisecond =
    let d : DateTime = record d { a_ = a } in
    if not (within 24 hour)
      && not (hour ==ℤ pos 24 && minute ==ℤ pos 0 && second ==ℤ pos 0 && millisecond ==ℤ pos 0)
    then (d, false)
    else if not (within 60 minute)
    then (d, false)
    else if not (within 60 second)
    then (d, false)
    else if not (within 1000 millisecond)
    then (d, false)
    else (
      record d {
        t_ = d.t_ +ℤ (scale (scale hour 3600 +ℤ scale minute 60 +ℤ second) 1000 +ℤ millisecond);
      },
      true,
    )

unfoldable pub imbue_time : DateTime → ℤ → ℤ → ℤ → ℤ → Outcome
imbue_time d hour minute second millisecond =
    if empty d || ltb days d.a_
    then (d, false)
    else if second ==ℤ absent
    then imbue d minutes hour minute (pos 0) (pos 0)
    else if millisecond ==ℤ absent
    then imbue d seconds hour minute second (pos 0)
    else imbue d milliseconds hour minute second millisecond
