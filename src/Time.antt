-- ===== src/Time.antt =====
-- `datetime` and `duration` of lib/time.cpp and lib/libfilezilla/time.hpp, in the build for Unix. Times
-- are whole numbers of milliseconds; the sums are those of ℤ, without overflow of int64_t. The C library's
-- calendar is a parameter.
pub mod Text
pub mod Rfc822
pub mod Rfc3339
pub mod Compare
pub mod Order
pub mod Accuracy
pub mod Midnight
pub mod Digits
pub mod Printed
pub mod Offset
pub mod Zones
pub mod Words
pub mod RoundTrip
pub mod Fields
mod Tests
use lfz.Prelude.{
  ℕ, zero, suc, ◌+◌, ◌-◌, ◌*◌, ◌/◌, ◌%◌, ◌^◌, ◌≡◌, Bool, true, false, not, ◌&&◌, ◌||◌, Option, none,
  some, ltb, leb, ◌==◌, if◌then◌else◌, ℤ, pos, negsuc, ◌+ℤ◌, ◌-ℤ◌, negative, scale, quotient,
  remainder, ltb_ℤ, ◌==ℤ◌,
}

pub data Zone : Type 0 where
  utc local : Zone

abbrev pub is_utc : Zone → Bool
is_utc utc = true
is_utc local = false

-- `struct tm`, less the day of the year and the daylight saving flag, which nothing here reads.
pub record Tm : Type 0 where
  pub tm_sec : ℤ
  pub tm_min : ℤ
  pub tm_hour : ℤ
  pub tm_mday : ℤ
  pub tm_mon : ℤ
  pub tm_year : ℤ
  pub tm_wday : ℤ

abbrev pub no_tm : Tm
no_tm = record {
  tm_sec = pos 0;
  tm_min = pos 0;
  tm_hour = pos 0;
  tm_mday = pos 0;
  tm_mon = pos 0;
  tm_year = pos 0;
  tm_wday = pos 0;
}

-- The C library's functions; `none` is an error, which they report in errno.
pub record Calendar : Type 0 where
  pub timegm : Tm → Option ℤ
  pub mktime : Tm → Option ℤ
  pub gmtime : ℤ → Option Tm
  pub localtime : ℤ → Option Tm

-- The values of `accuracy`, in order.
abbrev pub days : ℕ
days = 0

abbrev pub hours : ℕ
hours = 1

abbrev pub minutes : ℕ
minutes = 2

abbrev pub seconds : ℕ
seconds = 3

abbrev pub milliseconds : ℕ
milliseconds = 4

abbrev pub invalid : ℤ
invalid = negsuc (2 ^ 63 - 1)

pub record DateTime : Type 0 where
  pub t_ : ℤ
  pub a_ : ℕ

abbrev pub cleared : DateTime
cleared = record { t_ = invalid; a_ = days }

abbrev pub empty : DateTime → Bool
empty d = d.t_ ==ℤ invalid

-- Durations are milliseconds; the getters of `duration`.
abbrev pub get_days : ℤ → ℤ
get_days ms = quotient (quotient (quotient ms 1000) 3600) 24

abbrev pub get_hours : ℤ → ℤ
get_hours ms = quotient (quotient ms 1000) 3600

abbrev pub get_minutes : ℤ → ℤ
get_minutes ms = quotient (quotient ms 1000) 60

abbrev pub get_seconds : ℤ → ℤ
get_seconds ms = quotient ms 1000

abbrev pub from_minutes : ℤ → ℤ
from_minutes m = scale (scale m 1000) 60

unfoldable pub lt_datetime : DateTime → DateTime → Bool
lt_datetime a b =
    if a.t_ ==ℤ invalid
    then not (b.t_ ==ℤ invalid)
    else if b.t_ ==ℤ invalid
    then false
    else if ltb_ℤ a.t_ b.t_
    then true
    else if ltb_ℤ b.t_ a.t_
    then false
    else ltb a.a_ b.a_

unfoldable pub le_datetime : DateTime → DateTime → Bool
le_datetime a b =
    if a.t_ ==ℤ invalid
    then true
    else if b.t_ ==ℤ invalid
    then false
    else if ltb_ℤ a.t_ b.t_
    then true
    else if ltb_ℤ b.t_ a.t_
    then false
    else leb a.a_ b.a_

unfoldable pub eq_datetime : DateTime → DateTime → Bool
eq_datetime a b = a.t_ ==ℤ b.t_ && a.a_ == b.a_

-- What `operator+=` adds of a duration, by the accuracy.
unfoldable pub counted : ℕ → ℤ → ℤ
counted a ms =
    if ltb a hours
    then scale (scale (scale (get_days ms) 24) 3600) 1000
    else if ltb a minutes
    then scale (scale (get_hours ms) 3600) 1000
    else if ltb a seconds
    then scale (scale (get_minutes ms) 60) 1000
    else if ltb a milliseconds
    then scale (get_seconds ms) 1000
    else ms

-- `operator+=`.
unfoldable pub add_duration : DateTime → ℤ → DateTime
add_duration d ms = if empty d then d else record d { t_ = d.t_ +ℤ counted d.a_ ms }

unfoldable pub sub_duration : DateTime → ℤ → DateTime
sub_duration d ms = add_duration d (negative ms)

-- `operator-`.
unfoldable pub difference_of : DateTime → DateTime → ℤ
difference_of a b = a.t_ -ℤ b.t_

unfoldable pub get_milliseconds : DateTime → ℤ
get_milliseconds d = remainder d.t_ 1000

unfoldable pub get_time_t : DateTime → ℤ
get_time_t d = quotient d.t_ 1000

-- Where the library fails it leaves the zeros.
unfoldable pub get_tm : Calendar → Zone → DateTime → Tm
get_tm c z d =
    elim (if is_utc z || d.a_ == days
      then c.gmtime (get_time_t d)
      else c.localtime (get_time_t d)) [ none ↦ no_tm | some tm ↦ tm ]

-- What a setter leaves and whether it succeeded.
abbrev pub Outcome : Type 0
Outcome = DateTime × Bool

-- `set(tm&, accuracy, zone)`.
unfoldable pub set_tm : Calendar → Tm → ℕ → Zone → Outcome
set_tm c tm a z = elim (if leb hours a && not (is_utc z) then c.mktime tm else c.timegm tm) [
  | none ↦ (cleared, false)
  | some t ↦ (record { t_ = scale t 1000; a_ = a }, true)
]
