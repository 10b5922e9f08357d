-- ===== src/Time/Accuracy.antt =====
-- `operator+=` and `operator-=` of lib/time.cpp against the unit of the accuracy.
use lfz.Prelude.{
  ℕ, ◌<◌, ◌≡◌, refl, arith, false, if◌then◌else◌, ltb, ℤ, ◌+ℤ◌, ◌-ℤ◌, scale, quotient, magnitude,
}
use lfz.Time.{DateTime, empty, add_duration, counted, get_days, get_hours, get_minutes}
use lfz.Time.{hours, minutes, seconds, milliseconds}

-- The milliseconds of the smallest unit that an accuracy tells.
abbrev pub unit : ℕ → ℕ
unit a =
    if ltb a hours
    then 86400000
    else if ltb a minutes
    then 3600000
    else if ltb a seconds
    then 60000
    else if ltb a milliseconds
    then 1000
    else 1

-- How often the unit goes into a duration, towards zero.
abbrev pub units : ℕ → ℤ → ℤ
units a ms = quotient ms (unit a)

days_lem :
    (ms : ℤ)
    → scale (scale (scale (get_days ms) 24) 3600) 1000 ≡ scale (quotient ms 86400000) 86400000
days_lem ms = ground arith

hours_lem : (ms : ℤ) → scale (scale (get_hours ms) 3600) 1000 ≡ scale (quotient ms 3600000) 3600000
hours_lem ms = ground arith

minutes_lem : (ms : ℤ) → scale (scale (get_minutes ms) 60) 1000 ≡ scale (quotient ms 60000) 60000
minutes_lem ms = ground arith

millisecond_lem : (ms : ℤ) → ms ≡ scale (quotient ms 1) 1
millisecond_lem ms = ground arith

counted-units : (a : ℕ) (ms : ℤ) → counted a ms ≡ scale (units a ms) (unit a)
unfolding counted
counted-units a ms = ground (arith, days_lem ms, hours_lem ms, minutes_lem ms, millisecond_lem ms)

units-less : (a : ℕ) (ms : ℤ) → magnitude (ms -ℤ scale (units a ms) (unit a)) < unit a
unfolding ◌-ℤ◌
units-less a ms = ground arith

-- Adding a duration to a time that is set moves it by the whole units of its accuracy in the
-- duration, towards zero, which leaves less than a unit out.
pub add_duration-units :
    (d : DateTime) (ms : ℤ)
    → empty d ≡ false
    → ((add_duration d ms).t_ ≡ d.t_ +ℤ scale (units d.a_ ms) (unit d.a_))
      × (magnitude (ms -ℤ scale (units d.a_ ms) (unit d.a_)) < unit d.a_)
unfolding add_duration
add_duration-units d ms h = (rw (h, add_duration, counted-units d.a_ ms) refl, units-less d.a_ ms)
