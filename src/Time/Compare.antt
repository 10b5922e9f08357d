-- ===== src/Time/Compare.antt =====
-- `compare` and `compare_slow` of lib/time.cpp.
use lfz.Prelude.{ℕ, ◌-◌, ◌*◌, if◌then◌else◌, ltb, ◌==◌, ℤ, pos, negsuc, ◌-ℤ◌, ltb_ℤ}
use lfz.Time.{utc, Tm, Calendar, DateTime, empty, get_tm, get_milliseconds}
use lfz.Time.{hours, minutes, seconds, milliseconds}

-- By two numbers, and by what is left to compare where they are equal.
unfoldable pub by : ℤ → ℤ → ℤ → ℤ
by x y next = if ltb_ℤ x y then negsuc 0 else if ltb_ℤ y x then pos 1 else next

abbrev pub coarser : DateTime → DateTime → ℕ
coarser a b = if ltb a.a_ b.a_ then a.a_ else b.a_

-- Two dates and times, and their milliseconds, at an accuracy.
unfoldable pub compare_tm : ℕ → Tm → Tm → ℤ → ℤ → ℤ
compare_tm a t u ms_t ms_u = by t.tm_year u.tm_year (
    by t.tm_mon u.tm_mon (
      by t.tm_mday u.tm_mday (
        if ltb a hours
        then pos 0
        else by t.tm_hour u.tm_hour (
            if ltb a minutes
            then pos 0
            else by t.tm_min u.tm_min (
                if ltb a seconds
                then pos 0
                else by t.tm_sec u.tm_sec
                    (if ltb a milliseconds then pos 0 else by ms_t ms_u (pos 0)))))))

unfoldable pub compare_slow : Calendar → DateTime → DateTime → ℤ
compare_slow c a b =
    compare_tm (coarser a b) (get_tm c utc a) (get_tm c utc b) (get_milliseconds a)
      (get_milliseconds b)

abbrev pub two_days : ℕ
two_days = 60 * 60 * 24 * 1000 * 2

unfoldable pub compare_set : Calendar → DateTime → DateTime → ℤ
compare_set c a b =
    if a.a_ == b.a_
    then by a.t_ b.t_ (pos 0)
    else if ltb_ℤ (pos two_days) (a.t_ -ℤ b.t_)
    then pos 1
    else if ltb_ℤ (a.t_ -ℤ b.t_) (negsuc (two_days - 1))
    then negsuc 0
    else compare_slow c a b

unfoldable pub compare : Calendar → DateTime → DateTime → ℤ
compare c a b =
    if empty a
    then (if empty b then pos 0 else negsuc 0)
    else if empty b
    then pos 1
    else compare_set c a b
