-- ===== src/Time/Order.antt =====
-- The comparisons of lib/time.cpp as orders.
use lfz.Prelude.{
  ℕ, ◌≡◌, refl, arith, Bool, true, false, not, if◌then◌else◌, ltb, ℤ, pos, ◌-ℤ◌, negative,
}
use lfz.Time.{Calendar, Tm, DateTime, lt_datetime, le_datetime}
use lfz.Time.{hours, minutes, seconds, milliseconds}
use lfz.Time.Compare.{by, compare_tm, compare_slow, compare_set, compare, coarser}

by_swap : (x y n m : ℤ) → n ≡ negative m → by x y n ≡ negative (by y x m)
unfolding by
by_swap x y n m h = ground (arith, h)

if_swap :
    (b : Bool) (n m : ℤ)
    → n ≡ negative m
    → (if b then pos 0 else n) ≡ negative (if b then pos 0 else m)
if_swap true n m h = refl
if_swap false n m h = h

compare_tm_swap :
    (a : ℕ) (t u : Tm) (x y : ℤ) → compare_tm a t u x y ≡ negative (compare_tm a u t y x)
unfolding compare_tm
compare_tm_swap a t u x y =
    let ms = if_swap (ltb a milliseconds) _ _ (by_swap x y (pos 0) (pos 0) refl) in
    let sec = if_swap (ltb a seconds) _ _ (by_swap t.tm_sec u.tm_sec _ _ ms) in
    let min = if_swap (ltb a minutes) _ _ (by_swap t.tm_min u.tm_min _ _ sec) in
    let hour = if_swap (ltb a hours) _ _ (by_swap t.tm_hour u.tm_hour _ _ min) in
    by_swap t.tm_year u.tm_year _ _
      (by_swap t.tm_mon u.tm_mon _ _ (by_swap t.tm_mday u.tm_mday _ _ hour))

coarser_comm : (a b : DateTime) → coarser a b ≡ coarser b a
coarser_comm a b = ground arith

compare_slow_swap :
    (c : Calendar) (a b : DateTime) → compare_slow c a b ≡ negative (compare_slow c b a)
unfolding compare_slow
compare_slow_swap c a b = rw (coarser_comm a b) (compare_tm_swap (coarser b a) _ _ _ _)

compare_set_swap :
    (c : Calendar) (a b : DateTime) → compare_set c a b ≡ negative (compare_set c b a)
unfolding compare_set by ◌-ℤ◌
compare_set_swap c a b = ground (arith, compare_slow_swap c a b)

unset_swap : (c : Calendar) (a b : DateTime) → compare c a b ≡ negative (compare c b a)
unfolding compare
unset_swap c a b = ground (arith, compare_set_swap c a b)

lt_not_le : (a b : DateTime) → lt_datetime a b ≡ not (le_datetime b a)
unfolding lt_datetime le_datetime
lt_not_le a b = ground arith

-- compare the other way round gives the opposite sign, with any calendar, and operator< is what
-- operator<= is not the other way round.
pub compare_swap :
    (c : Calendar) (a b : DateTime)
    → (compare c a b ≡ negative (compare c b a)) × (lt_datetime a b ≡ not (le_datetime b a))
compare_swap c a b = (unset_swap c a b, lt_not_le a b)
