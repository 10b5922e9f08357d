-- ===== src/Time/Rfc3339.antt =====
-- `set_rfc3339` of lib/time.cpp.
use lfz.Prelude.{
  ℕ, ◌+◌, true, false, ◌&&◌, ◌||◌, if◌then◌else◌, ltb, ◌==◌, Bytes, List, [], ◌∷◌, length, take,
  drop, elem, find_if, none, some, ℤ, pos, ◌+ℤ◌, negative, scale, ltb_ℤ, codes,
}
use lfz.Strings.{strtok}
use lfz.Time.{utc, Calendar, DateTime, Outcome, cleared, add_duration, from_minutes}
use lfz.Time.Text.{to_int}
use lfz.Time.Fields.{set, absent}
use lfz.Time.Rfc822.{entry, int_at, century}

-- The milliseconds for the digits of a fraction.
unfoldable pub fraction : Bytes → ℤ
fraction digits =
    let ms = to_int (take 3 digits) (pos 0) in
    if length digits == 1 then scale ms 100 else if length digits == 2 then scale ms 10 else ms

unfoldable pub set_tokens : Calendar → List Bytes → List Bytes → Outcome
set_tokens c date time =
    set c utc (century (int_at date 0)) (int_at date 1) (int_at date 2) (int_at time 0)
      (int_at time 1) (int_at time 2) (if length time == 4 then fraction (entry time 3) else absent)

unfoldable pub offset_minutes : List Bytes → ℤ
offset_minutes tokens =
    scale (to_int (entry tokens 0) (pos 10009)) 60 +ℤ to_int (entry tokens 1) (pos 10000)

unfoldable pub shift : ℕ → ℤ → DateTime → DateTime
shift sign minutes d =
    if ltb_ℤ minutes (pos 10000)
    then add_duration d (from_minutes (if sign == b'+' then negative minutes else minutes))
    else d

-- The offset, from its sign on, for a date and time that is set.
unfoldable pub add_offset : Bytes → DateTime → Outcome
add_offset [] d = (d, true)
add_offset (sign ∷ s) d =
    let tokens = strtok s (codes ":") true in
    if sign == b'Z'
    then (d, true)
    else if length tokens == 2
    then (shift sign (offset_minutes tokens) d, true)
    else (cleared, false)

-- Where the date and time could be set.
unfoldable pub offset_if : Bytes → Outcome → Outcome
offset_if offset (d, true) = add_offset offset d
offset_if offset (d, false) = (d, false)

unfoldable pub set_date_time : Calendar → List Bytes → List Bytes → Bytes → Outcome
set_date_time c date time offset =
    if length date == 3 && (length time == 3 || length time == 4)
    then offset_if offset (set_tokens c date time)
    else (cleared, false)

-- Behind the separator of date and time.
unfoldable pub set_parts : Calendar → Bytes → Bytes → Bytes → Outcome
set_parts c date time offset =
    set_date_time c (strtok date (codes "-") true) (strtok time (codes ":.") true) offset

-- The first unit that stands for an offset; without one the whole text is the time.
unfoldable pub offset_at : Bytes → ℕ
offset_at s = elim (find_if (λ c. elem c (codes "+-Zz")) s) [ none ↦ length s | some n ↦ n ]

unfoldable pub set_behind : Calendar → Bytes → Bytes → Outcome
set_behind c date s = set_parts c date (take (offset_at s) s) (drop (offset_at s) s)

-- `do_set_rfc3339`.
unfoldable pub set_rfc3339 : Calendar → Bytes → Outcome
set_rfc3339 c str =
    if ltb (length str) 19
    then (cleared, false)
    else elim (find_if (λ c. elem c (codes "tT ")) str) [
      | none ↦ (cleared, false)
      | some n ↦ set_behind c (take n str) (drop (n + 1) str)
    ]
