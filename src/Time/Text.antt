-- ===== src/Time/Text.antt =====
-- `set` of lib/time.cpp from text: `YYYYmmDD[[[[HH]MM]SS]sss]`, with any other units between the fields; and
-- `to_integral<int>`.
use lfz.Prelude.{
  ℕ, zero, suc, ◌+◌, ◌-◌, ◌*◌, ◌%◌, ◌^◌, Bool, true, false, ◌&&◌, if◌then◌else◌, ltb, leb, Bytes,
  [], ◌∷◌, length, is_empty, Option, none, some, ℤ, pos, negsuc, ◌-ℤ◌, ◌==◌,
}
use lfz.Time.{Zone, Tm, no_tm, Calendar, Outcome, set_tm, cleared, add_duration}
use lfz.Time.{days, hours, minutes, seconds, milliseconds}

abbrev pub is_digit : ℕ → Bool
is_digit c = leb b'0' c && leb c b'9'

unfoldable pub skip : Bytes → Bytes
skip [] = []
skip (c ∷ s) = if is_digit c then c ∷ s else skip s

-- The loop of `parse`: the number and the rest. The iterator stays at what is no digit.
unfoldable pub parse_digits : ℕ → ℕ → Bytes → Option ℕ × Bytes
parse_digits zero w s = (some w, s)
parse_digits (suc count) w [] = (none, [])
parse_digits (suc count) w (c ∷ s) =
    if is_digit c then parse_digits count (w * 10 + (c - b'0')) s else (none, c ∷ s)

unfoldable pub parse : ℕ → Bytes → Option ℕ × Bytes
parse count s =
    if ltb (length (skip s)) count then (none, skip s) else parse_digits count 0 (skip s)

-- What the fields behind the day give: the hour, the minute, the second, the millisecond and the accuracy.
abbrev pub Clock : Type 0
Clock = ℕ × ℕ × ℕ × ℕ × ℕ

unfoldable pub parse_millisecond : ℕ → ℕ → ℕ → Bytes → Clock
parse_millisecond h m s text = elim (parse 3 text).0 [
  | none ↦ (h, m, s, 0, seconds)
  | some ms ↦ (h, m, s, ms, milliseconds)
]

unfoldable pub parse_second : ℕ → ℕ → Bytes → Clock
parse_second h m text = elim (parse 2 text).0 [
  | none ↦ (h, m, 0, 0, minutes)
  | some s ↦ parse_millisecond h m s (parse 2 text).1
]

unfoldable pub parse_minute : ℕ → Bytes → Clock
parse_minute h text = elim (parse 2 text).0 [
  | none ↦ (h, 0, 0, 0, hours)
  | some m ↦ parse_second h m (parse 2 text).1
]

unfoldable pub parse_clock : Bytes → Clock
parse_clock text = elim (parse 2 text).0 [
  | none ↦ (0, 0, 0, 0, days)
  | some h ↦ parse_minute h (parse 2 text).1
]

infixl 5 ◌>>=◌
abbrev ◌>>=◌ {ℓ κ} : {A : Type ℓ} {B : Type κ} → Option A → (A → Option B) → Option B
none >>= f = none
some a >>= f = f a

unfoldable pub parse_date : Bytes → Option (ℕ × ℕ × ℕ × Bytes)
parse_date text = do
  year ← (parse 4 text).0
  month ← (parse 2 (parse 4 text).1).0
  let behind = (parse 2 (parse 4 text).1).1
  day ← (parse 2 behind).0
  some (year, month, day, (parse 2 behind).1)

unfoldable pub set_parsed : Calendar → Zone → ℕ → ℕ → ℕ → Clock → Outcome
set_parsed c z year month day (h, m, s, ms, a) =
    let tm : Tm = record no_tm {
      tm_sec = pos s;
      tm_min = pos m;
      tm_hour = pos h;
      tm_mday = pos day;
      tm_mon = pos month -ℤ pos 1;
      tm_year = pos year -ℤ pos 1900;
    } in
    let (d, success) = set_tm c tm a z in
    if success then (add_duration d (pos ms), true) else (d, false)

-- `do_set`.
unfoldable pub set_text : Calendar → Zone → Bytes → Outcome
set_text c z text = elim (parse_date text) [
  | none ↦ (cleared, false)
  | some (year, month, day, rest) ↦ set_parsed c z year month day (parse_clock rest)
]

-- The number is of 32 bits; where the `int` of the code overflows, which it leaves undefined, it wraps here.
unfoldable pub int_loop : Bytes → ℕ → Option ℕ
int_loop [] n = some n
int_loop (c ∷ s) n = if is_digit c then int_loop s ((n * 10 + (c - b'0')) % 2 ^ 32) else none

unfoldable pub int_digits : Bytes → Option ℕ
int_digits s = if is_empty s then none else int_loop s 0

-- The number that the 32 bits are as an `int`.
unfoldable pub as_int : ℕ → ℤ
as_int n = if ltb n (2 ^ 31) then pos n else negsuc (2 ^ 32 - 1 - n)

-- `to_integral<int>` with an error value.
unfoldable pub to_int : Bytes → ℤ → ℤ
to_int [] error = error
to_int (c ∷ s) error =
    if c == b'-'
    then elim (int_digits s) [ none ↦ error | some n ↦ as_int ((2 ^ 32 - n) % 2 ^ 32) ]
    else elim (if c == b'+' then int_digits s else int_digits (c ∷ s)) [
      | none ↦ error
      | some n ↦ as_int n
    ]
