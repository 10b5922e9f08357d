-- ===== src/Time/Rfc822.antt =====
-- `get_rfc822` and `set_rfc822` of lib/time.cpp.
use lfz.Prelude.{
  ℕ, zero, suc, Bool, true, false, not, ◌&&◌, ◌||◌, if◌then◌else◌, ltb, leb, ◌==◌, Bytes, List, [],
  ◌∷◌, length, take, drop, Option, some, ℤ, pos, negsuc, ◌+ℤ◌, negative, scale, ltb_ℤ, ◌==ℤ◌, codes,
  pos_part,
}
use lfz.Strings.{strtok}
use lfz.Format.{text, integer}
use lfz.Format.Sprintf.{do_sprintf}
use lfz.Time.{
  utc, Tm, Calendar, DateTime, Outcome, cleared, empty, get_tm, add_duration, from_minutes,
}
use lfz.Time.Text.{to_int}
use lfz.Time.Fields.{set, absent, within}

-- The entry of a table.
unfoldable pub entry : List Bytes → ℕ → Bytes
entry [] n = []
entry (x ∷ xs) zero = x
entry (x ∷ xs) (suc n) = entry xs n

abbrev pub months : List Bytes
months =
    codes "Jan"
    ∷ codes "Feb"
    ∷ codes "Mar"
    ∷ codes "Apr"
    ∷ codes "May"
    ∷ codes "Jun"
    ∷ codes "Jul"
    ∷ codes "Aug"
    ∷ codes "Sep"
    ∷ codes "Oct"
    ∷ codes "Nov"
    ∷ codes "Dec"
    ∷ []

abbrev pub wdays : List Bytes
wdays =
    codes "Sun"
    ∷ codes "Mon"
    ∷ codes "Tue"
    ∷ codes "Wed"
    ∷ codes "Thu"
    ∷ codes "Fri"
    ∷ codes "Sat"
    ∷ []

-- The text for the fields; `none` is no outcome of the code, see `do_sprintf`.
unfoldable pub print_rfc822 : Tm → Option Bytes
print_rfc822 t =
    if not (within 7 t.tm_wday) || not (within 12 t.tm_mon)
    then some []
    else do_sprintf (codes "%s, %02d %s %d %02d:%02d:%02d GMT") (
        text (entry wdays (pos_part t.tm_wday))
        ∷ integer 32 t.tm_mday
        ∷ text (entry months (pos_part t.tm_mon))
        ∷ integer 32 (t.tm_year +ℤ pos 1900)
        ∷ integer 32 t.tm_hour
        ∷ integer 32 t.tm_min
        ∷ integer 32 t.tm_sec
        ∷ [])

unfoldable pub get_rfc822 : Calendar → DateTime → Option Bytes
get_rfc822 c d = if empty d then some [] else print_rfc822 (get_tm c utc d)

unfoldable pub same : Bytes → Bytes → Bool
same [] [] = true
same [] (y ∷ t) = false
same (x ∷ s) [] = false
same (x ∷ s) (y ∷ t) = x == y && same s t

-- `getMonth`, with the number of the first name; 0 is none.
unfoldable pub month_from : ℕ → List Bytes → Bytes → ℕ
month_from n [] m = 0
month_from n (x ∷ xs) m = if same m x then n else month_from (suc n) xs m

abbrev pub get_month : Bytes → ℕ
get_month m = month_from 1 months m

-- The day, the month, the year, the hour, the minute and the second.
abbrev pub Parts : Type 0
Parts = ℤ × ℕ × ℤ × ℤ × ℤ × ℤ

-- `to_integral<int>` of the token at an index.
abbrev pub int_at : List Bytes → ℕ → ℤ
int_at tokens n = to_int (entry tokens n) (pos 0)

unfoldable pub read_day : List Bytes → ℤ × ℕ
read_day tokens =
    if int_at tokens 1 ==ℤ pos 0
    then (int_at tokens 2, get_month (entry tokens 1))
    else (int_at tokens 1, get_month (entry tokens 2))

unfoldable pub century : ℤ → ℤ
century year = if ltb_ℤ year (pos 1000) then year +ℤ pos 1900 else year

unfoldable pub read_parts : List Bytes → Parts
read_parts tokens =
    let (day, month) = read_day tokens in
    if ltb_ℤ (int_at tokens 6) (pos 1000)
    then (day, month, century (int_at tokens 3), int_at tokens 4, int_at tokens 5, int_at tokens 6)
    else (day, month, int_at tokens 6, int_at tokens 3, int_at tokens 4, int_at tokens 5)

abbrev pub first : Bytes → ℕ
first [] = 0
first (c ∷ s) = c

-- The minutes to add for the zone's token.
unfoldable pub zone_minutes : Bytes → ℤ
zone_minutes z =
    if length z == 5 && first z == b'+'
    then scale (negative (to_int (take 2 (drop 1 z)) (negsuc 9999))) 60
      +ℤ to_int (drop 3 z) (negsuc 9999)
    else if length z == 4
    then scale (to_int (take 2 z) (pos 10000)) 60 +ℤ to_int (drop 2 z) (pos 10000)
    else pos 0

unfoldable pub add_zone : ℤ → DateTime → DateTime
add_zone minutes d = if ltb_ℤ minutes (pos 10000) then add_duration d (from_minutes minutes) else d

unfoldable pub add_token : List Bytes → Outcome → Outcome
add_token tokens (d, done) =
    (if done && leb 8 (length tokens) then add_zone (zone_minutes (entry tokens 7)) d else d, done)

unfoldable pub set_from_parts : Calendar → Parts → Outcome
set_from_parts c (day, month, year, hour, minute, second) =
    set c utc year (pos month) day hour minute second absent

unfoldable pub set_words : Calendar → List Bytes → Outcome
set_words c tokens =
    if ltb (length tokens) 7
    then (cleared, false)
    else add_token tokens (set_from_parts c (read_parts tokens))

-- `do_set_rfc822`.
unfoldable pub set_rfc822 : Calendar → Bytes → Outcome
set_rfc822 c str = set_words c (strtok str (codes ", :-") true)
