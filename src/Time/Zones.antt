-- ===== src/Time/Zones.antt =====
-- What `set_rfc3339` of lib/time.cpp makes of the zone behind the time.
use lfz.Prelude.{
  ℕ, ◌+◌, ◌*◌, ◌<◌, ◌≡◌, refl, ap, ◌∙◌, arith, Bool, true, false, Bytes, [], ◌∷◌, ◌++◌, codes, elem,
  find_if, ℤ, pos, negative, ◌+ℤ◌, if◌then◌else◌, ltb_ℤ,
}
use lfz.Strings.{strtok, strtok_loop, strtok_found}
use lfz.Strings.Ignoring.{strtok-then, strtok-last}
use lfz.Time.{utc, Calendar, DateTime, cleared, add_duration, from_minutes}
use lfz.Time.Fields.{set, absent}
use lfz.Time.Digits.{two, Separators, two-clean, read_two}
use lfz.Time.Rfc822.{entry}
use lfz.Time.Rfc3339.{set_rfc3339, offset_if, add_offset, offset_minutes, shift}
use lfz.Time.Offset.{InDigits, date_time, set_rfc3339-date_time}

abbrev pub sign : Bool → ℕ
sign true = b'+'
sign false = b'-'

-- "-08:00".
abbrev pub numeric : Bool → ℕ → ℕ → Bytes
numeric plus h m = sign plus ∷ (two h ++ (b':' ∷ two m))

offset_words :
    (h m : ℕ)
    → h < 100
    → m < 100
    → strtok (two h ++ (b':' ∷ two m)) (codes ":") true ≡ two h ∷ two m ∷ []
unfolding elem
offset_words h m less_h less_m =
    let ds = codes ":" in
    let sep : Separators ds = (refl, tt) in
    strtok-then ds (two h) b':' _ _ (refl, two-clean ds h less_h sep) refl
      (strtok-last ds (two m) (refl, two-clean ds m less_m sep))

offset_minutes-two :
    (h m : ℕ) → h < 100 → m < 100 → offset_minutes (two h ∷ two m ∷ []) ≡ pos (h * 60 + m)
unfolding offset_minutes entry ◌+ℤ◌
offset_minutes-two h m less_h less_m =
    rw (read_two h (pos 10009) less_h, read_two m (pos 10000) less_m) (ground arith)

-- The minutes to add: east of Greenwich the clocks are ahead.
abbrev pub correction : Bool → ℕ → ℤ
correction plus n = if plus then negative (pos n) else pos n

shift-sign :
    (plus : Bool) (n : ℕ) (d : DateTime)
    → n < 10000
    → shift (sign plus) (pos n) d ≡ add_duration d (from_minutes (correction plus n))
unfolding shift
shift-sign true n d h =
    let small : ltb_ℤ (pos n) (pos 10000) ≡ true = ground (arith, h) in rw small refl
shift-sign false n d h =
    let small : ltb_ℤ (pos n) (pos 10000) ≡ true = ground (arith, h) in rw small refl

add_offset-numeric :
    (plus : Bool) (h m : ℕ) (d : DateTime)
    → h < 100
    → m < 100
    → add_offset (numeric plus h m) d
      ≡ (add_duration d (from_minutes (correction plus (h * 60 + m))), true)
unfolding add_offset
add_offset-numeric true h m d less_h less_m =
    rw (offset_words h m less_h less_m, offset_minutes-two h m less_h less_m)
      (ap (λ e. (e, true)) (shift-sign true (h * 60 + m) d (omega (arith, less_h, less_m))))
add_offset-numeric false h m d less_h less_m =
    rw (offset_words h m less_h less_m, offset_minutes-two h m less_h less_m)
      (ap (λ e. (e, true)) (shift-sign false (h * 60 + m) d (omega (arith, less_h, less_m))))

lower_z : (d : DateTime) → add_offset (codes "z") d ≡ (cleared, false)
unfolding add_offset strtok strtok_loop strtok_found find_if
lower_z d = refl

-- Where a date and a time of two digits each, with a year from 1000 to 9999, can be set, set_rfc3339
-- takes a numeric offset off or adds it in minutes, keeps the time before Z, and refuses it before
-- z.
pub set_rfc3339-zones :
    (c : Calendar) (year month day hour minute second h m : ℕ) (plus : Bool) (d : DateTime)
    → InDigits year month day hour minute second
    → h < 100
    → m < 100
    → set c utc (pos year) (pos month) (pos day) (pos hour) (pos minute) (pos second) absent
      ≡ (d, true)
    → (set_rfc3339 c (date_time year month day hour minute second ++ numeric plus h m)
        ≡ (add_duration d (from_minutes (correction plus (h * 60 + m))), true))
      × (set_rfc3339 c (date_time year month day hour minute second ++ codes "Z") ≡ (d, true))
      × (set_rfc3339 c (date_time year month day hour minute second ++ codes "z")
          ≡ (cleared, false))
unfolding offset_if add_offset elem
set_rfc3339-zones c year month day hour minute second h m plus d digits less_h less_m done =
    let there =
      λ (offset : Bytes). set_rfc3339-date_time year month day hour minute second digits c offset in
    let known : elem (sign plus) (codes "+-Zz") ≡ true =
      elim plus as (λ b. elem (sign b) (codes "+-Zz") ≡ true) [ true ↦ refl | false ↦ refl ] in
    (
      there (numeric plus h m) known
          ∙ ap (offset_if (numeric plus h m)) done
          ∙ add_offset-numeric plus h m d less_h less_m,
      there (codes "Z") refl ∙ ap (offset_if (codes "Z")) done,
      there (codes "z") refl ∙ ap (offset_if (codes "z")) done ∙ lower_z d,
    )
