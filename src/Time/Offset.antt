-- ===== src/Time/Offset.antt =====
-- `set_rfc3339` of lib/time.cpp on dates with an offset.
use lfz.Prelude.{
  ℕ, ◌≤◌, ◌<◌, ◌≡◌, refl, ap, ◌∙◌, arith, true, false, Bytes, [], ◌∷◌, ◌++◌, length, codes, pos,
  elem, find_if-append, append-nil, take-append_length, drop-append_length, take-at, drop-after,
  ltb, find_if-none, All, ltb_ℤ,
}
use lfz.Strings.{strtok}
use lfz.Strings.Ignoring.{strtok-then, strtok-last}
use lfz.Time.{utc, Calendar}
use lfz.Time.Fields.{set, absent}
use lfz.Time.Digits.{two, four, Separators, two-clean, four-clean, read_two, read_four}
use lfz.Time.Rfc822.{entry, century}
use lfz.Time.Rfc3339.{
  set_rfc3339, set_behind, offset_at, offset_if, set_date_time, set_parts, set_tokens,
}

-- "1996-12-19T16:39:57".
abbrev pub date_time : ℕ → ℕ → ℕ → ℕ → ℕ → ℕ → Bytes
date_time year month day hour minute second =
    four year
    ++ (b'-'
        ∷ (two month
            ++ (b'-'
                ∷ (two day
                    ++ (b'T' ∷ (two hour ++ (b':' ∷ (two minute ++ (b':' ∷ two second)))))))))

abbrev pub InDigits : ℕ → ℕ → ℕ → ℕ → ℕ → ℕ → Type 0
InDigits year month day hour minute second =
    (1000 ≤ year)
    × (year < 10000)
    × (month < 100)
    × (day < 100)
    × (hour < 100)
    × (minute < 100)
    × (second < 100)

abbrev StartsOffset : Bytes → Type 0
StartsOffset [] = Unit
StartsOffset (c ∷ s) = elem c (codes "+-Zz") ≡ true

offset_at-append :
    (w offset : Bytes)
    → All (λ x. elem x (codes "+-Zz") ≡ false) w
    → StartsOffset offset
    → offset_at (w ++ offset) ≡ length w
unfolding offset_at
offset_at-append w [] clean k =
    rw (append-nil w, offset_at, find_if-none (λ x. elem x (codes "+-Zz")) w clean)
      (ap length (append-nil w))
offset_at-append w (c ∷ s) clean k =
    rw (offset_at, find_if-append (λ x. elem x (codes "+-Zz")) w s c clean k) refl

set_behind-append :
    (c : Calendar) (date w offset : Bytes)
    → All (λ x. elem x (codes "+-Zz") ≡ false) w
    → StartsOffset offset
    → set_behind c date (w ++ offset) ≡ set_parts c date w offset
unfolding set_behind
set_behind-append c date w offset clean k =
    rw
      (
        offset_at-append w offset clean k,
        take-append_length w offset (length w) refl,
        drop-append_length w offset,
      )
      refl

separator : elem b'T' (codes "tT ") ≡ true
unfolding elem
separator = refl

set_rfc3339-parts :
    (c : Calendar) (date w offset : Bytes)
    → All (λ x. elem x (codes "tT ") ≡ false) date
    → All (λ x. elem x (codes "+-Zz") ≡ false) w
    → StartsOffset offset
    → 19 ≤ length (date ++ (b'T' ∷ (w ++ offset)))
    → set_rfc3339 c (date ++ (b'T' ∷ (w ++ offset))) ≡ set_parts c date w offset
unfolding set_rfc3339
set_rfc3339-parts c date w offset date_clean clean k long =
    let enough : ltb (length (date ++ (b'T' ∷ (w ++ offset)))) 19 ≡ false = ground (arith, long) in
    rw
      (
        enough,
        find_if-append (λ x. elem x (codes "tT ")) date (w ++ offset) b'T' date_clean separator,
        take-at date (w ++ offset) b'T',
        drop-after date (w ++ offset) b'T',
      )
      (set_behind-append c date w offset clean k)

module _ (year month day hour minute second : ℕ)
    (h : InDigits year month day hour minute second) where
  dates :
      strtok (four year ++ (b'-' ∷ (two month ++ (b'-' ∷ two day)))) (codes "-") true
      ≡ four year ∷ two month ∷ two day ∷ []
  unfolding elem
  dates =
      let ds = codes "-" in
      let sep : Separators ds = (refl, tt) in
      strtok-then ds (four year) b'-' _ _ (refl, four-clean ds year h.1 sep) refl
        (strtok-then ds (two month) b'-' _ _ (refl, two-clean ds month h.2 sep) refl
          (strtok-last ds (two day) (refl, two-clean ds day h.3 sep)))

  times :
      strtok (two hour ++ (b':' ∷ (two minute ++ (b':' ∷ two second)))) (codes ":.") true
      ≡ two hour ∷ two minute ∷ two second ∷ []
  unfolding elem
  times =
      let ds = codes ":." in
      let sep : Separators ds = (refl, (refl, tt)) in
      strtok-then ds (two hour) b':' _ _ (refl, two-clean ds hour h.4 sep) refl
        (strtok-then ds (two minute) b':' _ _ (refl, two-clean ds minute h.5 sep) refl
          (strtok-last ds (two second) (refl, two-clean ds second h.6 sep)))

  tokens :
      (c : Calendar)
      → set_tokens c
          (four year ∷ two month ∷ two day ∷ [])
          (two hour ∷ two minute ∷ two second ∷ [])
        ≡ set c utc (pos year) (pos month) (pos day) (pos hour) (pos minute) (pos second) absent
  unfolding set_tokens entry century
  tokens c =
      let above : ltb_ℤ (pos year) (pos 1000) ≡ false = ground (arith, h) in
      rw
        (
          read_four year (pos 0) h.1,
          read_two month (pos 0) h.2,
          read_two day (pos 0) h.3,
          read_two hour (pos 0) h.4,
          read_two minute (pos 0) h.5,
          read_two second (pos 0) h.6,
          above,
        )
        refl

  time_clean :
      All
        (λ x. elem x (codes "+-Zz") ≡ false)
        (two hour ++ (b':' ∷ (two minute ++ (b':' ∷ two second))))
  unfolding elem
  time_clean =
      let ds = codes "+-Zz" in
      let sep : Separators ds = (refl, (refl, (refl, (refl, tt)))) in
      let (h1, (h0, e)) = two-clean ds hour h.4 sep in
      let (m1, (m0, e)) = two-clean ds minute h.5 sep in
      (h1, (h0, (refl, (m1, (m0, (refl, two-clean ds second h.6 sep))))))

  date_clean :
      All
        (λ x. elem x (codes "tT ") ≡ false)
        (four year ++ (b'-' ∷ (two month ++ (b'-' ∷ two day))))
  unfolding elem
  date_clean =
      let ds = codes "tT " in
      let sep : Separators ds = (refl, (refl, (refl, tt))) in
      let (y3, (y2, (y1, (y0, e)))) = four-clean ds year h.1 sep in
      let (m1, (m0, e)) = two-clean ds month h.2 sep in
      (y3, (y2, (y1, (y0, (refl, (m1, (m0, (refl, two-clean ds day h.3 sep))))))))

  -- The date and the time are set, then the offset is looked at.
  pub set_rfc3339-date_time :
      (c : Calendar) (offset : Bytes)
      → StartsOffset offset
      → set_rfc3339 c (date_time year month day hour minute second ++ offset)
        ≡ offset_if offset
            (set c utc (pos year) (pos month) (pos day) (pos hour) (pos minute) (pos second) absent)
  unfolding set_parts set_date_time
  set_rfc3339-date_time c offset k =
      let date = four year ++ (b'-' ∷ (two month ++ (b'-' ∷ two day))) in
      let time = two hour ++ (b':' ∷ (two minute ++ (b':' ∷ two second))) in
      set_rfc3339-parts c date time offset date_clean time_clean k (omega arith)
      ∙ rw (dates, times) (ap (offset_if offset) (tokens c))
