-- ===== src/Time/Words.antt =====
-- The words of an RFC 822 date, as `set_rfc822` of lib/time.cpp finds them.
use lfz.Prelude.{
  ℕ, zero, suc, ◌<◌, ◌≡◌, refl, ◌∙◌, arith, true, Bytes, List, [], ◌∷◌, length, codes, elem, All,
}
use lfz.Strings.{strtok}
use lfz.Strings.Ignoring.{IsWord, strtok-then, strtok-delimiter, strtok-last}
use lfz.Time.Printed.{joined}
use lfz.Time.Rfc822.{entry, months, wdays, get_month, month_from, same}

abbrev pub delims : Bytes
delims = codes ", :-"

pub tokens-joined :
    (wday day month year hour minute second : Bytes)
    → All (IsWord delims) (wday ∷ day ∷ month ∷ year ∷ hour ∷ minute ∷ second ∷ [])
    → strtok (joined wday day month year hour minute second) delims true
      ≡ wday ∷ day ∷ month ∷ year ∷ hour ∷ minute ∷ second ∷ codes "GMT" ∷ []
unfolding elem
tokens-joined wday day month year hour minute second (hw, (hd, (hm, (hy, (hh, (hi, (hs, h))))))) =
    let gmt = strtok-last delims (codes "GMT") (refl, (refl, (refl, (refl, tt)))) in
    let to_second = strtok-then delims second b' ' _ _ hs refl gmt in
    let to_minute = strtok-then delims minute b':' _ _ hi refl to_second in
    let to_hour = strtok-then delims hour b':' _ _ hh refl to_minute in
    let to_year = strtok-then delims year b' ' _ _ hy refl to_hour in
    let to_month = strtok-then delims month b' ' _ _ hm refl to_year in
    let to_day = strtok-then delims day b' ' _ _ hd refl to_month in
    strtok-then delims wday b',' _ _ hw refl (strtok-delimiter delims b' ' _ refl ∙ to_day)

entry-All :
    (P : Bytes → Type 0) (xs : List Bytes) (n : ℕ) → All P xs → n < length xs → P (entry xs n)
unfolding entry
entry-All P [] n h less = absurd (omega (arith, less))
entry-All P (x ∷ xs) zero (hx, h) less = hx
entry-All P (x ∷ xs) (suc n) (hx, h) less = entry-All P xs n h (omega (arith, less))

pub wday-IsWord : (n : ℕ) → n < 7 → IsWord delims (entry wdays n)
unfolding elem
wday-IsWord n h =
    entry-All (IsWord delims) wdays n
      (
        (refl, (refl, (refl, (refl, tt)))),
        (
          (refl, (refl, (refl, (refl, tt)))),
          (
            (refl, (refl, (refl, (refl, tt)))),
            (
              (refl, (refl, (refl, (refl, tt)))),
              (
                (refl, (refl, (refl, (refl, tt)))),
                ((refl, (refl, (refl, (refl, tt)))), ((refl, (refl, (refl, (refl, tt)))), tt)),
              ),
            ),
          ),
        ),
      )
      h

pub month-IsWord : (n : ℕ) → n < 12 → IsWord delims (entry months n)
unfolding elem
month-IsWord n h =
    entry-All (IsWord delims) months n
      (
        (refl, (refl, (refl, (refl, tt)))),
        (
          (refl, (refl, (refl, (refl, tt)))),
          (
            (refl, (refl, (refl, (refl, tt)))),
            (
              (refl, (refl, (refl, (refl, tt)))),
              (
                (refl, (refl, (refl, (refl, tt)))),
                (
                  (refl, (refl, (refl, (refl, tt)))),
                  (
                    (refl, (refl, (refl, (refl, tt)))),
                    (
                      (refl, (refl, (refl, (refl, tt)))),
                      (
                        (refl, (refl, (refl, (refl, tt)))),
                        (
                          (refl, (refl, (refl, (refl, tt)))),
                          (
                            (refl, (refl, (refl, (refl, tt)))),
                            ((refl, (refl, (refl, (refl, tt)))), tt),
                          ),
                        ),
                      ),
                    ),
                  ),
                ),
              ),
            ),
          ),
        ),
      )
      h

pub get_month-entry : (n : ℕ) → n < 12 → get_month (entry months n) ≡ suc n
unfolding entry month_from same
get_month-entry zero h = refl
get_month-entry (suc zero) h = refl
get_month-entry (suc (suc zero)) h = refl
get_month-entry (suc (suc (suc zero))) h = refl
get_month-entry (suc (suc (suc (suc zero)))) h = refl
get_month-entry (suc (suc (suc (suc (suc zero))))) h = refl
get_month-entry (suc (suc (suc (suc (suc (suc zero)))))) h = refl
get_month-entry (suc (suc (suc (suc (suc (suc (suc zero))))))) h = refl
get_month-entry (suc (suc (suc (suc (suc (suc (suc (suc zero)))))))) h = refl
get_month-entry (suc (suc (suc (suc (suc (suc (suc (suc (suc zero))))))))) h = refl
get_month-entry (suc (suc (suc (suc (suc (suc (suc (suc (suc (suc zero)))))))))) h = refl
get_month-entry (suc (suc (suc (suc (suc (suc (suc (suc (suc (suc (suc zero))))))))))) h = refl
get_month-entry (suc (suc (suc (suc (suc (suc (suc (suc (suc (suc (suc (suc n)))))))))))) h =
    absurd (omega (arith, h))
