-- ===== src/Time/Midnight.antt =====
-- `imbue_time` of lib/time.cpp: which times of day it takes, and where the timestamp ends up.
use lfz.Prelude.{
  ℕ, ◌+◌, ◌*◌, ◌<◌, ◌≡◌, ◌⊎◌, inl, inr, refl, arith, Bool, true, false, not, ◌&&◌, ◌||◌, if-cases,
  Bool-cases, ap, pos_part, ltb, if◌then◌else◌, ℤ, pos, ◌+ℤ◌, scale, ◌==ℤ◌,
}
use lfz.Time.{DateTime, empty, days, minutes, seconds, milliseconds}
use lfz.Time.Fields.{imbue, imbue_time, within, absent}

-- The parts of a time of day, or of the midnight at the end of the day.
abbrev pub IsTimeOfDay : ℕ → ℕ → ℕ → ℕ → Type 0
IsTimeOfDay h m s ms =
    ((h < 24) × (m < 60) × (s < 60) × (ms < 1000)) ⊎ ((h ≡ 24) × (m ≡ 0) × (s ≡ 0) × (ms ≡ 0))

abbrev pub milliseconds_of : ℕ → ℕ → ℕ → ℕ → ℕ
milliseconds_of h m s ms = ((h * 60 + m) * 60 + s) * 1000 + ms

-- Taken: the timestamp has moved by the time of day. Refused: the parts are none, and the timestamp is kept.
-- The accuracy is the given one in both.
abbrev pub Imbued : DateTime → ℕ → ℤ → ℤ → ℤ → ℤ → DateTime × Bool → Type 0
Imbued d a h m s ms (e, true) =
    IsTimeOfDay (pos_part h) (pos_part m) (pos_part s) (pos_part ms)
    × ((h ≡ pos (pos_part h))
        × (m ≡ pos (pos_part m))
        × (s ≡ pos (pos_part s))
        × (ms ≡ pos (pos_part ms)))
    × (e.t_ ≡ d.t_ +ℤ pos (milliseconds_of (pos_part h) (pos_part m) (pos_part s) (pos_part ms)))
    × (e.a_ ≡ a)
Imbued d a h m s ms (e, false) =
    (e.t_ ≡ d.t_)
    × (e.a_ ≡ a)
    × ((H M S U : ℕ) → h ≡ pos H → m ≡ pos M → s ≡ pos S → ms ≡ pos U → IsTimeOfDay H M S U → ⊥)

abbrev has_hour : ℤ → ℤ → ℤ → ℤ → Bool
has_hour h m s ms =
    not (within 24 h) && not (h ==ℤ pos 24 && m ==ℤ pos 0 && s ==ℤ pos 0 && ms ==ℤ pos 0)

module _ (h m s ms : ℤ) (hour : has_hour h m s ms ≡ false) (minute : not (within 60 m) ≡ false)
    (second : not (within 60 s) ≡ false) (millisecond : not (within 1000 ms) ≡ false) where
  taken-IsTimeOfDay : IsTimeOfDay (pos_part h) (pos_part m) (pos_part s) (pos_part ms)
  taken-IsTimeOfDay = ground (arith, hour, minute, second, millisecond)

  taken_parts :
      (h ≡ pos (pos_part h))
      × (m ≡ pos (pos_part m))
      × (s ≡ pos (pos_part s))
      × (ms ≡ pos (pos_part ms))
  taken_parts = ground (arith, hour, minute, second, millisecond)

  taken_sum :
      scale (scale h 3600 +ℤ scale m 60 +ℤ s) 1000 +ℤ ms
      ≡ pos (milliseconds_of (pos_part h) (pos_part m) (pos_part s) (pos_part ms))
  unfolding ◌+ℤ◌
  taken_sum = ground (arith, hour, minute, second, millisecond)

-- Parts that are refused.
refused_hour :
    (h m s ms : ℤ)
    → has_hour h m s ms ≡ true
    → (H M S U : ℕ) → h ≡ pos H
    → m ≡ pos M
    → s ≡ pos S
    → ms ≡ pos U
    → IsTimeOfDay H M S U
    → ⊥
refused_hour h m s ms e H M S U eh em es eu t = ground (arith, e, eh, em, es, eu, t)

refused_part : (bound : ℕ) (z : ℤ) (n : ℕ) → not (within bound z) ≡ true → z ≡ pos n → n < bound → ⊥
refused_part bound z n e ez less = ground (arith, e, ez, less)

imbue-Imbued : (d : DateTime) (a : ℕ) (h m s ms : ℤ) → Imbued d a h m s ms (imbue d a h m s ms)
unfolding imbue ◌+ℤ◌
imbue-Imbued d a h m s ms =
    if-cases (Imbued d a h m s ms) (has_hour h m s ms) _ _
      (λ e. (refl, refl, refused_hour h m s ms e))
      (λ hour.
        if-cases (Imbued d a h m s ms) (not (within 60 m)) _ _
          (λ e. (refl, refl, λ H M S U eh em es eu t. refused_part 60 m M e em (ground (arith, t))))
          (λ minute.
            if-cases (Imbued d a h m s ms) (not (within 60 s)) _ _
              (λ e.
                (refl, refl, λ H M S U eh em es eu t. refused_part 60 s S e es (ground (arith, t))))
              (λ second.
                if-cases (Imbued d a h m s ms) (not (within 1000 ms)) _ _
                  (λ e. (
                    refl,
                    refl,
                    λ H M S U eh em es eu t. refused_part 1000 ms U e eu (ground (arith, t)),
                  ))
                  (λ millisecond. (
                    taken-IsTimeOfDay h m s ms hour minute second millisecond,
                    taken_parts h m s ms hour minute second millisecond,
                    ap (λ n. d.t_ +ℤ n) (taken_sum h m s ms hour minute second millisecond),
                    refl,
                  )))))

-- The accuracy for the parts that are given, which are 0 where they are left out.
abbrev pub given_accuracy : ℤ → ℤ → ℕ
given_accuracy s ms =
    if s ==ℤ absent then minutes else if ms ==ℤ absent then seconds else milliseconds

abbrev pub given_second : ℤ → ℤ
given_second s = if s ==ℤ absent then pos 0 else s

abbrev pub given_millisecond : ℤ → ℤ → ℤ
given_millisecond s ms = if s ==ℤ absent || ms ==ℤ absent then pos 0 else ms

-- imbue_time leaves an empty time, and one that is finer than a day, as it is and refuses. Any other
-- gets the accuracy of the parts that are given, those left out being 0, whether it is taken or
-- refused; it is taken, and moved by exactly the time of day, where the parts are one, 24:00:00.000
-- included, and otherwise it keeps its timestamp and is refused. Timestamps are not bounded.
pub imbue_time-Imbued :
    (d : DateTime) (hour minute second millisecond : ℤ)
    → ((empty d || ltb days d.a_ ≡ true)
        × (imbue_time d hour minute second millisecond ≡ (d, false)))
      ⊎ ((empty d || ltb days d.a_ ≡ false)
          × Imbued d
              (given_accuracy second millisecond)
              hour
              minute
              (given_second second)
              (given_millisecond second millisecond)
              (imbue_time d hour minute second millisecond))
unfolding imbue_time
imbue_time-Imbued d h m s ms = elim (Bool-cases (empty d || ltb days d.a_)) [
  | inl set ↦ inl (set, rw set refl)
  | inr day ↦ inr (
    day,
    rw day (elim (Bool-cases (s ==ℤ absent)) [
      | inl e ↦ rw e (imbue-Imbued d minutes h m (pos 0) (pos 0))
      | inr e ↦ rw e (elim (Bool-cases (ms ==ℤ absent)) [
        | inl k ↦ rw k (imbue-Imbued d seconds h m s (pos 0))
        | inr k ↦ rw k (imbue-Imbued d milliseconds h m s ms)
      ])
    ]),
  )
]
