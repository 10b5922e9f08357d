-- ===== src/Prelude/Digits.antt =====
-- Printed numbers read by `to_integral`, over the type of 16 bits.
use lfz.Prelude.{ℕ, zero, suc, ◌+◌, ◌-◌, ◌*◌, ◌/◌, ◌%◌, ◌≤◌, ◌<◌, ◌≡◌, refl, arith, true, false}
use lfz.Prelude.{Bytes, [], ◌∷◌, ◌++◌, Option, none, some, All, All-append, ltb, ◌==◌}
use lfz.Prelude.{to_string_fuel, to_string, to_integral_loop, to_integral_digits}
use lfz.Prelude.{to_integral, Bool-cases, inl, inr, tests, is_empty, ◌∙◌}

abbrev pub IsDigit : ℕ → Type 0
IsDigit c = (b'0' ≤ c) × (c ≤ b'9')

abbrev pub below_digits : ℕ → ℕ
below_digits zero = 1
below_digits (suc k) = 10 * below_digits k

to_string_fuel-IsDigit : (fuel n : ℕ) → All IsDigit (to_string_fuel fuel n)
unfolding to_string_fuel
to_string_fuel-IsDigit zero n = tt
to_string_fuel-IsDigit (suc fuel) n =
    let rest = to_string_fuel-IsDigit fuel (n / 10) in
    let joined =
      All-append IsDigit (to_string_fuel fuel (n / 10)) ((b'0' + n % 10) ∷ []) rest
        ((omega arith, omega arith), tt) in
    ground (arith, joined)

continue_loop : Bytes → Option ℕ → Option ℕ
continue_loop t none = none
continue_loop t (some r) = to_integral_loop 65536 t r

loop-append :
    (s t : Bytes) (r : ℕ)
    → to_integral_loop 65536 (s ++ t) r ≡ continue_loop t (to_integral_loop 65536 s r)
unfolding to_integral_loop continue_loop
loop-append [] t r = refl
loop-append (c ∷ s) t r = ground (arith, loop-append s t ((r * 10 % 65536 + (c - b'0')) % 65536))

loop-digit : (n : ℕ) → n < 65536 → to_integral_loop 65536 ((b'0' + n % 10) ∷ []) (n / 10) ≡ some n
unfolding to_integral_loop
loop-digit n h =
    let wrapped : (n / 10 * 10 % 65536 + (b'0' + n % 10 - b'0')) % 65536 ≡ n = omega arith in
    ground (arith, wrapped)

loop_single : (n : ℕ) → n < 10 → to_integral_loop 65536 ((b'0' + n) ∷ []) 0 ≡ some n
unfolding to_integral_loop
loop_single n h = ground arith

positive_fuel : (fuel n : ℕ) → n < below_digits (suc fuel) → ltb n 10 ≡ false → 0 < fuel
positive_fuel zero n small e = absurd (ground arith)
positive_fuel (suc fuel) n small e = omega arith

append_not_empty : (s : Bytes) (c : ℕ) → is_empty (s ++ (c ∷ [])) ≡ false
append_not_empty [] c = refl
append_not_empty (x ∷ s) c = refl

one_digit : (fuel n : ℕ) → ltb n 10 ≡ true → to_string_fuel (suc fuel) n ≡ (b'0' + n) ∷ []
unfolding to_string_fuel
one_digit fuel n e = rw (e, to_string_fuel)

more_digits :
    (fuel n : ℕ)
    → ltb n 10 ≡ false
    → to_string_fuel (suc fuel) n ≡ to_string_fuel fuel (n / 10) ++ ((b'0' + n % 10) ∷ [])
unfolding to_string_fuel
more_digits fuel n e = rw (e, to_string_fuel)

loop-to_string :
    (fuel n : ℕ)
    → n < below_digits fuel
    → n < 65536
    → 0 < fuel
    → to_integral_loop 65536 (to_string_fuel fuel n) 0 ≡ some n
unfolding continue_loop
loop-to_string zero n small h positive = absurd (omega arith)
loop-to_string (suc fuel) n small h positive = elim (Bool-cases (ltb n 10)) [
  | inl e ↦ rw (one_digit fuel n e) (loop_single n (omega tests))
  | inr e ↦
      rw
        (
          more_digits fuel n e,
          loop-append (to_string_fuel fuel (n / 10)) ((b'0' + n % 10) ∷ []) 0,
          loop-to_string fuel (n / 10) (omega arith) (omega arith) (positive_fuel fuel n small e),
          continue_loop,
        )
        (loop-digit n h)
]

to_string-not_empty : (n : ℕ) → is_empty (to_string n) ≡ false
unfolding to_string to_string_fuel
to_string-not_empty n =
    ground (arith, append_not_empty (to_string_fuel 19 (n / 10)) (b'0' + n % 10))

-- Printed digits stand for themselves, without a sign.
to_integral-digits : (s : Bytes) → All IsDigit s → to_integral 65536 s ≡ to_integral_digits 65536 s
unfolding to_integral to_integral_digits
to_integral-digits [] h = refl
to_integral-digits (c ∷ s) (hc, hs) =
    let no_minus : (c == b'-') ≡ false = ground arith in
    let no_plus : (c == b'+') ≡ false = ground arith in rw (no_minus, no_plus)

digits-loop :
    (s : Bytes) → is_empty s ≡ false → to_integral_digits 65536 s ≡ to_integral_loop 65536 s 0
unfolding to_integral_digits
digits-loop [] h = cc h
digits-loop (c ∷ s) h = refl

pub to_string-IsDigit : (n : ℕ) → All IsDigit (to_string n)
unfolding to_string
to_string-IsDigit n = to_string_fuel-IsDigit 20 n

pub to_integral-to_string : (n : ℕ) → n < 65536 → to_integral 65536 (to_string n) ≡ some n
to_integral-to_string n h =
    to_integral-digits (to_string n) (to_string-IsDigit n)
    ∙ digits-loop (to_string n) (to_string-not_empty n)
    ∙ (unfold to_string in loop-to_string 20 n (omega arith) h (omega arith))
