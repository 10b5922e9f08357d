-- ===== src/Format/Reread.antt =====
-- `to_integral<int>` on the numbers that lib/libfilezilla/format.hpp prints.
use lfz.Prelude.{
  ℕ, zero, suc, ◌+◌, ◌-◌, ◌*◌, ◌/◌, ◌%◌, ◌^◌, ◌<◌, ◌≡◌, refl, ap, ◌∙◌, arith, true, false, Bytes,
  [], ◌∷◌, ◌++◌, some, ℤ, pos, negsuc, magnitude, Bool-cases, inl, inr, ◌==◌, sym, negative,
  if-cases,
}
use lfz.Format.{Field, put_digits, lead_of, integral_to_string}
use lfz.Time.Text.{to_int, int_digits, int_loop, as_int, is_digit}

abbrev pub below : ℕ → ℕ
below zero = 1
below (suc n) = 10 * below n

int_loop-digit :
    (n m : ℕ) (s : Bytes)
    → n < 10
    → m * 10 + n < 2 ^ 32
    → int_loop ((b'0' + n) ∷ s) m ≡ int_loop s (m * 10 + n)
unfolding int_loop
int_loop-digit n m s h small =
    let digit : is_digit (b'0' + n) ≡ true = ground (arith, h) in
    let value : (m * 10 + (b'0' + n - b'0')) % 2 ^ 32 ≡ m * 10 + n = omega (arith, small) in
    rw (digit, int_loop, value) refl

int_loop-last :
    (v : ℕ) (s : Bytes) → v < 2 ^ 32 → int_loop ((b'0' + v % 10) ∷ s) (v / 10) ≡ int_loop s v
int_loop-last v s small =
    int_loop-digit (v % 10) (v / 10) s (omega arith) (omega (arith, small))
    ∙ ap (int_loop s) (omega arith)

-- The digits in front of a text are read as the number.
int_loop-put_digits :
    (rounds v : ℕ) (s : Bytes)
    → v < below (suc rounds)
    → v < 2 ^ 32
    → int_loop (put_digits (suc rounds) v s) 0 ≡ int_loop s v
unfolding put_digits
int_loop-put_digits zero v s h bound =
    let small : (v / 10 == 0) ≡ true = ground (arith, h) in
    let none_left : 0 ≡ v / 10 = omega (arith, h) in
    rw (small, put_digits) (ap (int_loop ((b'0' + v % 10) ∷ s)) none_left ∙ int_loop-last v s bound)
int_loop-put_digits (suc rounds) v s h bound =
    let rest =
      int_loop-put_digits rounds (v / 10) ((b'0' + v % 10) ∷ s) (omega (arith, h))
        (omega (arith, bound)) in
    elim (Bool-cases (v / 10 == 0)) [
      | inl e ↦
          let none_left : 0 ≡ v / 10 = ground (arith, e) in
          rw (e, put_digits)
            (ap (int_loop ((b'0' + v % 10) ∷ s)) none_left ∙ int_loop-last v s bound)
      | inr e ↦ rw (e, put_digits) (rest ∙ int_loop-last v s bound)
    ]

-- What starts with a digit.
abbrev Starts : Bytes → Type 0
Starts s = (n : ℕ) × (t : Bytes) × (n < 10) × (s ≡ (b'0' + n) ∷ t)

put_digits-Starts : (rounds v : ℕ) (s : Bytes) → Starts (put_digits (suc rounds) v s)
unfolding put_digits
put_digits-Starts zero v s =
    let digit : Starts ((b'0' + v % 10) ∷ s) = (v % 10, s, omega arith, refl) in
    elim (Bool-cases (v / 10 == 0)) [
      | inl e ↦ rw (e, put_digits) digit
      | inr e ↦ rw (e, put_digits) digit
    ]
put_digits-Starts (suc rounds) v s =
    let digit : Starts ((b'0' + v % 10) ∷ s) = (v % 10, s, omega arith, refl) in
    let rest = put_digits-Starts rounds (v / 10) ((b'0' + v % 10) ∷ s) in
    elim (Bool-cases (v / 10 == 0)) [
      | inl e ↦ rw (e, put_digits) digit
      | inr e ↦ rw (e, put_digits) rest
    ]

as_int-small :
    (v : ℕ) → v < 2 ^ 31 → (as_int v ≡ pos v) × (as_int ((2 ^ 32 - v) % 2 ^ 32) ≡ negative (pos v))
unfolding as_int
as_int-small v h = ground (arith, h)

to_int-Starts :
    (s : Bytes) (v : ℕ) (error : ℤ)
    → Starts s
    → v < 2 ^ 31
    → int_loop s 0 ≡ some v
    → (to_int s error ≡ pos v)
      × (to_int (b'+' ∷ s) error ≡ pos v)
      × (to_int (b'-' ∷ s) error ≡ negative (pos v))
unfolding to_int int_digits as_int
to_int-Starts s v error (n, t, h, e) small k =
    let plus : (b'0' + n == b'+') ≡ false = ground (arith, h) in
    let minus : (b'0' + n == b'-') ≡ false = ground (arith, h) in
    let read : int_loop ((b'0' + n) ∷ t) 0 ≡ some v = ap (λ r. int_loop r 0) (sym e) ∙ k in
    let (same, opposite) = as_int-small v small in
    rw e (rw (plus, minus, to_int, read) same, rw read same, rw read opposite)

number : ℤ → Bytes
number v = put_digits 20 (magnitude v) []

read_signs :
    (v error : ℤ)
    → magnitude v < 2 ^ 31
    → (to_int (number v) error ≡ pos (magnitude v))
      × (to_int (b'+' ∷ number v) error ≡ pos (magnitude v))
      × (to_int (b'-' ∷ number v) error ≡ negative (pos (magnitude v)))
unfolding number int_loop
read_signs v error h =
    to_int-Starts (number v) (magnitude v) error (put_digits-Starts 19 (magnitude v) []) h
      (int_loop-put_digits 19 (magnitude v) [] (omega (arith, h)) (omega (arith, h)))

to_int-lead_of :
    (f : Field) (v error : ℤ)
    → magnitude v < 2 ^ 31
    → f.pad_blank ≡ false
    → to_int (lead_of f v ++ number v) error ≡ v
unfolding lead_of
to_int-lead_of f (pos n) error h no_blank =
    let (bare, plus, minus) = read_signs (pos n) error h in
    let same : pos (n + 0) ≡ pos n = ground arith in
    if-cases (λ lead. to_int (lead ++ number (pos n)) error ≡ pos n) f.always_sign _ _
      (λ e. plus ∙ same) (λ e. rw no_blank (bare ∙ same))
to_int-lead_of f (negsuc n) error h no_blank =
    let (bare, plus, minus) = read_signs (negsuc n) error h in minus ∙ ground arith

-- A number with a magnitude below 2 ^ 31 that is printed without a width and without a blank for its
-- sign is read back by to_integral as an int, with any error value.
pub to_int-integral_to_string :
    (f : Field) (v error : ℤ)
    → magnitude v < 2 ^ 31
    → f.with_width ≡ false
    → f.pad_blank ≡ false
    → to_int (integral_to_string f v) error ≡ v
unfolding integral_to_string number
to_int-integral_to_string f v error h no_width no_blank =
    if-cases {A = Bytes} (λ s. to_int s error ≡ v) f.with_width _ (lead_of f v ++ number v)
      (λ e. cc) (λ e. to_int-lead_of f v error h no_blank)
