-- ===== src/Json/Numerals.antt =====
-- Numbers of JSON with a text behind them.
use lfz.Prelude.{
  ℕ, ◌≡◌, refl, ap, ◌∙◌, Bool, false, ◌||◌, Bytes, [], ◌∷◌, ◌++◌, ◌==◌, Option, none, some,
}
use lfz.Prelude.{Bool-cases, arith, inl, inr}
use lfz.Json.Number.{is_digit, read_digits, read_fraction, read_sign, read_exponent}
use lfz.Json.Number.{exponent_of, check_end, read_number}

-- Whether a text goes on with a character of numbers.
unfoldable pub goes_on : Bytes → Bool
goes_on [] = false
goes_on (c ∷ s) =
    is_digit c || (c == b'.' || (c == b'e' || (c == b'E' || (c == b'+' || c == b'-'))))

unfoldable with_rest : Bytes → Option (Bytes × Bytes) → Option (Bytes × Bytes)
with_rest rest none = none
with_rest rest (some (v, s)) = some (v, s ++ rest)

read_digits-append :
    (v s rest : Bytes)
    → goes_on rest ≡ false
    → read_digits v (s ++ rest) ≡ ((read_digits v s).0, (read_digits v s).1 ++ rest)
unfolding read_digits
read_digits-append v [] [] h = refl
read_digits-append v [] (c ∷ rest) h = unfold goes_on in ground (arith, h)
read_digits-append v (c ∷ s) rest h = elim (Bool-cases (is_digit c)) [
  | inl e ↦ rw (e, read_digits) (read_digits-append (v ++ (c ∷ [])) s rest h)
  | inr e ↦ rw (e, read_digits) refl
]

read_fraction-append :
    (v s rest : Bytes)
    → goes_on rest ≡ false
    → read_fraction (v, s ++ rest) ≡ with_rest rest (read_fraction (v, s))
unfolding read_fraction with_rest
read_fraction-append v [] [] h = refl
read_fraction-append v [] (c ∷ rest) h = unfold goes_on in ground (arith, h)
read_fraction-append v (c ∷ s) rest h = ground (arith, read_digits-append (v ++ (c ∷ [])) s rest h)

read_sign-append :
    (v s rest : Bytes)
    → goes_on rest ≡ false
    → read_sign v (s ++ rest) ≡ ((read_sign v s).0, (read_sign v s).1 ++ rest)
unfolding read_sign
read_sign-append v [] [] h = refl
read_sign-append v [] (c ∷ rest) h = unfold goes_on read_digits in ground (arith, h)
read_sign-append v (c ∷ s) rest h =
    ground (arith, read_digits-append (v ++ (c ∷ [])) s rest h, read_digits-append v (c ∷ s) rest h)

read_exponent-append :
    (v s rest : Bytes)
    → goes_on rest ≡ false
    → read_exponent (v, s ++ rest) ≡ with_rest rest (read_exponent (v, s))
unfolding read_exponent with_rest
read_exponent-append v [] [] h = refl
read_exponent-append v [] (c ∷ rest) h = unfold goes_on in ground (arith, h)
read_exponent-append v (c ∷ s) rest h = ground (arith, read_sign-append (v ++ (c ∷ [])) s rest h)

exponent_of-append :
    (r : Option (Bytes × Bytes)) (rest : Bytes)
    → goes_on rest ≡ false
    → exponent_of (with_rest rest r) ≡ with_rest rest (exponent_of r)
unfolding exponent_of with_rest
exponent_of-append none rest h = refl
exponent_of-append (some (v, s)) rest h = read_exponent-append v s rest h

check_end-append :
    (r : Option (Bytes × Bytes)) (rest : Bytes)
    → check_end (with_rest rest r) ≡ with_rest rest (check_end r)
unfolding check_end with_rest
check_end-append none rest = refl
check_end-append (some (v, s)) rest = ground arith

-- A number that is read as a whole is read from in front of any text that does not go on with it.
pub read_number-append :
    (c : ℕ) (s v rest : Bytes)
    → goes_on rest ≡ false
    → read_number c s ≡ some (v, [])
    → read_number c (s ++ rest) ≡ some (v, rest)
unfolding read_number
read_number-append c s v rest h whole =
    let r = read_fraction (read_digits (c ∷ []) s) in
    ap (λ t. check_end (exponent_of (read_fraction t))) (read_digits-append (c ∷ []) s rest h)
    ∙ ap (λ t. check_end (exponent_of t)) (read_fraction-append _ _ rest h)
    ∙ ap check_end (exponent_of-append r rest h)
    ∙ check_end-append (exponent_of r) rest
    ∙ ap (with_rest rest) whole
    ∙ unfold with_rest in refl
