-- ===== src/Json/Grammar.antt =====
-- The numbers of JSON, and how `parse` of lib/json.cpp reads them.
use lfz.Prelude.{
  ℕ, ◌≡◌, refl, sym, ap, ◌∙◌, arith, Bool, true, false, ◌||◌, Bytes, [], ◌∷◌, ◌++◌, ◌==◌, All,
}
use lfz.Prelude.{Option, some, none, append-nil, append_assoc}
use lfz.Json.Number.{
  is_digit, read_digits, read_fraction, read_sign, read_exponent, exponent_of, check_end,
}
use lfz.Json.Number.{read_number, ends_in_digit}
use lfz.Json.Readable.{IsNumber}

-- One digit or more.
abbrev pub IsDigits : Bytes → Type 0
IsDigits ds = All (λ c. is_digit c ≡ true) ds × (ends_in_digit ds ≡ true)

-- A point and the digits behind it, if any.
abbrev pub fraction_text : Option Bytes → Bytes
fraction_text none = []
fraction_text (some fs) = b'.' ∷ fs

abbrev pub IsFraction : Option Bytes → Type 0
IsFraction none = Unit
IsFraction (some fs) = IsDigits fs

-- The sign of an exponent.
pub data Sign : Type 0 where
  unsigned plus minus : Sign

abbrev pub sign_text : Sign → Bytes
sign_text unsigned = []
sign_text plus = b'+' ∷ []
sign_text minus = b'-' ∷ []

abbrev pub letter : Bool → ℕ
letter true = b'E'
letter false = b'e'

-- The letter, in upper case or not, the sign and the digits of an exponent, if any.
abbrev pub exponent_text : Option (Bool × Sign × Bytes) → Bytes
exponent_text none = []
exponent_text (some (upper, sign, es)) = letter upper ∷ (sign_text sign ++ es)

abbrev pub IsExponent : Option (Bool × Sign × Bytes) → Type 0
IsExponent none = Unit
IsExponent (some (upper, sign, es)) = IsDigits es

unfoldable starts_digit : Bytes → Bool
starts_digit [] = false
starts_digit (c ∷ s) = is_digit c

read_digits_stop :
    (v ds rest : Bytes)
    → All (λ c. is_digit c ≡ true) ds
    → starts_digit rest ≡ false
    → read_digits v (ds ++ rest) ≡ (v ++ ds, rest)
unfolding read_digits starts_digit
read_digits_stop v [] [] h k = ap (λ t. (t, [])) (sym (append-nil v))
read_digits_stop v [] (c ∷ rest) h k =
    rw (k, read_digits) (ap (λ t. (t, c ∷ rest)) (sym (append-nil v)))
read_digits_stop v (d ∷ ds) rest (hd, h) k =
    rw (hd, read_digits)
      (read_digits_stop (v ++ (d ∷ [])) ds rest h k
        ∙ ap (λ t. (t, rest)) (append_assoc v (d ∷ []) ds))

ends-append : (v t : Bytes) → ends_in_digit t ≡ true → ends_in_digit (v ++ t) ≡ true
unfolding ends_in_digit
ends-append [] t h = h
ends-append (x ∷ []) [] h = cc h
ends-append (x ∷ []) (d ∷ t) h = h
ends-append (x ∷ (y ∷ v)) t h = ends-append (y ∷ v) t h

exponent_stop : (x : Option (Bool × Sign × Bytes)) → starts_digit (exponent_text x) ≡ false
unfolding starts_digit is_digit
exponent_stop none = refl
exponent_stop (some (true, sign, es)) = refl
exponent_stop (some (false, sign, es)) = refl

fraction_stop :
    (f : Option Bytes) (x : Option (Bool × Sign × Bytes))
    → starts_digit (fraction_text f ++ exponent_text x) ≡ false
unfolding starts_digit is_digit
fraction_stop none x = exponent_stop x
fraction_stop (some fs) x = refl

fraction-read :
    (v : Bytes) (f : Option Bytes) (x : Option (Bool × Sign × Bytes))
    → ends_in_digit v ≡ true
    → IsFraction f
    → read_fraction (v, fraction_text f ++ exponent_text x)
      ≡ some (v ++ fraction_text f, exponent_text x)
unfolding read_fraction
fraction-read v none none h k = ap (λ t. some (t, [])) (sym (append-nil v))
fraction-read v none (some (true, sign, es)) h k =
    ap (λ t. some (t, exponent_text (some (true, sign, es)))) (sym (append-nil v))
fraction-read v none (some (false, sign, es)) h k =
    ap (λ t. some (t, exponent_text (some (false, sign, es)))) (sym (append-nil v))
fraction-read v (some fs) x h k = rw h (
    ap some (
      read_digits_stop (v ++ (b'.' ∷ [])) fs (exponent_text x) k.0 (exponent_stop x)
      ∙ ap (λ t. (t, exponent_text x)) (append_assoc v (b'.' ∷ []) fs)))

read_digits_all :
    (v ds : Bytes) → All (λ c. is_digit c ≡ true) ds → read_digits v ds ≡ (v ++ ds, [])
read_digits_all v ds h =
    ap (read_digits v) (sym (append-nil ds))
    ∙ read_digits_stop v ds [] h (unfold starts_digit in refl)

digit_no_sign : (d : ℕ) → is_digit d ≡ true → (d == b'+' || d == b'-') ≡ false
unfolding is_digit
digit_no_sign d h = ground (arith, h)

sign-read :
    (v es : Bytes) (sign : Sign)
    → IsDigits es
    → read_sign v (sign_text sign ++ es) ≡ (v ++ (sign_text sign ++ es), [])
unfolding read_sign
sign-read v [] unsigned (h, k) = unfold ends_in_digit in cc k
sign-read v (d ∷ es) unsigned ((hd, h), k) =
    rw (digit_no_sign d hd, read_sign) (read_digits_all v (d ∷ es) (hd, h))
sign-read v es plus (h, k) =
    read_digits_all (v ++ (b'+' ∷ [])) es h ∙ ap (λ t. (t, [])) (append_assoc v (b'+' ∷ []) es)
sign-read v es minus (h, k) =
    read_digits_all (v ++ (b'-' ∷ [])) es h ∙ ap (λ t. (t, [])) (append_assoc v (b'-' ∷ []) es)

exponent-read :
    (v : Bytes) (x : Option (Bool × Sign × Bytes))
    → ends_in_digit v ≡ true
    → IsExponent x
    → read_exponent (v, exponent_text x) ≡ some (v ++ exponent_text x, [])
unfolding read_exponent
exponent-read v none h k = ap (λ t. some (t, [])) (sym (append-nil v))
exponent-read v (some (true, sign, es)) h k = rw h (
    ap some (
      sign-read (v ++ (b'E' ∷ [])) es sign k
      ∙ ap (λ t. (t, [])) (append_assoc v (b'E' ∷ []) (sign_text sign ++ es))))
exponent-read v (some (false, sign, es)) h k = rw h (
    ap some (
      sign-read (v ++ (b'e' ∷ [])) es sign k
      ∙ ap (λ t. (t, [])) (append_assoc v (b'e' ∷ []) (sign_text sign ++ es))))

fraction-ends :
    (v : Bytes) (f : Option Bytes)
    → ends_in_digit v ≡ true
    → IsFraction f
    → ends_in_digit (v ++ fraction_text f) ≡ true
fraction-ends v none h k = ap ends_in_digit (append-nil v) ∙ h
fraction-ends v (some fs) h k = ends-append v (b'.' ∷ fs) (ends-append (b'.' ∷ []) fs k.1)

exponent-ends :
    (v : Bytes) (x : Option (Bool × Sign × Bytes))
    → ends_in_digit v ≡ true
    → IsExponent x
    → ends_in_digit (v ++ exponent_text x) ≡ true
exponent-ends v none h k = ap ends_in_digit (append-nil v) ∙ h
exponent-ends v (some (upper, sign, es)) h k =
    ends-append v _
      (ends-append (letter upper ∷ []) (sign_text sign ++ es) (ends-append (sign_text sign) es k.1))

-- A digit or a minus with digits behind it, one digit at least, then a fraction and an exponent with
-- one digit at least, either of which may be missing, are read as one number.
pub numeral-IsNumber :
    (c : ℕ) (ds : Bytes) (f : Option Bytes) (x : Option (Bool × Sign × Bytes))
    → (is_digit c || c == b'-') ≡ true
    → All (λ d. is_digit d ≡ true) ds
    → ends_in_digit (c ∷ ds) ≡ true
    → IsFraction f
    → IsExponent x
    → IsNumber (c ∷ (ds ++ (fraction_text f ++ exponent_text x)))
unfolding read_number exponent_of check_end
numeral-IsNumber c ds f x hc hd he hf hx =
    let v = c ∷ (ds ++ fraction_text f) in
    let at = fraction-ends (c ∷ ds) f he hf in
    (
      hc,
      ap (λ r. check_end (exponent_of (read_fraction r)))
            (read_digits_stop (c ∷ []) ds _ hd (fraction_stop f x))
          ∙ ap (λ r. check_end (exponent_of r)) (fraction-read (c ∷ ds) f x he hf)
          ∙ ap check_end (exponent-read v x at hx)
          ∙ rw (exponent-ends v x at hx)
              (ap (λ t. some (c ∷ t, [])) (append_assoc ds (fraction_text f) (exponent_text x))),
    )
