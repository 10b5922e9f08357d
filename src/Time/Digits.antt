-- ===== src/Time/Digits.antt =====
-- The numbers in the texts of lib/time.cpp: as `sprintf` prints them and as `to_integral` reads them.
use lfz.Prelude.{
  ℕ, ◌+◌, ◌/◌, ◌%◌, ◌≤◌, ◌<◌, ◌≡◌, refl, arith, true, false, Bytes, [], ◌∷◌, ◌==◌, ℤ, pos, codes,
  elem, All,
}
use lfz.Format.{Field, no_field, put_digits, integral_to_string, place_digits, lead_of}
use lfz.Strings.Ignoring.{IsWord}
use lfz.Time.Text.{is_digit, to_int, as_int, int_digits, int_loop}

abbrev pub two : ℕ → Bytes
two n = (b'0' + n / 10) ∷ (b'0' + n % 10) ∷ []

abbrev pub four : ℕ → Bytes
four n = (b'0' + n / 1000) ∷ (b'0' + n / 100 % 10) ∷ (b'0' + n / 10 % 10) ∷ (b'0' + n % 10) ∷ []

-- The field of "%02d".
abbrev pub two_field : Field
two_field = record no_field { pad_0 = true; with_width = true; width = 2; type = b'd' }

abbrev pub plain_field : Field
plain_field = record no_field { type = b'd' }

pub print_two : (n : ℕ) → n < 100 → integral_to_string two_field (pos n) ≡ two n
unfolding integral_to_string place_digits lead_of put_digits
print_two n h = ground (arith, h)

pub print_four : (n : ℕ) → 1000 ≤ n → n < 10000 → integral_to_string plain_field (pos n) ≡ four n
unfolding integral_to_string lead_of put_digits
print_four n h less = ground (arith, h, less)

pub read_two : (n : ℕ) (e : ℤ) → n < 100 → to_int (two n) e ≡ pos n
unfolding to_int as_int int_digits int_loop
read_two n e h = ground (arith, h)

pub read_four : (n : ℕ) (e : ℤ) → n < 10000 → to_int (four n) e ≡ pos n
unfolding to_int as_int int_digits int_loop
read_four n e h = ground (arith, h)

-- Delimiters of which none is a digit.
abbrev pub Separators : Bytes → Type 0
Separators ds = All (λ c. is_digit c ≡ false) ds

digit-clean : (ds : Bytes) (n : ℕ) → n < 10 → Separators ds → elem (b'0' + n) ds ≡ false
unfolding elem
digit-clean [] n less h = refl
digit-clean (c ∷ ds) n less (hc, h) =
    let other : (c == b'0' + n) ≡ false = ground (arith, hc, less) in
    rw (other, elem) (digit-clean ds n less h)

pub two-clean :
    (ds : Bytes) (n : ℕ) → n < 100 → Separators ds → All (λ c. elem c ds ≡ false) (two n)
two-clean ds n less h =
    (digit-clean ds (n / 10) (omega (arith, less)) h, (digit-clean ds (n % 10) (omega arith) h, tt))

pub four-clean :
    (ds : Bytes) (n : ℕ) → n < 10000 → Separators ds → All (λ c. elem c ds ≡ false) (four n)
four-clean ds n less h = (
  digit-clean ds (n / 1000) (omega (arith, less)) h,
  (
    digit-clean ds (n / 100 % 10) (omega arith) h,
    (digit-clean ds (n / 10 % 10) (omega arith) h, (digit-clean ds (n % 10) (omega arith) h, tt)),
  ),
)

abbrev rfc822 : Separators (codes ", :-")
rfc822 = (refl, (refl, (refl, (refl, tt))))

pub two-IsWord : (n : ℕ) → n < 100 → IsWord (codes ", :-") (two n)
two-IsWord n h = (refl, two-clean (codes ", :-") n h rfc822)

pub four-IsWord : (n : ℕ) → n < 10000 → IsWord (codes ", :-") (four n)
four-IsWord n h = (refl, four-clean (codes ", :-") n h rfc822)
