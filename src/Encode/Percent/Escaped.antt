-- ===== src/Encode/Percent/Escaped.antt =====
-- The characters of percent-encoded text.
use lfz.Prelude.{ℕ, ◌/◌, ◌<◌, ◌≡◌, refl, arith, Bool, true, false, Bytes, [], ◌∷◌}
use lfz.Prelude.{All, All-append, All-map, Lacks, bit_and, ◌==◌, ◌||◌, ◌&&◌}
use lfz.Prelude.{is_empty, ap, Bool-cases, inl, inr, ==_iff}
use lfz.Prelude.Bits.{bit_and_f}
use lfz.Encode.Hex.{int_to_hex_char}
use lfz.Encode.Percent.{is_unreserved, percent_encode_char, percent_encode}
use lfz.Encode.Percent.RoundTrip.{IsText}

unfoldable pub is_escaped : Bool → ℕ → Bool
is_escaped keep_slashes c = is_unreserved c || c == b'%' || (c == b'/' && keep_slashes)

abbrev pub IsEscaped : Bool → ℕ → Type 0
IsEscaped keep_slashes c = is_escaped keep_slashes c ≡ true

hex_digit-IsEscaped :
    (keep_slashes : Bool) (d : ℕ) → d < 16 → IsEscaped keep_slashes (int_to_hex_char false d)
unfolding is_escaped is_unreserved int_to_hex_char
hex_digit-IsEscaped keep_slashes d h = ground arith

encode_char-IsEscaped :
    (keep_slashes : Bool) (c : ℕ)
    → c < 256
    → All (IsEscaped keep_slashes) (percent_encode_char keep_slashes c)
unfolding percent_encode_char is_escaped
encode_char-IsEscaped keep_slashes c h =
    let high = hex_digit-IsEscaped keep_slashes (c / 16) (omega arith) in
    let low = hex_digit-IsEscaped keep_slashes (bit_and c 0xf) (omega (arith, bit_and_f c h)) in
    ground (arith, high, low)

-- Of a text without null bytes, encoded text has unreserved characters, `%`, and slashes where they are kept.
pub percent_encode-IsEscaped :
    (keep_slashes : Bool) (s : Bytes)
    → All IsText s
    → All (IsEscaped keep_slashes) (percent_encode keep_slashes s)
unfolding percent_encode
percent_encode-IsEscaped keep_slashes [] h = tt
percent_encode-IsEscaped keep_slashes (c ∷ s) (hc, hs) =
    let not_null : (c == 0) ≡ false = ground arith in
    rw not_null (
      All-append (IsEscaped keep_slashes) (percent_encode_char keep_slashes c)
        (percent_encode keep_slashes s) (encode_char-IsEscaped keep_slashes c (omega arith))
        (percent_encode-IsEscaped keep_slashes s hs))

escaped_ne :
    (keep_slashes : Bool) (c x : ℕ)
    → is_escaped keep_slashes c ≡ false
    → IsEscaped keep_slashes x
    → (x == c) ≡ false
escaped_ne keep_slashes c x h hx = elim (Bool-cases (x == c)) [
  | inl e ↦ let same = (==_iff x c).0 e in cc
  | inr e ↦ e
]

pub IsEscaped-Lacks :
    (keep_slashes : Bool) (c : ℕ) (s : Bytes)
    → is_escaped keep_slashes c ≡ false
    → All (IsEscaped keep_slashes) s
    → Lacks c s
IsEscaped-Lacks keep_slashes c s h =
    All-map (IsEscaped keep_slashes) (λ x. (x == c) ≡ false) s (λ x. escaped_ne keep_slashes c x h)

unreserved-not_null : (c : ℕ) → is_unreserved c ≡ true → (c == 0) ≡ false
unfolding is_unreserved
unreserved-not_null c h = ground arith

encode_char-unreserved :
    (keep_slashes : Bool) (c : ℕ)
    → is_unreserved c ≡ true
    → percent_encode_char keep_slashes c ≡ c ∷ []
unfolding percent_encode_char
encode_char-unreserved keep_slashes c h = rw (h, percent_encode_char)

-- Unreserved text stands for itself.
pub percent_encode-unreserved :
    (keep_slashes : Bool) (s : Bytes)
    → All (λ c. is_unreserved c ≡ true) s
    → percent_encode keep_slashes s ≡ s
unfolding percent_encode
percent_encode-unreserved keep_slashes [] h = refl
percent_encode-unreserved keep_slashes (c ∷ s) (hc, hs) =
    rw (unreserved-not_null c hc, encode_char-unreserved keep_slashes c hc)
      (ap (λ t. c ∷ t) (percent_encode-unreserved keep_slashes s hs))

pub is_empty-percent_encode :
    (keep_slashes : Bool) (s : Bytes)
    → All IsText s
    → is_empty (percent_encode keep_slashes s) ≡ is_empty s
unfolding percent_encode percent_encode_char
is_empty-percent_encode keep_slashes [] h = refl
is_empty-percent_encode keep_slashes (c ∷ s) (hc, hs) = ground arith
