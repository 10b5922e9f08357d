-- ===== src/IpUtils/LongForm/Shape.antt =====
-- What a result of `get_ipv6_long_form` looks like.
use lfz.Prelude.{
  ℕ, zero, suc, ◌+◌, ◌-◌, ◌*◌, ◌%◌, ◌≤◌, ◌<◌, ◌≡◌, ◌⊎◌, inl, inr, refl, ap, arith, Bool, true,
  if◌then◌else◌, Option-cases, Bool-cases, get_or, find_from, rfind_to, not, is_empty, ◌∙◌, ◌&&◌,
  ◌||◌,
}
use lfz.Prelude.{Bytes, [], ◌∷◌, length, drop, overlay, leb, ltb, ◌==◌, some, All}
use mathlib.Core.Path.{subst⁻¹}
use lfz.Prelude.{length-overlay, length-take}
use lfz.IpUtils.LongForm.{
  lower_digit, lower_group, zero_form, Half, refused, half, left_loop, right_loop,
}
use lfz.IpUtils.LongForm.{slice, or_end, long_form_between, get_ipv6_long_form}

-- A digit as the long form writes it.
unfoldable pub is_lower_hex : ℕ → Bool
is_lower_hex c = (leb b'0' c && leb c b'9') || (leb b'a' c && leb c b'f')

-- From index `i` on: a colon behind every four digits.
unfoldable pub fits_from : ℕ → Bytes → Bool
fits_from i [] = true
fits_from i (c ∷ s) = (if i % 5 == 4 then c == b':' else is_lower_hex c) && fits_from (suc i) s

-- Eight groups of four lower case digits, with colons between them.
pub record IsLongForm (s : Bytes) : Type 0 where
  pub size : length s ≡ 39
  pub fits : fits_from 0 s ≡ true

zero_form-IsLongForm : IsLongForm zero_form
unfolding fits_from is_lower_hex
zero_form-IsLongForm = record { size = refl; fits = refl }

abbrev IsLowerHex : ℕ → Type 0
IsLowerHex c = is_lower_hex c ≡ true

lower_digit-IsLowerHex : (c d : ℕ) → lower_digit c ≡ some d → IsLowerHex d
unfolding lower_digit is_lower_hex
lower_digit-IsLowerHex c d e = ground arith

lower_group_shape :
    (s ds : Bytes) → lower_group s ≡ some ds → All IsLowerHex ds × (length ds ≡ length s)
unfolding lower_group
lower_group_shape [] ds e =
    let none_left : ds ≡ [] = cc e in
    subst⁻¹ (λ (t : Bytes). All IsLowerHex t × (length t ≡ 0)) none_left (tt, refl)
lower_group_shape (c ∷ s) ds e = elim (Option-cases (lower_digit c)) [
  | inl bad ↦ absurd (cc (e, bad))
  | inr (d, good) ↦ elim (Option-cases (lower_group s)) [
    | inl bad ↦ absurd (cc (e, good, bad))
    | inr (rest, same) ↦
        let (hex, len) = lower_group_shape s rest same in
        let whole : ds ≡ d ∷ rest = cc (e, good, same) in
        subst⁻¹ (λ (t : Bytes). All IsLowerHex t × (length t ≡ suc (length s))) whole
          ((lower_digit-IsLowerHex c d good, hex), ap suc len)
  ]
]

-- Digits written over part of one group.
overlay-fits_from :
    (buf : Bytes) (i j : ℕ) (ds : Bytes)
    → All IsLowerHex ds
    → (i + j) % 5 + length ds ≤ 4
    → j + length ds ≤ length buf
    → fits_from i buf ≡ true
    → fits_from i (overlay buf j ds) ≡ true
unfolding fits_from
overlay-fits_from buf i zero [] hd h l f = f
overlay-fits_from [] i zero (d ∷ ds) hd h l f = absurd (omega arith)
overlay-fits_from (x ∷ buf) i zero (d ∷ ds) (hd, hds) h l f =
    ground (arith, overlay-fits_from buf (suc i) zero ds hds (omega arith) (omega arith))
overlay-fits_from [] i (suc j) ds hd h l f = absurd (omega arith)
overlay-fits_from (x ∷ buf) i (suc j) ds hd h l f =
    ground (arith, overlay-fits_from buf (suc i) j ds hd (omega arith) (omega arith))

module _ {buf : Bytes} (v : IsLongForm buf) (g ds : Bytes) (e : lower_group g ≡ some ds) where
  -- A group of at most `n` digits written flush right into the `k`-th of the eight.
  written-IsLongForm :
      (n k j : ℕ)
      → length g ≤ n
      → n ≤ 4
      → k < 8
      → j ≡ 5 * k + (4 - n)
      → IsLongForm (overlay buf j ds)
  written-IsLongForm n k j hg hn hk hj =
      let (hex, len) = lower_group_shape g ds e in
      let inside : j + length ds ≤ length buf = omega (arith, v.size) in
      record {
        size = length-overlay buf j ds inside ∙ v.size;
        fits = overlay-fits_from buf 0 j ds hex (omega arith) inside v.fits;
      }

length-slice : (s : Bytes) (i j : ℕ) → length (slice s i j) ≤ j - i
length-slice s i j = omega (arith, length-take (j - i) (drop i s))

abbrev IsGoodHalf : Half → Type 0
IsGoodHalf refused = Unit
IsGoodHalf (half start left buf) = IsLongForm buf × (left ≤ 8)

left_loop-IsGoodHalf :
    (rounds : ℕ) (s : Bytes) (end start left : ℕ) (buf : Bytes)
    → rounds + left ≤ 8
    → IsLongForm buf
    → IsGoodHalf (left_loop rounds s end start left buf)
unfolding left_loop
left_loop-IsGoodHalf zero s end start left buf h v = (v, omega arith)
left_loop-IsGoodHalf (suc rounds) s end start left buf h v = elim (Bool-cases (ltb start end)) [
  | inr e ↦ rw (e, left_loop) (v, omega arith)
  | inl e ↦ elim (Bool-cases (pos == start)) [
    | inl e1 ↦ elim (Bool-cases (left == 0)) [
      | inl e2 ↦ elim (Bool-cases (get_or s (start + 1) 0 == b':')) [
        | inl e3 ↦ rw (e, e1, e2, e3, left_loop) (v, omega arith)
        | inr e3 ↦ rw (e, e1, e2, e3, left_loop) tt
      ]
      | inr e2 ↦ rw (e, e1, e2, left_loop) (v, omega arith)
    ]
    | inr e1 ↦ elim (Bool-cases (ltb 4 (pos - start))) [
      | inl e2 ↦ rw (e, e1, e2, left_loop) tt
      | inr e2 ↦ elim (Option-cases (lower_group (slice s start pos))) [
        | inl e3 ↦ rw (e, e1, e2, e3, left_loop) tt
        | inr (ds, e3) ↦
            rw (e, e1, e2, e3, left_loop)
              (left_loop-IsGoodHalf rounds s end (pos + 1) (left + 1) _ (omega arith) (
                written-IsLongForm v _ ds e3 (pos - start) left _ (length-slice s start pos)
                  (ground arith) (omega arith) refl))
      ]
    ]
  ]
]
  where
    pos : ℕ
    pos = or_end (find_from b':' s start) end

-- Refused, or a long form.
abbrev IsResult : Bytes → Type 0
IsResult s = (s ≡ []) ⊎ IsLongForm s

right_loop-IsResult :
    (rounds : ℕ) (s : Bytes) (start end left right : ℕ) (buf : Bytes)
    → rounds + left + right ≤ 8
    → IsLongForm buf
    → IsResult (right_loop rounds s start end left right buf)
unfolding right_loop
right_loop-IsResult zero s start end left right buf h v = elim (Bool-cases (ltb start end)) [
  | inl e ↦ rw e (inl refl)
  | inr e ↦ rw e (inr v)
]
right_loop-IsResult (suc rounds) s start end left right buf h v =
    elim (Bool-cases (ltb start end)) [
      | inr e ↦ rw (e, right_loop) (inr v)
      | inl e ↦ elim (Bool-cases (last - pos == 0)) [
        | inl e1 ↦ elim (Bool-cases (not (left == 0) || not (right == 0))) [
          | inl e2 ↦ rw (e, e1, e2, right_loop) (inl refl)
          | inr e2 ↦ elim (Bool-cases (ltb start last)) [
            | inl e3 ↦ rw (e, e1, e2, e3, right_loop) (inl refl)
            | inr e3 ↦ rw (e, e1, e2, e3, right_loop) (inr v)
          ]
        ]
        | inr e1 ↦ elim (Bool-cases (ltb 4 (last - pos))) [
          | inl e2 ↦ rw (e, e1, e2, right_loop) (inl refl)
          | inr e2 ↦ elim (Option-cases (lower_group (slice s (pos + 1) (last + 1)))) [
            | inl e3 ↦ rw (e, e1, e2, e3, right_loop) (inl refl)
            | inr (ds, e3) ↦
                rw (e, e1, e2, e3, right_loop)
                  (right_loop-IsResult rounds s start pos left (right + 1) _ (omega arith) (
                    written-IsLongForm v _ ds e3 (last - pos) (7 - right) _
                      (omega (arith, length-slice s (pos + 1) (last + 1))) (ground arith)
                      (omega arith) (ground arith)))
          ]
        ]
      ]
    ]
  where
    last : ℕ
    last = end - 1

    pos : ℕ
    pos = or_end (rfind_to b':' s last) last

between-IsResult : (s : Bytes) (start end : ℕ) → IsResult (long_form_between s start end)
unfolding long_form_between
between-IsResult s start end = elim (Bool-cases (ltb (end - start) 2 || ltb 39 (end - start))) [
  | inl e ↦ rw e (inl refl)
  | inr e ↦ rw e (
      finish (left_loop 8 s end start 0 zero_form)
        (left_loop-IsGoodHalf 8 s end start 0 zero_form (omega arith) zero_form-IsLongForm))
]
  where
    finish :
        (r : Half)
        → IsGoodHalf r
        → IsResult (elim r [
          | refused ↦ []
          | half start' left buf ↦ right_loop (8 - left) s start' end left 0 buf
        ])
    finish refused h = inl refl
    finish (half start' left buf) (v, few) =
        right_loop-IsResult (8 - left) s start' end left 0 buf (omega arith) v

-- For every input the result of `get_ipv6_long_form` is empty, or it has eight groups of four lower
-- case hexadecimal digits with colons between them.
pub get_ipv6_long_form_shape :
    (s : Bytes) → (get_ipv6_long_form s ≡ []) ⊎ IsLongForm (get_ipv6_long_form s)
unfolding get_ipv6_long_form
get_ipv6_long_form_shape s = elim (Bool-cases (not (is_empty s) && get_or s 0 0 == b'[')) [
  | inr e ↦ rw e (between-IsResult s 0 (length s))
  | inl e ↦ elim (Bool-cases (get_or s (length s - 1) 0 == b']')) [
    | inl e1 ↦ rw (e, e1) (between-IsResult s 1 (length s - 1))
    | inr e1 ↦ rw (e, e1) (inl refl)
  ]
]
