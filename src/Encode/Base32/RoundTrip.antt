-- ===== src/Encode/Base32/RoundTrip.antt =====
-- Base32 text, written and read.
use lfz.Prelude.{
  ℕ, zero, suc, ◌+◌, ◌*◌, ◌/◌, ◌%◌, ◌≤◌, ◌<◌, ◌≡◌, ◌≢◌, refl, sym, ap, ◌∙◌, arith, Bool, true,
  false,
}
use lfz.Prelude.{
  Bytes, [], ◌∷◌, ◌++◌, length, get_or, All, IsByte, get_or-All, ◌==◌, append-nil, append_assoc,
  take_all, replicate,
}
use lfz.Prelude.Bits.{bit_and_1, bit_and_3, bit_and_7, bit_and_f, bit_and_1f}
use lfz.Encode.Base32.{digit, base32_groups, base32_encode, trimmed_length, done, decode_loop}
use lfz.Encode.Base32.{decode_outcome, base32_decode}
use lfz.Encode.Base32.Groups.{
  quintet_1_lem, quintet_2_lem, quintet_3_lem, quintet_4_lem, quintet_5_lem, quintet_6_lem,
}
use lfz.Encode.Base32.Groups.{quintet_7_lem}
use lfz.Encode.Base32.Groups.{char_value-digit, next-digit}
use lfz.Encode.Base32.Tables.{Base32Type, standard, base32hex, locale_safe, char_value}
use lfz.Encode.Base32.Rounds.{
  loop_round, next_pad, next_pads, next_end, group_one, group_two, group_three, group_four,
  group_five,
}

loop-groups :
    (type : Base32Type) (pad : Bool) (fuel : ℕ) (s ret : Bytes)
    → All IsByte s
    → length s ≤ fuel
    → decode_loop type fuel (base32_groups type pad s) 0 ret ≡ done (ret ++ s)
unfolding base32_groups
loop-groups type pad fuel [] ret h f = unfold decode_loop in ap done (sym (append-nil ret))
loop-groups type pad zero (c1 ∷ s) ret h f = absurd (omega arith)
loop-groups type true (suc fuel) (c1 ∷ []) ret (h1, _) f =
    rw (quintet_1_lem c1 h1, bit_and_7 c1 h1)
      (loop_round type fuel _ 0 _ ret (next-digit type (c1 / 8) _ (omega arith))
          (next-digit type (c1 % 8 * 4) _ (omega arith)) (next_pad type _) (next_pads type _)
          (next_pads type _) (next_pads type _) (next_pads type _) (next_pads type _)
          (group_one c1 h1)
        ∙ (unfold decode_loop in refl))
loop-groups type false (suc fuel) (c1 ∷ []) ret (h1, _) f =
    rw (quintet_1_lem c1 h1, bit_and_7 c1 h1)
      (loop_round type fuel _ 0 _ ret (next-digit type (c1 / 8) _ (omega arith))
          (next-digit type (c1 % 8 * 4) _ (omega arith)) (next_end type) (next_end type)
          (next_end type) (next_end type) (next_end type) (next_end type) (group_one c1 h1)
        ∙ (unfold decode_loop in refl))
loop-groups type true (suc fuel) (c1 ∷ c2 ∷ []) ret (h1, (h2, _)) f =
    rw (quintet_1_lem c1 h1, quintet_2_lem c1 c2 h1 h2, quintet_3_lem c2 h2, bit_and_1 c2 h2)
      (loop_round type fuel _ 0 _ ret (next-digit type (c1 / 8) _ (omega arith))
          (next-digit type (c1 % 8 * 4 + c2 / 64) _ (omega arith))
          (next-digit type (c2 / 2 % 32) _ (omega arith))
          (next-digit type (c2 % 2 * 16) _ (omega arith)) (next_pad type _) (next_pads type _)
          (next_pads type _) (next_pads type _) (group_two c1 c2 h1 h2)
        ∙ (unfold decode_loop in refl))
loop-groups type false (suc fuel) (c1 ∷ c2 ∷ []) ret (h1, (h2, _)) f =
    rw (quintet_1_lem c1 h1, quintet_2_lem c1 c2 h1 h2, quintet_3_lem c2 h2, bit_and_1 c2 h2)
      (loop_round type fuel _ 0 _ ret (next-digit type (c1 / 8) _ (omega arith))
          (next-digit type (c1 % 8 * 4 + c2 / 64) _ (omega arith))
          (next-digit type (c2 / 2 % 32) _ (omega arith))
          (next-digit type (c2 % 2 * 16) _ (omega arith)) (next_end type) (next_end type)
          (next_end type) (next_end type) (group_two c1 c2 h1 h2)
        ∙ (unfold decode_loop in refl))
loop-groups type true (suc fuel) (c1 ∷ c2 ∷ c3 ∷ []) ret (h1, (h2, (h3, _))) f =
    rw
      (
        quintet_1_lem c1 h1,
        quintet_2_lem c1 c2 h1 h2,
        quintet_3_lem c2 h2,
        quintet_4_lem c2 c3 h2 h3,
        bit_and_f c3 h3,
      )
      (loop_round type fuel _ 0 _ ret (next-digit type (c1 / 8) _ (omega arith))
          (next-digit type (c1 % 8 * 4 + c2 / 64) _ (omega arith))
          (next-digit type (c2 / 2 % 32) _ (omega arith))
          (next-digit type (c2 % 2 * 16 + c3 / 16) _ (omega arith))
          (next-digit type (c3 % 16 * 2) _ (omega arith)) (next_pad type _) (next_pads type _)
          (next_pads type _) (group_three c1 c2 c3 h1 h2 h3)
        ∙ (unfold decode_loop in refl))
loop-groups type false (suc fuel) (c1 ∷ c2 ∷ c3 ∷ []) ret (h1, (h2, (h3, _))) f =
    rw
      (
        quintet_1_lem c1 h1,
        quintet_2_lem c1 c2 h1 h2,
        quintet_3_lem c2 h2,
        quintet_4_lem c2 c3 h2 h3,
        bit_and_f c3 h3,
      )
      (loop_round type fuel _ 0 _ ret (next-digit type (c1 / 8) _ (omega arith))
          (next-digit type (c1 % 8 * 4 + c2 / 64) _ (omega arith))
          (next-digit type (c2 / 2 % 32) _ (omega arith))
          (next-digit type (c2 % 2 * 16 + c3 / 16) _ (omega arith))
          (next-digit type (c3 % 16 * 2) _ (omega arith)) (next_end type) (next_end type)
          (next_end type) (group_three c1 c2 c3 h1 h2 h3)
        ∙ (unfold decode_loop in refl))
loop-groups type true (suc fuel) (c1 ∷ c2 ∷ c3 ∷ c4 ∷ []) ret (h1, (h2, (h3, (h4, _)))) f =
    rw
      (
        quintet_1_lem c1 h1,
        quintet_2_lem c1 c2 h1 h2,
        quintet_3_lem c2 h2,
        quintet_4_lem c2 c3 h2 h3,
        quintet_5_lem c3 c4 h3 h4,
        quintet_6_lem c4 h4,
        bit_and_3 c4 h4,
      )
      (loop_round type fuel _ 0 _ ret (next-digit type (c1 / 8) _ (omega arith))
          (next-digit type (c1 % 8 * 4 + c2 / 64) _ (omega arith))
          (next-digit type (c2 / 2 % 32) _ (omega arith))
          (next-digit type (c2 % 2 * 16 + c3 / 16) _ (omega arith))
          (next-digit type (c3 % 16 * 2 + c4 / 128) _ (omega arith))
          (next-digit type (c4 / 4 % 32) _ (omega arith))
          (next-digit type (c4 % 4 * 8) _ (omega arith)) (next_pad type _)
          (group_four c1 c2 c3 c4 h1 h2 h3 h4)
        ∙ (unfold decode_loop in refl))
loop-groups type false (suc fuel) (c1 ∷ c2 ∷ c3 ∷ c4 ∷ []) ret (h1, (h2, (h3, (h4, _)))) f =
    rw
      (
        quintet_1_lem c1 h1,
        quintet_2_lem c1 c2 h1 h2,
        quintet_3_lem c2 h2,
        quintet_4_lem c2 c3 h2 h3,
        quintet_5_lem c3 c4 h3 h4,
        quintet_6_lem c4 h4,
        bit_and_3 c4 h4,
      )
      (loop_round type fuel _ 0 _ ret (next-digit type (c1 / 8) _ (omega arith))
          (next-digit type (c1 % 8 * 4 + c2 / 64) _ (omega arith))
          (next-digit type (c2 / 2 % 32) _ (omega arith))
          (next-digit type (c2 % 2 * 16 + c3 / 16) _ (omega arith))
          (next-digit type (c3 % 16 * 2 + c4 / 128) _ (omega arith))
          (next-digit type (c4 / 4 % 32) _ (omega arith))
          (next-digit type (c4 % 4 * 8) _ (omega arith)) (next_end type)
          (group_four c1 c2 c3 c4 h1 h2 h3 h4)
        ∙ (unfold decode_loop in refl))
loop-groups type pad (suc fuel) (c1 ∷ c2 ∷ c3 ∷ c4 ∷ c5 ∷ s) ret (h1, (h2, (h3, (h4, (h5, hs)))))
      f =
    rw
      (
        quintet_1_lem c1 h1,
        quintet_2_lem c1 c2 h1 h2,
        quintet_3_lem c2 h2,
        quintet_4_lem c2 c3 h2 h3,
        quintet_5_lem c3 c4 h3 h4,
        quintet_6_lem c4 h4,
        quintet_7_lem c4 c5 h4 h5,
        bit_and_1f c5 h5,
      )
      (loop_round type fuel _ 0 _ ret (next-digit type (c1 / 8) _ (omega arith))
          (next-digit type (c1 % 8 * 4 + c2 / 64) _ (omega arith))
          (next-digit type (c2 / 2 % 32) _ (omega arith))
          (next-digit type (c2 % 2 * 16 + c3 / 16) _ (omega arith))
          (next-digit type (c3 % 16 * 2 + c4 / 128) _ (omega arith))
          (next-digit type (c4 / 4 % 32) _ (omega arith))
          (next-digit type (c4 % 4 * 8 + c5 / 32) _ (omega arith))
          (next-digit type (c5 % 32) _ (omega arith)) (group_five c1 c2 c3 c4 c5 h1 h2 h3 h4 h5)
        ∙ loop-groups type pad fuel s (ret ++ (c1 ∷ c2 ∷ c3 ∷ c4 ∷ c5 ∷ [])) hs (omega arith)
        ∙ ap done (append_assoc ret (c1 ∷ c2 ∷ c3 ∷ c4 ∷ c5 ∷ []) s))

-- A unit that the decoder does not skip.
abbrev IsSignificant : Base32Type → ℕ → Type 0
IsSignificant type u = char_value type u ≢ 0x80

digit-IsSignificant : (type : Base32Type) (k : ℕ) → k < 32 → IsSignificant type (digit type k)
digit-IsSignificant type k h = λ e. absurd (omega (arith, char_value-digit type k h))

pad_value : (type : Base32Type) → char_value type b'=' ≡ 0x40
unfolding char_value
pad_value standard = refl
pad_value base32hex = refl
pad_value locale_safe = refl

pad-IsSignificant : (type : Base32Type) → IsSignificant type b'='
pad-IsSignificant type = λ e. absurd (omega (arith, pad_value type))

pads-IsSignificant : (type : Base32Type) (k : ℕ) → All (IsSignificant type) (replicate k b'=')
pads-IsSignificant type zero = tt
pads-IsSignificant type (suc k) = (pad-IsSignificant type, pads-IsSignificant type k)

groups-IsSignificant :
    (type : Base32Type) (pad : Bool) (s : Bytes)
    → All IsByte s
    → All (IsSignificant type) (base32_groups type pad s)
unfolding base32_groups
groups-IsSignificant type pad [] h = tt
groups-IsSignificant type true (c1 ∷ []) (h1, _) =
    rw (quintet_1_lem c1 h1, bit_and_7 c1 h1)
      (
        digit-IsSignificant type _ (omega arith),
        (digit-IsSignificant type _ (omega arith), pads-IsSignificant type 6),
      )
groups-IsSignificant type false (c1 ∷ []) (h1, _) =
    rw (quintet_1_lem c1 h1, bit_and_7 c1 h1)
      (digit-IsSignificant type _ (omega arith), (digit-IsSignificant type _ (omega arith), tt))
groups-IsSignificant type true (c1 ∷ c2 ∷ []) (h1, (h2, _)) =
    rw (quintet_1_lem c1 h1, quintet_2_lem c1 c2 h1 h2, quintet_3_lem c2 h2, bit_and_1 c2 h2)
      (
        digit-IsSignificant type _ (omega arith),
        (
          digit-IsSignificant type _ (omega arith),
          (
            digit-IsSignificant type _ (omega arith),
            (digit-IsSignificant type _ (omega arith), pads-IsSignificant type 4),
          ),
        ),
      )
groups-IsSignificant type false (c1 ∷ c2 ∷ []) (h1, (h2, _)) =
    rw (quintet_1_lem c1 h1, quintet_2_lem c1 c2 h1 h2, quintet_3_lem c2 h2, bit_and_1 c2 h2)
      (
        digit-IsSignificant type _ (omega arith),
        (
          digit-IsSignificant type _ (omega arith),
          (
            digit-IsSignificant type _ (omega arith),
            (digit-IsSignificant type _ (omega arith), tt),
          ),
        ),
      )
groups-IsSignificant type true (c1 ∷ c2 ∷ c3 ∷ []) (h1, (h2, (h3, _))) =
    rw
      (
        quintet_1_lem c1 h1,
        quintet_2_lem c1 c2 h1 h2,
        quintet_3_lem c2 h2,
        quintet_4_lem c2 c3 h2 h3,
        bit_and_f c3 h3,
      )
      (
        digit-IsSignificant type _ (omega arith),
        (
          digit-IsSignificant type _ (omega arith),
          (
            digit-IsSignificant type _ (omega arith),
            (
              digit-IsSignificant type _ (omega arith),
              (digit-IsSignificant type _ (omega arith), pads-IsSignificant type 3),
            ),
          ),
        ),
      )
groups-IsSignificant type false (c1 ∷ c2 ∷ c3 ∷ []) (h1, (h2, (h3, _))) =
    rw
      (
        quintet_1_lem c1 h1,
        quintet_2_lem c1 c2 h1 h2,
        quintet_3_lem c2 h2,
        quintet_4_lem c2 c3 h2 h3,
        bit_and_f c3 h3,
      )
      (
        digit-IsSignificant type _ (omega arith),
        (
          digit-IsSignificant type _ (omega arith),
          (
            digit-IsSignificant type _ (omega arith),
            (
              digit-IsSignificant type _ (omega arith),
              (digit-IsSignificant type _ (omega arith), tt),
            ),
          ),
        ),
      )
groups-IsSignificant type true (c1 ∷ c2 ∷ c3 ∷ c4 ∷ []) (h1, (h2, (h3, (h4, _)))) =
    rw
      (
        quintet_1_lem c1 h1,
        quintet_2_lem c1 c2 h1 h2,
        quintet_3_lem c2 h2,
        quintet_4_lem c2 c3 h2 h3,
        quintet_5_lem c3 c4 h3 h4,
        quintet_6_lem c4 h4,
        bit_and_3 c4 h4,
      )
      (
        digit-IsSignificant type _ (omega arith),
        (
          digit-IsSignificant type _ (omega arith),
          (
            digit-IsSignificant type _ (omega arith),
            (
              digit-IsSignificant type _ (omega arith),
              (
                digit-IsSignificant type _ (omega arith),
                (
                  digit-IsSignificant type _ (omega arith),
                  (digit-IsSignificant type _ (omega arith), pads-IsSignificant type 1),
                ),
              ),
            ),
          ),
        ),
      )
groups-IsSignificant type false (c1 ∷ c2 ∷ c3 ∷ c4 ∷ []) (h1, (h2, (h3, (h4, _)))) =
    rw
      (
        quintet_1_lem c1 h1,
        quintet_2_lem c1 c2 h1 h2,
        quintet_3_lem c2 h2,
        quintet_4_lem c2 c3 h2 h3,
        quintet_5_lem c3 c4 h3 h4,
        quintet_6_lem c4 h4,
        bit_and_3 c4 h4,
      )
      (
        digit-IsSignificant type _ (omega arith),
        (
          digit-IsSignificant type _ (omega arith),
          (
            digit-IsSignificant type _ (omega arith),
            (
              digit-IsSignificant type _ (omega arith),
              (
                digit-IsSignificant type _ (omega arith),
                (
                  digit-IsSignificant type _ (omega arith),
                  (digit-IsSignificant type _ (omega arith), tt),
                ),
              ),
            ),
          ),
        ),
      )
groups-IsSignificant type pad (c1 ∷ c2 ∷ c3 ∷ c4 ∷ c5 ∷ s) (h1, (h2, (h3, (h4, (h5, hs))))) =
    rw
      (
        quintet_1_lem c1 h1,
        quintet_2_lem c1 c2 h1 h2,
        quintet_3_lem c2 h2,
        quintet_4_lem c2 c3 h2 h3,
        quintet_5_lem c3 c4 h3 h4,
        quintet_6_lem c4 h4,
        quintet_7_lem c4 c5 h4 h5,
        bit_and_1f c5 h5,
      )
      (
        digit-IsSignificant type _ (omega arith),
        (
          digit-IsSignificant type _ (omega arith),
          (
            digit-IsSignificant type _ (omega arith),
            (
              digit-IsSignificant type _ (omega arith),
              (
                digit-IsSignificant type _ (omega arith),
                (
                  digit-IsSignificant type _ (omega arith),
                  (
                    digit-IsSignificant type _ (omega arith),
                    (digit-IsSignificant type _ (omega arith), groups-IsSignificant type pad s hs),
                  ),
                ),
              ),
            ),
          ),
        ),
      )

trimmed_length_significant :
    (type : Base32Type) (s : Bytes) (n : ℕ)
    → All (IsSignificant type) s
    → n ≤ length s
    → trimmed_length type s n ≡ n
unfolding trimmed_length
trimmed_length_significant type s zero h f = refl
trimmed_length_significant type s (suc n) h f =
    let last = get_or-All (IsSignificant type) s n 0 h f in
    let keep : (char_value type (get_or s n 0) == 0x80) ≡ false = ground arith in
    rw (keep, trimmed_length)

length-base32_groups :
    (type : Base32Type) (pad : Bool) (s : Bytes) → length s ≤ length (base32_groups type pad s)
unfolding base32_groups
length-base32_groups type pad [] = omega arith
length-base32_groups type pad (c1 ∷ []) = omega arith
length-base32_groups type pad (c1 ∷ c2 ∷ []) = omega arith
length-base32_groups type pad (c1 ∷ c2 ∷ c3 ∷ []) = omega arith
length-base32_groups type pad (c1 ∷ c2 ∷ c3 ∷ c4 ∷ []) = omega arith
length-base32_groups type pad (c1 ∷ c2 ∷ c3 ∷ c4 ∷ c5 ∷ s) =
    omega (arith, length-base32_groups type pad s)

outcome-groups :
    (type : Base32Type) (pad : Bool) (s : Bytes)
    → All IsByte s
    → decode_outcome (base32_groups type pad s) type ≡ done s
unfolding decode_outcome
outcome-groups type pad s h =
    let text = base32_groups type pad s in
    rw (
      trimmed_length_significant type text (length text) (groups-IsSignificant type pad s h)
          (omega arith),
      take_all text (length text) (omega arith),
      loop-groups type pad (length text) s [] h (length-base32_groups type pad s),
    )

-- `base32_decode` gives back every sequence of bytes that `base32_encode` wrote with the same
-- alphabet, with padding or without.
pub base32_decode-encode :
    (type : Base32Type) (pad : Bool) (s : Bytes)
    → All IsByte s
    → base32_decode (base32_encode s type pad) type ≡ s
unfolding base32_decode base32_encode
base32_decode-encode type pad s h = rw (outcome-groups type pad s h, base32_decode)
