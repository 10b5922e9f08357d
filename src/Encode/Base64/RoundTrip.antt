-- ===== src/Encode/Base64/RoundTrip.antt =====
-- Base64 text, written and read.
use lfz.Prelude.{
  ℕ, zero, suc, ◌+◌, ◌*◌, ◌/◌, ◌%◌, ◌≤◌, ◌<◌, ◌≡◌, ◌≢◌, refl, sym, ap, ◌∙◌, arith, Bool, true,
  false,
}
use lfz.Prelude.{
  Bytes, [], ◌∷◌, ◌++◌, length, get_or, All, IsByte, get_or-All, ◌==◌, append-nil, append_assoc,
  take_all,
}
use lfz.Encode.Base64.{
  digit, base64_groups, base64_encode_append, base64_encode, trimmed_length, next, done,
}
use lfz.Encode.Base64.{more, decode_group, decode_loop, decode_outcome, base64_decode}
use lfz.Encode.Base64.Groups.{
  sextet_1, sextet_2, sextet_3, byte_1_lem, byte_2_lem, byte_3_lem, next-digit,
}
use lfz.Prelude.Bits.{bit_and_3, bit_and_f, bit_and_3f}
use lfz.Encode.Base64.Groups.{char_value-digit}
use lfz.Encode.Base64.Tables.{Base64Type, char_value}

next_pad : (s : Bytes) → next (b'=' ∷ s) ≡ (0x40, s)
unfolding next char_value
next_pad s = refl

next_end : next [] ≡ (0x40, [])
unfolding next
next_end = refl

-- One round whose values are known.
loop_round :
    (fuel u : ℕ) (s ret : Bytes) {c1 c2 c3 c4 : ℕ} {s1 s2 s3 s4 bytes : Bytes}
    → next (u ∷ s) ≡ (c1, s1)
    → next s1 ≡ (c2, s2)
    → next s2 ≡ (c3, s3)
    → next s3 ≡ (c4, s4)
    → decode_group c1 c2 c3 c4 s4 ≡ more bytes
    → decode_loop (suc fuel) (u ∷ s) ret ≡ decode_loop fuel s4 (ret ++ bytes)
unfolding decode_loop
loop_round fuel u s ret e1 e2 e3 e4 e5 = ground arith

group_of_three :
    (c1 c2 c3 : ℕ) (rest : Bytes)
    → IsByte c1
    → IsByte c2
    → IsByte c3
    → decode_group (c1 / 4) (c1 % 4 * 16 + c2 / 16) (c2 % 16 * 4 + c3 / 64) (c3 % 64) rest
      ≡ more (c1 ∷ c2 ∷ c3 ∷ [])
unfolding decode_group
group_of_three c1 c2 c3 rest h1 h2 h3 =
    let a = c1 / 4 in
    let b = c1 % 4 * 16 + c2 / 16 in
    let c = c2 % 16 * 4 + c3 / 64 in
    let d = c3 % 64 in ground (arith, byte_1_lem a b, byte_2_lem b c, byte_3_lem c d)

group_of_two :
    (c1 c2 : ℕ)
    → IsByte c1
    → IsByte c2
    → decode_group (c1 / 4) (c1 % 4 * 16 + c2 / 16) (c2 % 16 * 4) 0x40 [] ≡ more (c1 ∷ c2 ∷ [])
unfolding decode_group
group_of_two c1 c2 h1 h2 =
    let b = c1 % 4 * 16 + c2 / 16 in
    ground (arith, byte_1_lem (c1 / 4) b, byte_2_lem b (c2 % 16 * 4))

group_of_one :
    (c1 : ℕ) → IsByte c1 → decode_group (c1 / 4) (c1 % 4 * 16) 0x40 0x40 [] ≡ more (c1 ∷ [])
unfolding decode_group
group_of_one c1 h1 = ground (arith, byte_1_lem (c1 / 4) (c1 % 4 * 16))

loop-groups :
    (type : Base64Type) (pad : Bool) (fuel : ℕ) (s ret : Bytes)
    → All IsByte s
    → length s ≤ fuel
    → decode_loop fuel (base64_groups type pad s) ret ≡ done (ret ++ s)
unfolding base64_groups
loop-groups type pad fuel [] ret h f = unfold decode_loop in ap done (sym (append-nil ret))
loop-groups type pad zero (c1 ∷ s) ret h f = absurd (omega arith)
loop-groups type true (suc fuel) (c1 ∷ []) ret (h1, _) f =
    rw (sextet_1 c1 h1, bit_and_3 c1 h1)
      (loop_round fuel _ _ ret (next-digit type (c1 / 4) _ (omega arith))
          (next-digit type (c1 % 4 * 16) _ (omega arith)) (next_pad _) (next_pad [])
          (group_of_one c1 h1)
        ∙ (unfold decode_loop in refl))
loop-groups type false (suc fuel) (c1 ∷ []) ret (h1, _) f =
    rw (sextet_1 c1 h1, bit_and_3 c1 h1)
      (loop_round fuel _ _ ret (next-digit type (c1 / 4) _ (omega arith))
          (next-digit type (c1 % 4 * 16) _ (omega arith)) next_end next_end (group_of_one c1 h1)
        ∙ (unfold decode_loop in refl))
loop-groups type true (suc fuel) (c1 ∷ c2 ∷ []) ret (h1, (h2, _)) f =
    rw (sextet_1 c1 h1, sextet_2 c1 c2 h1 h2, bit_and_f c2 h2)
      (loop_round fuel _ _ ret (next-digit type (c1 / 4) _ (omega arith))
          (next-digit type _ _ (omega arith)) (next-digit type (c2 % 16 * 4) _ (omega arith))
          (next_pad []) (group_of_two c1 c2 h1 h2)
        ∙ (unfold decode_loop in refl))
loop-groups type false (suc fuel) (c1 ∷ c2 ∷ []) ret (h1, (h2, _)) f =
    rw (sextet_1 c1 h1, sextet_2 c1 c2 h1 h2, bit_and_f c2 h2)
      (loop_round fuel _ _ ret (next-digit type (c1 / 4) _ (omega arith))
          (next-digit type _ _ (omega arith)) (next-digit type (c2 % 16 * 4) _ (omega arith))
          next_end (group_of_two c1 c2 h1 h2)
        ∙ (unfold decode_loop in refl))
loop-groups type pad (suc fuel) (c1 ∷ c2 ∷ c3 ∷ s) ret (h1, (h2, (h3, hs))) f =
    rw (sextet_1 c1 h1, sextet_2 c1 c2 h1 h2, sextet_3 c2 c3 h2 h3, bit_and_3f c3 h3)
      (loop_round fuel _ _ ret (next-digit type (c1 / 4) _ (omega arith))
          (next-digit type _ _ (omega arith)) (next-digit type _ _ (omega arith))
          (next-digit type (c3 % 64) _ (omega arith)) (group_of_three c1 c2 c3 _ h1 h2 h3)
        ∙ loop-groups type pad fuel s (ret ++ (c1 ∷ c2 ∷ c3 ∷ [])) hs (omega arith)
        ∙ ap done (append_assoc ret (c1 ∷ c2 ∷ c3 ∷ []) s))

-- A unit that the decoder does not skip.
abbrev pub IsSignificant : ℕ → Type 0
IsSignificant u = char_value u ≢ 0x80

digit-IsSignificant : (type : Base64Type) (k : ℕ) → k < 64 → IsSignificant (digit type k)
digit-IsSignificant type k h = λ e. absurd (omega (arith, char_value-digit type k h))

pad-IsSignificant : IsSignificant b'='
unfolding char_value
pad-IsSignificant = λ e. cc

groups-IsSignificant :
    (type : Base64Type) (pad : Bool) (s : Bytes)
    → All IsByte s
    → All IsSignificant (base64_groups type pad s)
unfolding base64_groups
groups-IsSignificant type pad [] h = tt
groups-IsSignificant type true (c1 ∷ []) (h1, _) =
    rw (sextet_1 c1 h1, bit_and_3 c1 h1)
      (
        digit-IsSignificant type _ (omega arith),
        (digit-IsSignificant type _ (omega arith), (pad-IsSignificant, (pad-IsSignificant, tt))),
      )
groups-IsSignificant type false (c1 ∷ []) (h1, _) =
    rw (sextet_1 c1 h1, bit_and_3 c1 h1)
      (digit-IsSignificant type _ (omega arith), (digit-IsSignificant type _ (omega arith), tt))
groups-IsSignificant type true (c1 ∷ c2 ∷ []) (h1, (h2, _)) =
    rw (sextet_1 c1 h1, sextet_2 c1 c2 h1 h2, bit_and_f c2 h2)
      (
        digit-IsSignificant type _ (omega arith),
        (
          digit-IsSignificant type _ (omega arith),
          (digit-IsSignificant type _ (omega arith), (pad-IsSignificant, tt)),
        ),
      )
groups-IsSignificant type false (c1 ∷ c2 ∷ []) (h1, (h2, _)) =
    rw (sextet_1 c1 h1, sextet_2 c1 c2 h1 h2, bit_and_f c2 h2)
      (
        digit-IsSignificant type _ (omega arith),
        (digit-IsSignificant type _ (omega arith), (digit-IsSignificant type _ (omega arith), tt)),
      )
groups-IsSignificant type pad (c1 ∷ c2 ∷ c3 ∷ s) (h1, (h2, (h3, hs))) =
    rw (sextet_1 c1 h1, sextet_2 c1 c2 h1 h2, sextet_3 c2 c3 h2 h3, bit_and_3f c3 h3)
      (
        digit-IsSignificant type _ (omega arith),
        (
          digit-IsSignificant type _ (omega arith),
          (
            digit-IsSignificant type _ (omega arith),
            (digit-IsSignificant type _ (omega arith), groups-IsSignificant type pad s hs),
          ),
        ),
      )

trimmed_length_significant :
    (s : Bytes) (n : ℕ) → All IsSignificant s → n ≤ length s → trimmed_length s n ≡ n
unfolding trimmed_length
trimmed_length_significant s zero h f = refl
trimmed_length_significant s (suc n) h f =
    let last = get_or-All IsSignificant s n 0 h f in
    let keep : (char_value (get_or s n 0) == 0x80) ≡ false = ground arith in
    rw (keep, trimmed_length)

length-base64_groups :
    (type : Base64Type) (pad : Bool) (s : Bytes) → length s ≤ length (base64_groups type pad s)
unfolding base64_groups
length-base64_groups type pad [] = omega arith
length-base64_groups type pad (c1 ∷ []) = omega arith
length-base64_groups type pad (c1 ∷ c2 ∷ []) = omega arith
length-base64_groups type pad (c1 ∷ c2 ∷ c3 ∷ s) = omega (arith, length-base64_groups type pad s)

outcome-groups :
    (type : Base64Type) (pad : Bool) (s : Bytes)
    → All IsByte s
    → decode_outcome (base64_groups type pad s) ≡ done s
unfolding decode_outcome
outcome-groups type pad s h =
    let text = base64_groups type pad s in
    rw (
      trimmed_length_significant text (length text) (groups-IsSignificant type pad s h)
          (omega arith),
      take_all text (length text) (omega arith),
      loop-groups type pad (length text) s [] h (length-base64_groups type pad s),
    )

-- `base64_decode` gives back every sequence of bytes that `base64_encode` wrote, in both alphabets,
-- with padding or without.
pub base64_decode-encode :
    (type : Base64Type) (pad : Bool) (s : Bytes)
    → All IsByte s
    → base64_decode (base64_encode s type pad) ≡ s
unfolding base64_decode base64_encode base64_encode_append
base64_decode-encode type pad s h = rw (outcome-groups type pad s h, base64_decode)
