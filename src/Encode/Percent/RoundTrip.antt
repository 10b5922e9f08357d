-- ===== src/Encode/Percent/RoundTrip.antt =====
-- Percent-encoded text, written and read.
use lfz.Prelude.{ℕ, ◌/◌, ◌<◌, ◌≡◌, sym, ap, ◌∙◌, arith, Bool, false, not, Bytes, [], ◌∷◌, ◌++◌}
use lfz.Prelude.{ltb, All, some, bit_and, append-nil, append_assoc, ◌==◌, ◌&&◌}
use lfz.Prelude.Bits.{bit_and_f}
use lfz.Encode.Hex.{int_to_hex_char}
use lfz.Encode.Hex.RoundTrip.{hex_char-int_to, nibbles}
use lfz.Encode.Percent.{fresh, is_unreserved, percent_encode_char, percent_encode, percent_plain}
use lfz.Encode.Percent.{percent_decode_loop, percent_decode}

-- A byte of a C string.
abbrev pub IsText : ℕ → Type 0
IsText c = (0 < c) × (c < 256)

module _ (allow_null : Bool) (s ret : Bytes) where
  -- One round of `percent_decode_impl` on a plain byte, and on an escaped one.
  loop_plain :
      (c : ℕ)
      → IsText c
      → (c == b'%') ≡ false
      → percent_decode_loop allow_null fresh (c ∷ s) ret
        ≡ percent_decode_loop allow_null fresh s (ret ++ (c ∷ []))
  unfolding percent_decode_loop percent_plain
  loop_plain c h e =
      let not_null : (c == 0) ≡ false = ground arith in
      let narrow : ltb 255 c ≡ false = ground arith in rw (e, not_null, narrow, percent_decode_loop)

  loop_escaped :
      (c : ℕ)
      → IsText c
      → percent_decode_loop allow_null fresh
          (b'%' ∷ int_to_hex_char false (c / 16) ∷ int_to_hex_char false (bit_and c 0xf) ∷ s)
          ret
        ≡ percent_decode_loop allow_null fresh s (ret ++ (c ∷ []))
  unfolding percent_decode_loop
  loop_escaped c h =
      let not_null : (c / 16 == 0 && bit_and c 0xf == 0 && not allow_null) ≡ false =
        ground (arith, bit_and_f c) in
      rw (
        hex_char-int_to false (c / 16) (omega arith),
        hex_char-int_to false (bit_and c 0xf) (omega (arith, bit_and_f c)),
        not_null,
        nibbles c (omega arith),
        percent_decode_loop,
      )

  loop-encode_char :
      (keep_slashes : Bool) (c : ℕ)
      → IsText c
      → percent_decode_loop allow_null fresh (percent_encode_char keep_slashes c ++ s) ret
        ≡ percent_decode_loop allow_null fresh s (ret ++ (c ∷ []))
  unfolding percent_encode_char is_unreserved
  loop-encode_char keep_slashes c h = ground (arith, loop_plain c h, loop_escaped c h)

loop-percent_encode :
    (keep_slashes allow_null : Bool) (s ret : Bytes)
    → All IsText s
    → percent_decode_loop allow_null fresh (percent_encode keep_slashes s) ret ≡ some (ret ++ s)
unfolding percent_encode
loop-percent_encode keep_slashes allow_null [] ret h =
    unfold percent_decode_loop in ap some (sym (append-nil ret))
loop-percent_encode keep_slashes allow_null (c ∷ s) ret (hc, hs) =
    let not_null : (c == 0) ≡ false = ground arith in
    rw (not_null, loop-encode_char allow_null (percent_encode keep_slashes s) ret keep_slashes c hc)
      (loop-percent_encode keep_slashes allow_null s (ret ++ (c ∷ [])) hs
        ∙ ap some (append_assoc ret (c ∷ []) s))

-- `percent_decode` gives back every text without null bytes that `percent_encode` wrote, whether
-- slashes were kept or not, and whether null bytes are allowed or not.
pub percent_decode-encode :
    (keep_slashes allow_null : Bool) (s : Bytes)
    → All IsText s
    → percent_decode allow_null (percent_encode keep_slashes s) ≡ s
unfolding percent_decode
percent_decode-encode keep_slashes allow_null s h =
    rw (loop-percent_encode keep_slashes allow_null s [] h)
