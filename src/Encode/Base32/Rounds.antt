-- ===== src/Encode/Base32/Rounds.antt =====
-- One round of the base32 decoder.
use lfz.Prelude.{ℕ, suc, ◌+◌, ◌*◌, ◌/◌, ◌%◌, ◌≡◌, refl, arith, Bytes, [], ◌∷◌, ◌++◌, IsByte, some}
use lfz.Encode.Base32.{next, decode_group, decode_loop}
use lfz.Encode.Base32.Groups.{byte_1_lem, byte_2_lem, byte_3_lem, byte_4_lem, byte_5_lem}
use lfz.Encode.Base32.Tables.{Base32Type, standard, base32hex, locale_safe, char_value}

-- One round whose values are known.
pub loop_round :
    (type : Base32Type) (fuel u e : ℕ) (s ret : Bytes) {c1 c2 c3 c4 c5 c6 c7 c8 : ℕ}
    {s1 s2 s3 s4 s5 s6 s7 s8 bytes : Bytes} {e1 e2 e3 e4 e5 e6 e7 e8 : ℕ}
    → next type (u ∷ s) e ≡ (c1, s1, e1)
    → next type s1 e1 ≡ (c2, s2, e2)
    → next type s2 e2 ≡ (c3, s3, e3)
    → next type s3 e3 ≡ (c4, s4, e4)
    → next type s4 e4 ≡ (c5, s5, e5)
    → next type s5 e5 ≡ (c6, s6, e6)
    → next type s6 e6 ≡ (c7, s7, e7)
    → next type s7 e7 ≡ (c8, s8, e8)
    → decode_group c1 c2 c3 c4 c5 c6 c7 c8 ≡ some bytes
    → decode_loop type (suc fuel) (u ∷ s) e ret ≡ decode_loop type fuel s8 e8 (ret ++ bytes)
unfolding decode_loop
loop_round type fuel u e s ret p1 p2 p3 p4 p5 p6 p7 p8 p9 = ground arith

-- The padding and the end of the input.
pub next_pad : (type : Base32Type) (s : Bytes) → next type (b'=' ∷ s) 0 ≡ (0x40, s, 0x40)
unfolding next char_value
next_pad standard s = refl
next_pad base32hex s = refl
next_pad locale_safe s = refl

pub next_pads : (type : Base32Type) (s : Bytes) → next type (b'=' ∷ s) 0x40 ≡ (0x40, s, 0x40)
unfolding next char_value
next_pads standard s = refl
next_pads base32hex s = refl
next_pads locale_safe s = refl

pub next_end : (type : Base32Type) → next type [] 0 ≡ (0x40, [], 0)
unfolding next
next_end type = refl

-- The round on the values of five bytes, and of the bytes before the end.
pub group_one :
    (c1 : ℕ)
    → IsByte c1
    → decode_group (c1 / 8) (c1 % 8 * 4) 0x40 0x40 0x40 0x40 0x40 0x40 ≡ some (c1 ∷ [])
unfolding decode_group
group_one c1 h1 = ground (arith, byte_1_lem (c1 / 8) (c1 % 8 * 4))

pub group_two :
    (c1 c2 : ℕ)
    → IsByte c1
    → IsByte c2
    → decode_group (c1 / 8) (c1 % 8 * 4 + c2 / 64) (c2 / 2 % 32) (c2 % 2 * 16) 0x40 0x40 0x40 0x40
      ≡ some (c1 ∷ c2 ∷ [])
unfolding decode_group
group_two c1 c2 h1 h2 = ground (
  arith,
  byte_1_lem (c1 / 8) (c1 % 8 * 4 + c2 / 64),
  byte_2_lem (c1 % 8 * 4 + c2 / 64) (c2 / 2 % 32) (c2 % 2 * 16),
)

pub group_three :
    (c1 c2 c3 : ℕ)
    → IsByte c1
    → IsByte c2
    → IsByte c3
    → decode_group
        (c1 / 8)
        (c1 % 8 * 4 + c2 / 64)
        (c2 / 2 % 32)
        (c2 % 2 * 16 + c3 / 16)
        (c3 % 16 * 2)
        0x40
        0x40
        0x40
      ≡ some (c1 ∷ c2 ∷ c3 ∷ [])
unfolding decode_group
group_three c1 c2 c3 h1 h2 h3 = ground (
  arith,
  byte_1_lem (c1 / 8) (c1 % 8 * 4 + c2 / 64),
  byte_2_lem (c1 % 8 * 4 + c2 / 64) (c2 / 2 % 32) (c2 % 2 * 16 + c3 / 16),
  byte_3_lem (c2 % 2 * 16 + c3 / 16) (c3 % 16 * 2),
)

pub group_four :
    (c1 c2 c3 c4 : ℕ)
    → IsByte c1
    → IsByte c2
    → IsByte c3
    → IsByte c4
    → decode_group
        (c1 / 8)
        (c1 % 8 * 4 + c2 / 64)
        (c2 / 2 % 32)
        (c2 % 2 * 16 + c3 / 16)
        (c3 % 16 * 2 + c4 / 128)
        (c4 / 4 % 32)
        (c4 % 4 * 8)
        0x40
      ≡ some (c1 ∷ c2 ∷ c3 ∷ c4 ∷ [])
unfolding decode_group
group_four c1 c2 c3 c4 h1 h2 h3 h4 = ground (
  arith,
  byte_1_lem (c1 / 8) (c1 % 8 * 4 + c2 / 64),
  byte_2_lem (c1 % 8 * 4 + c2 / 64) (c2 / 2 % 32) (c2 % 2 * 16 + c3 / 16),
  byte_3_lem (c2 % 2 * 16 + c3 / 16) (c3 % 16 * 2 + c4 / 128),
  byte_4_lem (c3 % 16 * 2 + c4 / 128) (c4 / 4 % 32) (c4 % 4 * 8),
)

pub group_five :
    (c1 c2 c3 c4 c5 : ℕ)
    → IsByte c1
    → IsByte c2
    → IsByte c3
    → IsByte c4
    → IsByte c5
    → decode_group
        (c1 / 8)
        (c1 % 8 * 4 + c2 / 64)
        (c2 / 2 % 32)
        (c2 % 2 * 16 + c3 / 16)
        (c3 % 16 * 2 + c4 / 128)
        (c4 / 4 % 32)
        (c4 % 4 * 8 + c5 / 32)
        (c5 % 32)
      ≡ some (c1 ∷ c2 ∷ c3 ∷ c4 ∷ c5 ∷ [])
unfolding decode_group
group_five c1 c2 c3 c4 c5 h1 h2 h3 h4 h5 = ground (
  arith,
  byte_1_lem (c1 / 8) (c1 % 8 * 4 + c2 / 64),
  byte_2_lem (c1 % 8 * 4 + c2 / 64) (c2 / 2 % 32) (c2 % 2 * 16 + c3 / 16),
  byte_3_lem (c2 % 2 * 16 + c3 / 16) (c3 % 16 * 2 + c4 / 128),
  byte_4_lem (c3 % 16 * 2 + c4 / 128) (c4 / 4 % 32) (c4 % 4 * 8 + c5 / 32),
  byte_5_lem (c4 % 4 * 8 + c5 / 32) (c5 % 32),
)
