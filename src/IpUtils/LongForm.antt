-- ===== src/IpUtils/LongForm.antt =====
-- `do_get_ipv6_long_form`. `start` and `end` are indices into the short address; an empty result is
-- the refusal.
pub mod Shape
pub mod Refused
use lfz.Prelude.{ℕ, zero, suc, ◌+◌, ◌-◌, ◌*◌, true, false, not, ◌&&◌, ◌||◌, Bytes, [], ◌∷◌}
use lfz.Prelude.{
  length, take, drop, get_or, overlay, codes, leb, ltb, ◌==◌, if◌then◌else◌, Option, none, some,
}
use lfz.Prelude.{find_from, rfind_to, is_empty}

-- The digit that is written for a unit: upper case becomes lower case.
unfoldable pub lower_digit : ℕ → Option ℕ
lower_digit c =
    if (leb b'0' c && leb c b'9') || (leb b'a' c && leb c b'f')
    then some c
    else if leb b'A' c && leb c b'F'
    then some (c + (b'a' - b'A'))
    else none

-- The units of a group as they are written; `none` is an invalid character.
unfoldable pub lower_group : Bytes → Option Bytes
lower_group [] = some []
lower_group (c ∷ s) = elim (lower_digit c) [
  | none ↦ none
  | some d ↦ elim (lower_group s) [ none ↦ none | some ds ↦ some (d ∷ ds) ]
]

-- `Char buf[39]`.
abbrev pub zero_form : Bytes
zero_form = codes "0000:0000:0000:0000:0000:0000:0000:0000"

-- How the loop over the left half ends: refused, or with `start`, `left_segments` and the buffer.
pub data Half : Type 0 where
  refused : Half
  half : ℕ → ℕ → Bytes → Half

-- The units from index `i` up to index `j`.
abbrev pub slice : Bytes → ℕ → ℕ → Bytes
slice s i j = take (j - i) (drop i s)

abbrev pub or_end : Option ℕ → ℕ → ℕ
or_end none end = end
or_end (some pos) end = pos

-- The left half; `rounds` is `8 - left_segments`.
unfoldable pub left_loop : ℕ → Bytes → ℕ → ℕ → ℕ → Bytes → Half
left_loop zero s end start left buf = half start left buf
left_loop (suc rounds) s end start left buf =
    let pos = or_end (find_from b':' s start) end in
    let group = lower_group (slice s start pos) in
    elim (ltb start end) [
      | false ↦ half start left buf
      | true ↦ elim (pos == start) [
        | true ↦
            if left == 0
            then (if get_or s (start + 1) 0 == b':' then half (pos + 1) left buf else refused)
            else half pos left buf
        | false ↦ elim (ltb 4 (pos - start)) [
          | true ↦ refused
          | false ↦ elim group [
            | none ↦ refused
            | some digits ↦
                left_loop rounds s end (pos + 1) (left + 1)
                  (overlay buf (5 * left + (4 - (pos - start))) digits)
          ]
        ]
      ]
    ]

-- The right half; `rounds` is `8 - left_segments - right_segments`. A result is the buffer, once
-- `start < end` no longer holds.
unfoldable pub right_loop : ℕ → Bytes → ℕ → ℕ → ℕ → ℕ → Bytes → Bytes
right_loop zero s start end left right buf = if ltb start end then [] else buf
right_loop (suc rounds) s start end left right buf =
    let last = end - 1 in
    let pos = or_end (rfind_to b':' s last) last in
    let group = lower_group (slice s (pos + 1) (last + 1)) in
    elim (ltb start end) [
      | false ↦ buf
      | true ↦ elim (last - pos == 0) [
        | true ↦
            if not (left == 0) || not (right == 0) then [] else if ltb start last then [] else buf
        | false ↦ elim (ltb 4 (last - pos)) [
          | true ↦ []
          | false ↦ elim group [
            | none ↦ []
            | some digits ↦
                right_loop rounds s start pos left (right + 1)
                  (overlay buf (5 * (8 - right) - 1 - (last - pos)) digits)
          ]
        ]
      ]
    ]

-- The part of the function behind the check of the brackets.
unfoldable pub long_form_between : Bytes → ℕ → ℕ → Bytes
long_form_between s start end =
    if ltb (end - start) 2 || ltb 39 (end - start)
    then []
    else elim (left_loop 8 s end start 0 zero_form) [
      | refused ↦ []
      | half start' left buf ↦ right_loop (8 - left) s start' end left 0 buf
    ]

unfoldable pub get_ipv6_long_form : Bytes → Bytes
get_ipv6_long_form s =
    if not (is_empty s) && get_or s 0 0 == b'['
    then (if get_or s (length s - 1) 0 == b']' then long_form_between s 1 (length s - 1) else [])
    else long_form_between s 0 (length s)
