-- ===== src/Format/Returns.antt =====
-- The rounds of `do_sprintf` of lib/libfilezilla/format.hpp.
use lfz.Prelude.{
  ℕ, zero, suc, ◌+◌, ◌<◌, ◌≤◌, ◌≡◌, refl, arith, Bytes, List, [], ◌∷◌, length, length-drop, drop,
  Option, none, some, Option-cases, inl, inr, ◌⊎◌, find, find_if, ◌==◌, if-cases,
}
use lfz.Format.{Field, Arg, no_field}
use lfz.Format.Sprintf.{
  Place, FieldMove, in_flags, reads, ends, field_move, read_field, get_field, put_field,
}
use lfz.Format.Sprintf.{put_front, sprintf_loop, do_sprintf}

FieldMove-cases :
    (m : FieldMove)
    → ((r : Place × Field × ℕ) × (m ≡ reads r.0 r.1 r.2)) ⊎ ((r : Field × ℕ) × (m ≡ ends r.0 r.1))
FieldMove-cases (reads p f n) = inl ((p, f, n), refl)
FieldMove-cases (ends f n) = inr ((f, n), refl)

length-read_field :
    (place : Place) (f : Field) (n : ℕ) (s : Bytes) → length (read_field place f n s).2 ≤ length s
unfolding read_field
length-read_field place f n [] = omega arith
length-read_field place f n (c ∷ s) = elim (FieldMove-cases (field_move place c f n)) [
  | inl (r, e) ↦ rw (e, read_field) (omega (arith, length-read_field r.0 r.1 r.2 s))
  | inr (r, e) ↦ rw (e, read_field) (omega arith)
]

length-get_field : (n : ℕ) (s : Bytes) → length (get_field n s).3 ≤ length s
unfolding get_field
length-get_field n [] = omega arith
length-get_field n (c ∷ s) =
    if-cases {A = Bytes × Field × ℕ × Bytes} (λ r. length r.3 ≤ suc (length s)) (c == b'%') _ _
      (λ e. omega arith) (λ e. length-read_field in_flags no_field n (c ∷ s))

found-length : (c : ℕ) (s : Bytes) (at : ℕ) → find c s ≡ some at → 0 < length s
unfolding find find_if
found-length c [] at h = cc h
found-length c (x ∷ s) at h = omega arith

-- The output is there.
abbrev pub Returns : Option Bytes → Type 0
Returns none = ⊥
Returns (some s) = Unit

put_front-Returns : (s : Bytes) (r : Option Bytes) → Returns r → Returns (put_front s r)
unfolding put_front
put_front-Returns s none h = h
put_front-Returns s (some t) h = tt

sprintf_loop-Returns :
    (rounds : ℕ) (args : List Arg) (n : ℕ) (fmt : Bytes)
    → length fmt < rounds
    → Returns (sprintf_loop rounds args n fmt)
unfolding sprintf_loop
sprintf_loop-Returns zero args n fmt h = absurd (omega (arith, h))
sprintf_loop-Returns (suc rounds) args n fmt h = elim (Option-cases (find b'%' fmt)) [
  | inl e ↦ rw (e, sprintf_loop) tt
  | inr (at, e) ↦
      let (literal, f, m, rest) = get_field n (drop (at + 1) fmt) in
      let shorter : length rest < rounds = omega (
        arith,
        h,
        length-get_field n (drop (at + 1) fmt),
        length-drop (at + 1) fmt,
        found-length b'%' fmt at e,
      ) in
      rw (e, sprintf_loop)
        (put_front-Returns _ _
          (sprintf_loop-Returns rounds args (put_field args f m).1 rest shorter))
]

-- do_sprintf ends on every format, with any arguments.
pub do_sprintf-Returns : (fmt : Bytes) (args : List Arg) → Returns (do_sprintf fmt args)
unfolding do_sprintf
do_sprintf-Returns fmt args = sprintf_loop-Returns (suc (length fmt)) args 0 fmt (omega arith)
