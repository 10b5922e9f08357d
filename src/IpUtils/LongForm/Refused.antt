-- ===== src/IpUtils/LongForm/Refused.antt =====
-- What `get_ipv6_long_form` refuses.
use lfz.Prelude.{
  ℕ, ◌⊎◌, Bool-cases, zero, suc, ◌+◌, ◌-◌, ◌*◌, ◌≤◌, ◌≡◌, refl, ap, ◌∙◌, arith, true, false, Bytes,
  [], ◌∷◌, ◌++◌,
}
use lfz.Prelude.{
  length, drop, ltb, ◌==◌, some, Option-cases, inl, inr, Lacks, find_from, find, find-append,
  find-none,
}
use lfz.Prelude.{rfind_to-last, length-append, append_assoc, overlay, rfind_to}
use mathlib.Core.Path.{subst}
use lfz.IpUtils.LongForm.{lower_group, zero_form, refused, half, left_loop, right_loop}
use lfz.IpUtils.LongForm.{slice, or_end, long_form_between, get_ipv6_long_form}

-- A text of five units or more with no colon and no bracket in front.
no_colon_refused :
    (c : ℕ) (s : Bytes)
    → Lacks b':' (c ∷ s)
    → (c == b'[') ≡ false
    → 4 ≤ length s
    → get_ipv6_long_form (c ∷ s) ≡ []
unfolding get_ipv6_long_form long_form_between left_loop find_from
no_colon_refused c s lacks front long = ground (arith, find-none b':' (c ∷ s) lacks)

drop_past : (s : Bytes) (x : ℕ) (t : Bytes) (n : ℕ) → n ≡ length s + 1 → drop n (s ++ (x ∷ t)) ≡ t
drop_past [] x t zero e = absurd (omega arith)
drop_past [] x t (suc n) e = let e' : n ≡ 0 = omega arith in rw e'
drop_past (y ∷ s) x t zero e = absurd (omega arith)
drop_past (y ∷ s) x t (suc n) e = drop_past s x t n (omega arith)

-- One round of the left loop on a valid group.
left_round :
    (rounds : ℕ) (s : Bytes) (end start left pos : ℕ) (buf ds : Bytes)
    → or_end (find_from b':' s start) end ≡ pos
    → ltb start end ≡ true
    → (pos == start) ≡ false
    → ltb 4 (pos - start) ≡ false
    → lower_group (slice s start pos) ≡ some ds
    → left_loop (suc rounds) s end start left buf
      ≡ left_loop rounds s end
          (pos + 1)
          (left + 1)
          (overlay buf (5 * left + (4 - (pos - start))) ds)
unfolding left_loop
left_round rounds s end start left pos buf ds here e1 e2 e3 e4 =
    subst
      (λ (q : ℕ).
        (q == start) ≡ false
        → ltb 4 (q - start) ≡ false
        → lower_group (slice s start q) ≡ some ds
        → left_loop (suc rounds) s end start left buf
          ≡ left_loop rounds s end (q + 1) (left + 1)
              (overlay buf (5 * left + (4 - (q - start))) ds))
      here (λ e2' e3' e4'. rw (e1, e2', e3', e4', left_loop)) e2 e3 e4

module _ (c : ℕ) (g : Bytes) (lacks : Lacks b':' (c ∷ g)) (front : (c == b'[') ≡ false) where
  address : Bytes
  address = (c ∷ g) ++ (b':' ∷ b':' ∷ [])

  n : ℕ
  n = length (c ∷ g)

  length-address : length address ≡ n + 2
  unfolding address n
  length-address = omega (arith, length-append (c ∷ g) (b':' ∷ b':' ∷ []))

  first_colon : find_from b':' address 0 ≡ some n
  unfolding find_from address n
  first_colon = rw (find-append b':' (c ∷ g) (b':' ∷ []) lacks) (ap some (omega arith))

  second_colon : find_from b':' address (n + 1) ≡ some (n + 1)
  unfolding find_from find address n
  second_colon = rw (drop_past (c ∷ g) b':' (b':' ∷ []) (n + 1) refl) (ap some (omega arith))

  last_colon : rfind_to b':' address (n + 1) ≡ some (n + 1)
  unfolding address n
  last_colon =
      let whole = append_assoc (c ∷ g) (b':' ∷ []) (b':' ∷ []) in
      let e : length ((c ∷ g) ++ (b':' ∷ [])) ≡ length (c ∷ g) + 1 =
        length-append (c ∷ g) (b':' ∷ []) in
      rw (← whole, ← e) (rfind_to-last b':' ((c ∷ g) ++ (b':' ∷ [])))

  left_stops :
      (rounds : ℕ) (buf : Bytes)
      → left_loop (suc rounds) address (n + 2) (n + 1) 1 buf ≡ half (n + 1) 1 buf
  unfolding left_loop
  left_stops rounds buf = ground (arith, second_colon)

  right_refuses : (buf : Bytes) → right_loop 7 address (n + 1) (n + 2) 1 0 buf ≡ []
  unfolding right_loop
  right_refuses buf = ground (arith, last_colon)

  left_first :
      (left_loop 8 address (n + 2) 0 0 zero_form ≡ refused)
      ⊎ ((buf : Bytes) × (left_loop 8 address (n + 2) 0 0 zero_form ≡ half (n + 1) 1 buf))
  unfolding left_loop
  left_first = elim (Bool-cases (ltb 4 (n - 0))) [
    | inl long ↦ inl (ground (arith, some_end, first_colon, not_start, long))
    | inr short ↦ elim (Option-cases (lower_group (slice address 0 n))) [
      | inl bad ↦ inl (ground (arith, some_end, first_colon, not_start, short, bad))
      | inr (ds, good) ↦ inr (
        overlay zero_form (5 * 0 + (4 - (n - 0))) ds,
        left_round 7 address (n + 2) 0 0 n zero_form ds at_n some_end not_start short good
            ∙ left_stops 6 _,
      )
    ]
  ]
    where
      at_n : or_end (find_from b':' address 0) (n + 2) ≡ n
      at_n = rw first_colon

      some_end : ltb 0 (n + 2) ≡ true
      some_end = ground arith

      not_start : (n == 0) ≡ false
      not_start = unfold n in ground arith

  between_refuses : long_form_between address 0 (n + 2) ≡ []
  unfolding long_form_between
  between_refuses = elim left_first [
    | inl bad ↦ ground (arith, bad)
    | inr (buf, stops) ↦ ground (arith, stops, right_refuses buf)
  ]

-- A group and `::` behind it is refused, although it is a valid address when the group is.
pub trailing_colons_refused :
    (c : ℕ) (g : Bytes)
    → Lacks b':' (c ∷ g)
    → (c == b'[') ≡ false
    → get_ipv6_long_form ((c ∷ g) ++ (b':' ∷ b':' ∷ [])) ≡ []
unfolding get_ipv6_long_form address
trailing_colons_refused c g lacks front =
    let whole = between_refuses c g lacks front in
    rw (front, length-address c g lacks front) (whole)

-- A text of five units or more with no colon and no bracket.
pub plain_refused :
    (s : Bytes) → Lacks b':' s → Lacks b'[' s → 5 ≤ length s → get_ipv6_long_form s ≡ []
plain_refused [] lacks none_open long = absurd (omega arith)
plain_refused (c ∷ s) lacks (front, _) long = no_colon_refused c s lacks front (omega arith)
