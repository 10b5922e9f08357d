-- ===== src/Limiter/Rounds.antt =====
-- The loop of `rate_limiter::distribute_overflow` in lib/rate_limiter.cpp against its rounds.
use lfz.Prelude.{
  ℕ, zero, suc, ◌+◌, ◌-◌, ◌*◌, ◌/◌, ◌%◌, ◌≤◌, ◌<◌, ◌≡◌, arith, true, false, ◌||◌, List, length, set,
  get_or, length-take, length-set, ◌==◌, if◌then◌else◌, if-cases, Bool-cases, inl, inr,
  Option-cases,
}
use native.Mathlib.Nat.{mod-lt, div-eq_of_lt}
use lfz.Prelude.{ltb, ltb→lt}
use lfz.Memory.{size_mod}
use lfz.Limiter.{Virtual, Limiter}
use lfz.Limiter.Overflow.{
  Spread, bucket_at, swap_remove, settle, hand_out, unsaturated_of, extra_tokens, spread_once,
  spread, enough, start,
}

length-swap_remove :
    (scratch : List ℕ) (i : ℕ) → length (swap_remove scratch i) ≡ length scratch - 1
unfolding swap_remove
length-swap_remove scratch i =
    let last = get_or scratch (length scratch - 1) 0 in
    omega (arith, length-take (length scratch - 1) (set scratch i last), length-set scratch i last)

mod_less : (r u : ℕ) → 0 < u → 0 < r / u → r % u < r
mod_less r u some_u some_extra = elim (Bool-cases (ltb r u)) [
  | inl e ↦
      let none_left : r / u ≡ 0 = div-eq_of_lt (ltb→lt r u e) in
      absurd (omega (arith, some_extra, none_left))
  | inr e ↦ let below = mod-lt r some_u in ground (arith, below, e)
]

-- What gets less with each round.
abbrev pub measure : {A : Type 0} → Spread A → ℕ
measure s = length s.scratch * size_mod + s.remaining

-- The tokens have 64 bits.
abbrev pub Bounded : {A : Type 0} → Spread A → Type 0
Bounded s = s.remaining < size_mod

module _ {A : Type 0} (v : Virtual A) where
  -- The next place has one round less, and nothing got more.
  abbrev Settled : ℕ → Spread A → ℕ × Spread A → Type 0
  Settled left s (next, t) = (next + left ≡ length t.scratch) × Bounded t × (measure t ≤ measure s)

  settle-Settled :
      (left i : ℕ) (r : ℕ × A) (s : Spread A)
      → i + suc left ≡ length s.scratch
      → Bounded s
      → Settled left s (settle v i r s)
  unfolding settle
  settle-Settled left i (sub_overflow, b) s h bounded =
      let shorter = length-swap_remove s.scratch i in
      if-cases (Settled left s)
        ((if sub_overflow == 0 then false else true) || v.unsaturated b == 0) _ _
        (λ e. (omega (arith, h, shorter), omega arith, omega (arith, h, shorter)))
        (λ e. (omega (arith, h), bounded, omega arith))

  abbrev Handed : Spread A → Spread A → Type 0
  Handed s t = Bounded t × (measure t ≤ measure s)

  hand_out-Handed :
      (left extra i : ℕ) (s : Spread A)
      → i + left ≡ length s.scratch
      → Bounded s
      → Handed s (hand_out v left extra i s)
  unfolding hand_out
  hand_out-Handed zero extra i s h bounded = (bounded, omega arith)
  hand_out-Handed (suc left) extra i s h bounded =
      elim (Option-cases (bucket_at s.buckets (get_or s.scratch i 0))) [
        | inl e ↦ rw (e, hand_out) (bounded, omega arith)
        | inr (b, e) ↦
            let r = settle v i (v.distribute_overflow b extra) s in
            let (at, small, less) =
              settle-Settled left i (v.distribute_overflow b extra) s h bounded in
            let (still, last) = hand_out-Handed left extra r.0 r.1 at small in
            rw (e, hand_out) (still, omega (arith, less, last))
      ]

  -- What the loop makes of a state: its last round is the first without tokens for each.
  pub data Loop : Spread A → Spread A → Type 0 where
    stops : (s : Spread A) → extra_tokens v s ≡ 0 → Loop s (spread_once v s)
    goes_on : (s t : Spread A) → 0 < extra_tokens v s → Loop (spread_once v s) t → Loop s t

  no_extra : (s : Spread A) → (unsaturated_of v s == 0) ≡ true → ¬ (0 < extra_tokens v s)
  unfolding extra_tokens
  no_extra s e h = ground (arith, e, h)

  extra_quotient :
      (s : Spread A)
      → (unsaturated_of v s == 0) ≡ false
      → 0 < extra_tokens v s
      → 0 < s.remaining / unsaturated_of v s
  unfolding extra_tokens
  extra_quotient s e h = rw e at h

  spread_once-less :
      (s : Spread A)
      → Bounded s
      → 0 < extra_tokens v s
      → Bounded (spread_once v s) × (measure (spread_once v s) < measure s)
  unfolding spread_once
  spread_once-less s bounded some_extra =
      let u = unsaturated_of v s in
      elim (Bool-cases (u == 0)) [
        | inl e ↦ absurd (no_extra s e some_extra)
        | inr e ↦
            let less : s.remaining % u < s.remaining =
              mod_less s.remaining u (ground (arith, e)) (extra_quotient s e some_extra) in
            let handed =
              hand_out-Handed (length s.scratch) (extra_tokens v s) 0
                (record s { remaining = s.remaining % u }) (omega arith)
                (omega (arith, less, bounded)) in
            rw (e, spread_once) (handed.0, omega (arith, handed.1, less))
      ]

  spread-Loop :
      (rounds : ℕ) (s : Spread A) → Bounded s → measure s < rounds → Loop s (spread v rounds s)
  unfolding spread
  spread-Loop zero s bounded h = absurd (omega (arith, h))
  spread-Loop (suc rounds) s bounded h = elim (Bool-cases (extra_tokens v s == 0)) [
    | inl e ↦ rw (e, spread) (stops s (ground (arith, e)))
    | inr e ↦
        let some_extra : 0 < extra_tokens v s = ground (arith, e) in
        let (small, less) = spread_once-less s bounded some_extra in
        rw (e, spread)
          (goes_on s _ some_extra
            (spread-Loop rounds (spread_once v s) small (omega (arith, h, less))))
  ]

  -- The loop of distribute_overflow ends, whatever the buckets in it do, on every limiter and overflow.
  pub start-Loop :
      (l : Limiter A) (overflow : ℕ)
      → Loop (start v l overflow) (spread v (enough v l.scratch_buffer_) (start v l overflow))
  unfolding start
  start-Loop l overflow =
      spread-Loop (enough v l.scratch_buffer_) (start v l overflow) (omega arith) (omega arith)
