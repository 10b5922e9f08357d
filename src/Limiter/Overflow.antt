-- ===== src/Limiter/Overflow.antt =====
-- `distribute_overflow` of `rate_limiter` in lib/rate_limiter.cpp.
use lfz.Prelude.{
  ℕ, zero, suc, ◌+◌, ◌-◌, ◌*◌, ◌/◌, ◌%◌, true, false, ◌||◌, List, [], ◌∷◌, length, take, set,
  get_or, ltb, ◌==◌, if◌then◌else◌, min, Option, none, some,
}
use lfz.Memory.{add_size, sub_size, size_mod}
use lfz.Bucket.{unlimited}
use lfz.Limiter.{Virtual, LimiterData, Limiter}

-- What the loop changes: the scratch buffer, the buckets and the tokens that remain.
pub record Spread (A : Type 0) : Type 0 where
  pub scratch : List ℕ
  pub buckets : List A
  pub remaining : ℕ

unfoldable pub bucket_at {ℓ} : {A : Type ℓ} → List A → ℕ → Option A
bucket_at [] i = none
bucket_at (b ∷ bs) zero = some b
bucket_at (b ∷ bs) (suc i) = bucket_at bs i

-- The last index is put in the place of one, and taken off the end.
unfoldable pub swap_remove : List ℕ → ℕ → List ℕ
swap_remove scratch i =
    take (length scratch - 1) (set scratch i (get_or scratch (length scratch - 1) 0))

module _ {A : Type 0} (v : Virtual A) where
  -- A bucket has returned `sub_overflow`; with the next place in the scratch buffer.
  unfoldable pub settle : ℕ → ℕ × A → Spread A → ℕ × Spread A
  settle i (sub_overflow, b) s =
      let index = get_or s.scratch i 0 in
      if (if sub_overflow == 0 then false else true) || v.unsaturated b == 0
      then (
        i,
        record s {
          remaining = add_size s.remaining sub_overflow;
          scratch = swap_remove s.scratch i;
          buckets = set s.buckets index b;
        },
      )
      else (suc i, record s { buckets = set s.buckets index b })

  -- Each round takes a place off the ones that are left. An index is always that of a bucket.
  unfoldable pub hand_out : ℕ → ℕ → ℕ → Spread A → Spread A
  hand_out zero extra i s = s
  hand_out (suc left) extra i s = elim (bucket_at s.buckets (get_or s.scratch i 0)) [
    | none ↦ s
    | some b ↦
        let (next, t) = settle i (v.distribute_overflow b extra) s in hand_out left extra next t
  ]

  unfoldable pub count_unsaturated : List A → List ℕ → ℕ
  count_unsaturated bs [] = 0
  count_unsaturated bs (i ∷ scratch) =
      let rest = count_unsaturated bs scratch in
      elim (bucket_at bs i) [ none ↦ rest | some b ↦ v.unsaturated b + rest ]

  abbrev pub unsaturated_of : Spread A → ℕ
  unsaturated_of s = count_unsaturated s.buckets s.scratch

  unfoldable pub extra_tokens : Spread A → ℕ
  extra_tokens s = if unsaturated_of s == 0 then 0 else s.remaining / unsaturated_of s

  -- A round of the loop.
  unfoldable pub spread_once : Spread A → Spread A
  spread_once s = hand_out (length s.scratch) (extra_tokens s) 0 (record s {
    remaining = if unsaturated_of s == 0 then s.remaining else s.remaining % unsaturated_of s;
  })

  -- The loop, for so many rounds at most.
  unfoldable pub spread : ℕ → Spread A → Spread A
  spread zero s = s
  spread (suc rounds) s = elim (extra_tokens s == 0) [
    | true ↦ spread_once s
    | false ↦ spread rounds (spread_once s)
  ]

  -- The rounds that are enough: see `Rounds`.
  abbrev pub enough : List ℕ → ℕ
  enough scratch = suc (length scratch) * size_mod

  -- Behind the loop, for the overflow and the part of it that could be used.
  unfoldable pub keep_rest : LimiterData → ℕ → ℕ → Spread A → ℕ × Limiter A
  keep_rest d overflow usable s =
      let d : LimiterData = record d { unsaturated_ = unsaturated_of s } in
      if ltb s.remaining usable
      then (
        sub_size (add_size s.remaining overflow) usable,
        record {
          data_ = record d {
            unused_capacity_ = sub_size d.unused_capacity_ (sub_size usable s.remaining);
            overflow_ = 0;
          };
          scratch_buffer_ = s.scratch;
          buckets_ = s.buckets;
        },
      )
      else (
        overflow,
        record {
          data_ = record d { overflow_ = sub_size s.remaining usable };
          scratch_buffer_ = s.scratch;
          buckets_ = s.buckets;
        },
      )

  unfoldable pub usable_overflow : LimiterData → ℕ → ℕ
  usable_overflow d overflow =
      if d.unused_capacity_ == unlimited then overflow else min overflow d.unused_capacity_

  unfoldable pub start : Limiter A → ℕ → Spread A
  start l overflow = record {
    scratch = l.scratch_buffer_;
    buckets = l.buckets_;
    remaining = add_size l.data_.overflow_ (usable_overflow l.data_ overflow);
  }

  unfoldable pub distribute_overflow : Limiter A → ℕ → ℕ × Limiter A
  distribute_overflow l overflow =
      keep_rest l.data_ overflow (usable_overflow l.data_ overflow)
        (spread (enough l.scratch_buffer_) (start l overflow))
