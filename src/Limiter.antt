-- ===== src/Limiter.antt =====
-- The class `rate_limiter` of lib/rate_limiter.cpp: one direction of it, over the buckets and limiters that
-- it holds, which it uses by the virtual functions of `bucket_base`. Tokens have 64 bits; the numbers of
-- buckets, weights and unsaturated buckets, are not wrapped.
pub mod Overflow
pub mod Tree
pub mod Rounds
pub mod Limits
mod Tests
use lfz.Prelude.{
  ℕ, zero, suc, ◌+◌, ◌-◌, ◌*◌, ◌/◌, ◌%◌, Bool, true, false, ◌&&◌, List, [], ◌∷◌, ◌++◌, length, take,
  set, get_or, leb, ltb, ◌==◌, if◌then◌else◌, min, Option, none, some,
}
use lfz.Memory.{add_size, sub_size, mul_size}
use lfz.Bucket.{unlimited}

-- The virtual functions, on the state `A` of an object.
pub record Virtual (A : Type 0) : Type 0 where
  pub update_stats : A → Bool → Bool × A
  pub weight : A → ℕ
  pub unsaturated : A → ℕ
  pub add_tokens : A → ℕ → ℕ → ℕ × A
  pub distribute_overflow : A → ℕ → ℕ × A
  pub gather_unspent : A → ℕ × A

-- `data_t` of a limiter, with its `weight_`.
pub record LimiterData : Type 0 where
  pub limit_ : ℕ
  pub merged_tokens_ : ℕ
  pub overflow_ : ℕ
  pub debt_ : ℕ
  pub unused_capacity_ : ℕ
  pub carry_ : ℕ
  pub unsaturated_ : ℕ
  pub weight_ : ℕ

pub record Limiter (A : Type 0) : Type 0 where
  pub data_ : LimiterData
  pub scratch_buffer_ : List ℕ
  pub buckets_ : List A

abbrev pub frequency : ℕ
frequency = 5

abbrev pub at_least_one : ℕ → ℕ
at_least_one n = if n == 0 then 1 else n

unfoldable pub pay_debt : LimiterData → LimiterData
pay_debt d =
    let weight = at_least_one d.weight_ in
    let reduction = min d.merged_tokens_ (d.debt_ / weight) in
    if d.merged_tokens_ == unlimited then record d { debt_ = 0 } else record d {
      merged_tokens_ = sub_size d.merged_tokens_ reduction;
      debt_ = sub_size d.debt_ (mul_size reduction weight);
    }

-- Whether the limit changed, and the data then.
unfoldable pub do_set_limit : LimiterData → ℕ → Bool × LimiterData
do_set_limit d limit =
    if d.limit_ == limit
    then (false, d)
    else if limit == unlimited
    then (true, record d { limit_ = limit })
    else (
      true,
      record d {
        limit_ = limit;
        merged_tokens_ = min d.merged_tokens_ (limit / at_least_one d.weight_);
      },
    )

-- The limit for each weight, with what is carried over to the next time.
unfoldable pub merge_limit : LimiterData → ℕ → ℕ × LimiterData
merge_limit d limit =
    let sum = add_size d.carry_ d.limit_ in
    let merged = min (sum / d.weight_) limit in
    if d.limit_ == unlimited then (limit, d) else (
      merged,
      record d { carry_ = add_size (sum % d.weight_) (mul_size (merged % frequency) d.weight_) },
    )

-- The tokens for each weight; the debt is paid off them.
unfoldable pub merge_tokens : LimiterData → ℕ → ℕ → LimiterData
merge_tokens d merged_limit tokens =
    let merged = if merged_limit == unlimited then unlimited else merged_limit / frequency in
    pay_debt (record d {
      unused_capacity_ = 0;
      merged_tokens_ = if ltb tokens merged then tokens else merged;
    })

unfoldable pub set_unused : LimiterData → LimiterData
set_unused d =
    let used = mul_size (mul_size d.merged_tokens_ d.weight_) frequency in
    record d {
      unused_capacity_ =
          if d.limit_ == unlimited
          then unlimited
          else if ltb used d.limit_
          then sub_size d.limit_ used / frequency
          else 0;
    }

-- What the loop over the buckets gathers: the overflow, the scratch buffer and the buckets so far.
abbrev pub Gathered : Type 0 → Type 0
Gathered A = ℕ × List ℕ × List A

module _ {A : Type 0} (v : Virtual A) where
  -- Behind `add_tokens` of the bucket with an index.
  unfoldable pub gather_bucket : ℕ → ℕ × A → Gathered A → Gathered A
  gather_bucket i (overflow, b) (sum, scratch, done) =
      let (more, c) = v.distribute_overflow b 0 in
      if v.unsaturated b == 0
      then (add_size (add_size sum overflow) more, scratch, done ++ (c ∷ []))
      else (add_size sum overflow, scratch ++ (i ∷ []), done ++ (b ∷ []))

  unfoldable pub gather : ℕ → ℕ → ℕ → List A → Gathered A → Gathered A
  gather i tokens limit [] g = g
  gather i tokens limit (b ∷ bs) g =
      gather (suc i) tokens limit bs (gather_bucket i (v.add_tokens b tokens limit) g)

  unfoldable pub take_overflow : LimiterData → ℕ → LimiterData
  take_overflow d overflow = record d {
    overflow_ = overflow;
    unused_capacity_ =
        if leb d.unused_capacity_ overflow
        then 0
        else if d.unused_capacity_ == unlimited
        then unlimited
        else sub_size d.unused_capacity_ overflow;
  }

  unfoldable pub add_weighted : Limiter A → ℕ → ℕ → ℕ × Limiter A
  add_weighted l tokens limit =
      let (merged, carried) = merge_limit l.data_ limit in
      let d = set_unused (merge_tokens carried merged tokens) in
      let (overflow, scratch, buckets) = gather 0 d.merged_tokens_ merged l.buckets_ (0, [], []) in
      (
        if tokens == unlimited then 0 else mul_size (sub_size tokens d.merged_tokens_) d.weight_,
        record { data_ = take_overflow d overflow; scratch_buffer_ = scratch; buckets_ = buckets },
      )

  unfoldable pub add_tokens : Limiter A → ℕ → ℕ → ℕ × Limiter A
  add_tokens l tokens limit =
      let d = record l.data_ { overflow_ = 0 } in
      if d.weight_ == 0
      then (
        if tokens == unlimited then 0 else tokens,
        record l {
          scratch_buffer_ = [];
          data_ = pay_debt (record d { merged_tokens_ = min d.limit_ tokens });
        },
      )
      else add_weighted (record l { scratch_buffer_ = []; data_ = d }) tokens limit

  unfoldable pub unsaturated : Limiter A → ℕ
  unsaturated l = if l.data_.unused_capacity_ == 0 then 0 else l.data_.unsaturated_

  -- `active`, the weight, the unsaturated buckets and the buckets.
  unfoldable pub update_buckets : List A → Bool → Bool × ℕ × ℕ × List A
  update_buckets [] active = (active, 0, 0, [])
  update_buckets (b ∷ bs) active =
      let (now, c) = v.update_stats b active in
      let (last, w, u, cs) = update_buckets bs now in
      (last, v.weight c + w, v.unsaturated c + u, c ∷ cs)

  unfoldable pub update_stats : Limiter A → Bool → Bool × Limiter A
  update_stats l active =
      let (now, w, u, bs) = update_buckets l.buckets_ active in
      (now, record l { buckets_ = bs; data_ = record l.data_ { weight_ = w; unsaturated_ = u } })

  unfoldable pub gather_buckets : List A → ℕ × List A
  gather_buckets [] = (0, [])
  gather_buckets (b ∷ bs) =
      let (n, c) = v.gather_unspent b in
      let (rest, cs) = gather_buckets bs in (add_size n rest, c ∷ cs)

  unfoldable pub gather_unspent : Limiter A → ℕ × Limiter A
  gather_unspent l =
      let (n, bs) = gather_buckets l.buckets_ in
      let reduction = min n l.data_.debt_ in
      (
        sub_size n reduction,
        record l {
          buckets_ = bs;
          data_ = record l.data_ { debt_ = sub_size l.data_.debt_ reduction };
        },
      )

  -- `add`, for a bucket that has no parent; whether there was activity.
  unfoldable pub add : Limiter A → A → Bool × Limiter A
  add l b =
      let (active, c) = v.update_stats b false in
      let w = at_least_one (v.weight c) in
      let merged = l.data_.merged_tokens_ in
      let tokens = if merged == unlimited then unlimited else merged / (w * 2) in
      let given = (v.distribute_overflow (v.add_tokens c tokens tokens).1 0).1 in
      let debt = l.data_.debt_ in
      (
        active,
        record l {
          buckets_ = l.buckets_ ++ (given ∷ []);
          data_ = record l.data_ {
            weight_ = l.data_.weight_ + w;
            debt_ = if tokens == unlimited then debt else add_size debt (mul_size tokens w);
          };
        },
      )
