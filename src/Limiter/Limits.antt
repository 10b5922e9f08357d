-- ===== src/Limiter/Limits.antt =====
-- What `rate_limiter::add_tokens` of lib/rate_limiter.cpp gives each weight, against the limits.
use lfz.Prelude.{
  ℕ, ◌+◌, ◌-◌, ◌*◌, ◌/◌, ◌≤◌, ◌<◌, ◌≡◌, refl, ◌∙◌, sym, ap, arith, false, min, ltb, ◌==◌,
  if◌then◌else◌,
}
use native.Mathlib.Nat.{add-mul, sub-add_cancel, div-le_self, div-mul-le_self, mul-le-mul_right}
use lfz.Memory.{add_size, sub_size, mul_size, size_mod}
use lfz.Bucket.{unlimited}
use lfz.Limiter.{
  Virtual, LimiterData, Limiter, frequency, pay_debt, merge_limit, merge_tokens, set_unused,
  take_overflow, add_weighted, add_tokens,
}

pay_debt-le :
    (d : LimiterData) → d.merged_tokens_ < size_mod → (pay_debt d).merged_tokens_ ≤ d.merged_tokens_
unfolding pay_debt
pay_debt-le d h = ground (arith, h)

-- Before the debt is paid.
abbrev merged_of : ℕ → ℕ → ℕ
merged_of merged_limit tokens =
    let merged = if merged_limit == unlimited then unlimited else merged_limit / frequency in
    if ltb tokens merged then tokens else merged

merged_of-le :
    (merged_limit tokens : ℕ)
    → merged_limit < unlimited
    → (merged_of merged_limit tokens ≤ tokens)
      × (merged_of merged_limit tokens * frequency ≤ merged_limit)
merged_of-le merged_limit tokens h = (ground (arith, h), ground (arith, h))

merge_tokens-le :
    (d : LimiterData) (merged_limit tokens : ℕ)
    → tokens < size_mod
    → merged_limit < unlimited
    → ((merge_tokens d merged_limit tokens).merged_tokens_ ≤ tokens)
      × ((merge_tokens d merged_limit tokens).merged_tokens_ * frequency ≤ merged_limit)
unfolding merge_tokens
merge_tokens-le d merged_limit tokens small h =
    let (given, limited) = merged_of-le merged_limit tokens h in
    let paid =
      pay_debt-le
        (record d { unused_capacity_ = 0; merged_tokens_ = merged_of merged_limit tokens })
        (omega (arith, given, small)) in
    (omega (arith, paid, given), omega (arith, paid, limited))

merge_limit-le :
    (d : LimiterData) (limit : ℕ)
    → d.limit_ < unlimited
    → d.carry_ + d.limit_ < unlimited
    → 0 < d.weight_
    → ((merge_limit d limit).0 < unlimited)
      × ((merge_limit d limit).0 * d.weight_ ≤ d.carry_ + d.limit_)
unfolding merge_limit
merge_limit-le d limit limited small some_weight =
    let sum : add_size d.carry_ d.limit_ ≡ d.carry_ + d.limit_ = omega (arith, small) in
    let known : (d.limit_ == unlimited) ≡ false = ground (arith, limited) in
    let share = (d.carry_ + d.limit_) / d.weight_ in
    let whole = div-le_self (d.carry_ + d.limit_) d.weight_ in
    let weighted : min share limit * d.weight_ ≤ share * d.weight_ =
      mul-le-mul_right d.weight_ (omega arith) in
    rw (known, sum)
      (
        omega (arith, whole, small),
        omega (arith, weighted, div-mul-le_self (d.carry_ + d.limit_) d.weight_),
      )

-- The tokens for each weight are bounded by the parent's and, five times, by the limit and the carry.
abbrev pub Within : LimiterData → ℕ → ℕ × LimiterData → Type 0
Within before tokens (returned, d) =
    (d.merged_tokens_ ≤ tokens)
    × (d.merged_tokens_ * frequency * before.weight_ ≤ before.carry_ + before.limit_)
    × (returned + d.merged_tokens_ * before.weight_ ≡ tokens * before.weight_)

merged : {A : Type 0} → Virtual A → Limiter A → ℕ → ℕ → LimiterData
merged v l tokens limit =
    let d = record l.data_ { overflow_ = 0 } in
    merge_tokens (merge_limit d limit).1 (merge_limit d limit).0 tokens

add_weighted-merged :
    {A : Type 0} (v : Virtual A) (l : Limiter A) (tokens limit : ℕ)
    → 0 < l.data_.weight_
    → tokens < unlimited
    → ((add_tokens v l tokens limit).1.data_.merged_tokens_
        ≡ (merged v l tokens limit).merged_tokens_)
      × ((add_tokens v l tokens limit).0
          ≡ mul_size
              (sub_size tokens (merged v l tokens limit).merged_tokens_)
              (merged v l tokens limit).weight_)
unfolding add_tokens add_weighted merged take_overflow set_unused
add_weighted-merged v l tokens limit some_weight small =
    let known : (l.data_.weight_ == 0) ≡ false = ground (arith, some_weight) in
    let given : (tokens == unlimited) ≡ false = ground (arith, small) in
    rw (known, given) (refl, refl)

pay_debt-weight_ : (d : LimiterData) → (pay_debt d).weight_ ≡ d.weight_
unfolding pay_debt
pay_debt-weight_ d = ground arith

merge_limit-weight_ : (d : LimiterData) (limit : ℕ) → (merge_limit d limit).1.weight_ ≡ d.weight_
unfolding merge_limit
merge_limit-weight_ d limit = ground arith

merged-weight_ :
    {A : Type 0} (v : Virtual A) (l : Limiter A) (tokens limit : ℕ)
    → (merged v l tokens limit).weight_ ≡ l.data_.weight_
unfolding merged merge_tokens
merged-weight_ v l tokens limit =
    pay_debt-weight_ _ ∙ merge_limit-weight_ (record l.data_ { overflow_ = 0 }) limit

-- What `mul_size` and `sub_size` give back of the tokens for all weights.
rest-sum :
    (tokens m w : ℕ)
    → m ≤ tokens
    → tokens < size_mod
    → tokens * w < size_mod
    → mul_size (sub_size tokens m) w + m * w ≡ tokens * w
rest-sum tokens m w h small bounded =
    let less : sub_size tokens m ≡ tokens - m = omega (arith, h, small) in
    let split : (tokens - m) * w + m * w ≡ tokens * w =
      sym (add-mul (tokens - m) m w) ∙ ap (λ x. x * w) (sub-add_cancel h) in
    rw less (omega (arith, split, bounded))

-- add_tokens, where the weight is not 0, the limit, the tokens and the sum of the limit and what was
-- carried over are below the unlimited value, and the tokens for all weights below 2 ^ 64, keeps the
-- tokens for each weight below those given, and five times those for all weights below the limit and
-- what was carried over; it returns what it was given for all weights less what it keeps for them.
pub add_tokens-Within :
    {A : Type 0} (v : Virtual A) (l : Limiter A) (tokens limit : ℕ)
    → 0 < l.data_.weight_
    → l.data_.limit_ < unlimited
    → l.data_.carry_ + l.data_.limit_ < unlimited
    → tokens < unlimited
    → tokens * l.data_.weight_ < size_mod
    → Within l.data_ tokens ((add_tokens v l tokens limit).0, (add_tokens v l tokens limit).1.data_)
unfolding merged
add_tokens-Within v l tokens limit some_weight limited carried small bounded =
    let d = record l.data_ { overflow_ = 0 } in
    let w = l.data_.weight_ in
    let (m, r) = add_weighted-merged v l tokens limit some_weight small in
    let (low, share) = merge_limit-le d limit limited carried some_weight in
    let (given, second) =
      merge_tokens-le (merge_limit d limit).1 (merge_limit d limit).0 tokens (omega (arith, small))
        low in
    let weighted = mul-le-mul_right w second in
    rw (m, r, merged-weight_ v l tokens limit)
      (
        given,
        omega (arith, weighted, share),
        rest-sum tokens _ w given (omega (arith, small)) bounded,
      )
