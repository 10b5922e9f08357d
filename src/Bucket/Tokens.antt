-- ===== src/Bucket/Tokens.antt =====
-- The tokens that a bucket of lib/rate_limiter.cpp takes, keeps and hands back.
use lfz.Prelude.{ℕ, ◌+◌, ◌-◌, ◌≤◌, ◌<◌, ◌≡◌, ap, ◌∙◌, arith, ◌⊎◌, Option, ◌^◌}
use lfz.Bucket.{
  BucketData, unlimited, grow, take_tokens, distribute_overflow, add_limited, add_tokens,
}
use lfz.Bucket.{consume, size_for}

-- A limited bucket that holds what fits, and can be doubled in 64 bits.
abbrev pub IsLimited : BucketData → Type 0
IsLimited d = (d.available_ ≤ d.bucket_size_) × (d.bucket_size_ < 2 ^ 62)

-- What a bucket keeps and what it hands back is what it had and what it got, and it stays full at
-- most.
abbrev pub Conserves : BucketData → ℕ → ℕ × BucketData → Type 0
Conserves d tokens (returned, d') =
    (d'.available_ + returned ≡ d.available_ + tokens)
    × (d'.available_ ≤ d'.bucket_size_)
    × (d.bucket_size_ ≤ d'.bucket_size_)

-- A limited bucket, of less than 2 ^ 62, that gets overflow keeps or hands back all of it, holds at
-- most its size, and does not shrink.
pub distribute_overflow-Conserves :
    (d : BucketData) (tokens : ℕ)
    → IsLimited d
    → tokens < 2 ^ 64
    → Conserves d tokens (distribute_overflow d tokens)
unfolding distribute_overflow grow take_tokens
distribute_overflow-Conserves d tokens (fits, small) h = ground arith

-- What `add_tokens` does with tokens: as above, or it cuts a bucket that holds more than its new
-- size and hands all tokens back.
abbrev pub Adds : BucketData → ℕ → ℕ → ℕ × BucketData → Type 0
Adds d tokens size (returned, d') =
    (d'.available_ ≤ d'.bucket_size_)
    × ((d'.available_ + returned ≡ d.available_ + tokens)
        ⊎ ((size < d.available_) × (d'.available_ ≡ size) × (returned ≡ tokens)))

-- `add_tokens` with a limit, on a bucket with a limit, for a new size below 2 ^ 62: all tokens are
-- kept or handed back, or a bucket that holds more than its new size is cut to it and all tokens
-- are handed back; it holds at most its size.
pub add_tokens-Adds :
    (tolerance : Option ℕ) (d : BucketData) (tokens limit : ℕ)
    → d.available_ < unlimited
    → limit < unlimited
    → tokens < 2 ^ 64
    → size_for tolerance limit d.overflow_multiplier_ < 2 ^ 62
    → Adds d tokens
        (size_for tolerance limit d.overflow_multiplier_)
        (add_tokens tolerance d tokens limit)
unfolding add_tokens add_limited grow take_tokens
add_tokens-Adds tolerance d tokens limit limited bounded h small = ground arith

consume_available :
    (d : BucketData) (a : ℕ)
    → d.available_ < unlimited
    → (consume d a).available_ ≡ d.available_ - a
unfolding consume
consume_available d a h = ground arith

consume_keeps :
    (d : BucketData) (a : ℕ) → consume d a ≡ record d { available_ = (consume d a).available_ }
unfolding consume
consume_keeps d a = ground arith

consume_lem :
    (d : BucketData) (a : ℕ)
    → d.available_ < unlimited
    → consume d a ≡ record d { available_ = d.available_ - a }
consume_lem d a h =
    consume_keeps d a ∙ ap (λ n. record d { available_ = n }) (consume_available d a h)

-- From a bucket with a limit, consuming in two steps is consuming at once, and stops at 0.
pub consume-consume :
    (d : BucketData) (a b : ℕ)
    → d.available_ < unlimited
    → (consume (consume d a) b ≡ consume d (a + b)) × ((consume d a).available_ ≡ d.available_ - a)
consume-consume d a b h =
    let rest : d.available_ - a - b ≡ d.available_ - (a + b) = omega arith in
    (
      rw (consume_lem d a h, consume_lem d (a + b) h)
          (consume_lem (record d { available_ = d.available_ - a }) b (omega arith)
            ∙ ap (λ n. record d { available_ = n }) rest),
      consume_available d a h,
    )
