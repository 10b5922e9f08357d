-- ===== src/Bucket/Wakeup.antt =====
-- The consumers that wait for a bucket of lib/rate_limiter.cpp.
use lfz.Prelude.{ℕ, ◌<◌, ◌≡◌, ◌^◌, arith, true}
use lfz.Bucket.{BucketData, grow, take_tokens, distribute_overflow, available, unlock_tree}
use lfz.Bucket.Tokens.{IsLimited}

-- Where `available` returned 0 on a limited bucket of a size above 0 and below 2 ^ 62, and tokens are
-- then handed to it as overflow, the next unlock_tree wakes the consumer up, and the bucket has
-- tokens.
pub empty-unlock_tree :
    (d : BucketData) (tokens : ℕ)
    → IsLimited d
    → (available d).0 ≡ 0
    → 0 < tokens
    → tokens < 2 ^ 64
    → 0 < d.bucket_size_
    → let after = (distribute_overflow (available d).1 tokens).1 in
      ((unlock_tree after).0 ≡ true) × (0 < (unlock_tree after).1.available_)
unfolding available distribute_overflow grow take_tokens unlock_tree
empty-unlock_tree d tokens limited none some h size = ground arith

-- Behind unlock_tree, a bucket that is still waited for has no tokens.
pub unlock_tree-waiting :
    (d : BucketData) → (unlock_tree d).1.waiting_ ≡ true → (unlock_tree d).1.available_ ≡ 0
unfolding unlock_tree
unlock_tree-waiting d h = ground arith
