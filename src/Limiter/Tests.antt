-- ===== src/Limiter/Tests.antt =====
-- Limiters and their trees at concrete states.
use lfz.Prelude.{ℕ, ◌-◌, ◌≡◌, refl, arith, true, [], ◌∷◌, none}
use lfz.Bucket.{BucketData, unlimited, grow, take_tokens}
use lfz.Bucket
use lfz.Limiter.{LimiterData, Limiter, add_tokens, unsaturated}
use lfz.Limiter.Overflow.{
  start, spread, enough, spread_once, hand_out, settle, swap_remove, bucket_at,
}
use lfz.Limiter.Overflow.{
  distribute_overflow, keep_rest, usable_overflow, extra_tokens, count_unsaturated,
}
use lfz.Limiter.Tree.{bucket, limiter}
use lfz.Limiter.Rounds.{Loop, start-Loop}
use lfz.Limiter.Limits.{Within, add_tokens-Within}

-- A bucket that waits for tokens.
abbrev hungry : ℕ → BucketData
hungry n = record {
  available_ = n;
  overflow_multiplier_ = 1;
  bucket_size_ = 100;
  waiting_ = true;
  unsaturated_ = true;
}

abbrev data_with : ℕ → ℕ → ℕ → LimiterData
data_with limit overflow weight = record {
  limit_ = limit;
  merged_tokens_ = 0;
  overflow_ = overflow;
  debt_ = 0;
  unused_capacity_ = unlimited;
  carry_ = 0;
  unsaturated_ = weight;
  weight_ = weight;
}

abbrev three : ℕ → Limiter BucketData
three n = record {
  data_ = data_with unlimited 0 3;
  scratch_buffer_ = 0 ∷ 1 ∷ 2 ∷ [];
  buckets_ = hungry n ∷ hungry n ∷ hungry n ∷ [];
}

abbrev two_limited : Limiter BucketData
two_limited = record {
  data_ = data_with 103 0 2;
  scratch_buffer_ = [];
  buckets_ = hungry 0 ∷ hungry 0 ∷ [];
}

start-Loop_example :
    Loop (bucket none) (start (bucket none) (three 0) 9) (
      spread
        (bucket none)
        (enough (bucket none) (0 ∷ 1 ∷ 2 ∷ []))
        (start (bucket none) (three 0) 9))
start-Loop_example = start-Loop (bucket none) (three 0) 9

add_tokens-Within_example : Within (data_with 103 0 2) 1000 (
  (add_tokens (bucket none) two_limited 1000 2000).0,
  (add_tokens (bucket none) two_limited 1000 2000).1.data_,
)
add_tokens-Within_example =
    add_tokens-Within (bucket none) two_limited 1000 2000 (omega arith) (omega arith) (omega arith)
      (omega arith) (omega arith)

-- A limiter above one other, with nine tokens of overflow.
abbrev above : Limiter (Limiter BucketData)
above = record {
  data_ = data_with unlimited 9 3;
  scratch_buffer_ = 0 ∷ [];
  buckets_ = three 0 ∷ [];
}

-- The capacity of the lower one is counted down although it is unlimited.
abbrev fed : LimiterData
fed = record (data_with unlimited 0 3) { unused_capacity_ = unlimited - 3 }

-- Three of the nine tokens reach the buckets, and none is left over.
lost : distribute_overflow (limiter (bucket none)) above 0 ≡ (
  0,
  record {
    data_ = data_with unlimited 0 3;
    scratch_buffer_ = 0 ∷ [];
    buckets_ = record (three 1) { data_ = fed } ∷ [];
  },
)
unfolding distribute_overflow start spread spread_once hand_out settle swap_remove bucket_at
    keep_rest usable_overflow extra_tokens count_unsaturated unsaturated Bucket.distribute_overflow
    grow take_tokens
lost = refl
