-- ===== src/Bucket/Tests.antt =====
-- The theorems on buckets at concrete buckets.
use lfz.Prelude.{◌<◌, ◌≡◌, refl, arith, true, false}
use lfz.Bucket.{BucketData, distribute_overflow, available, unlock_tree}
use lfz.Bucket.Tokens.{Conserves, distribute_overflow-Conserves}
use lfz.Bucket.Wakeup.{empty-unlock_tree}

-- A bucket of ten that holds six, unsaturated.
abbrev sample : BucketData
sample = record {
  available_ = 6;
  overflow_multiplier_ = 1;
  bucket_size_ = 10;
  waiting_ = false;
  unsaturated_ = true;
}

abbrev drained : BucketData
drained = record sample { available_ = 0 }

distribute_overflow-Conserves_example : Conserves sample 9 (distribute_overflow sample 9)
distribute_overflow-Conserves_example =
    distribute_overflow-Conserves sample 9 (omega arith) (omega arith)

empty-unlock_tree_example :
    ((unlock_tree (distribute_overflow (available drained).1 3).1).0 ≡ true)
    × (0 < (unlock_tree (distribute_overflow (available drained).1 3).1).1.available_)
unfolding available
empty-unlock_tree_example =
    empty-unlock_tree drained 3 (omega arith) refl (omega arith) (omega arith) (omega arith)
