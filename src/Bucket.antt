-- ===== src/Bucket.antt =====
-- The class `bucket` of lib/rate_limiter.cpp and lib/libfilezilla/rate_limiter.hpp: one direction of a
-- token bucket. `rate::type` has 64 bits, as size_t.
pub mod Tokens
pub mod Wakeup
mod Tests
use lfz.Prelude.{
  ℕ, ◌/◌, Bool, true, false, ◌&&◌, ◌∷◌, ltb, ◌==◌, if◌then◌else◌, min, Option, none, some,
}
use lfz.Memory.{add_size, sub_size, mul_size, size_max}

-- `rate::unlimited`.
abbrev pub unlimited : ℕ
unlimited = size_max

pub record BucketData : Type 0 where
  pub available_ : ℕ
  pub overflow_multiplier_ : ℕ
  pub bucket_size_ : ℕ
  pub waiting_ : Bool
  pub unsaturated_ : Bool

-- `data_t{}`.
abbrev pub empty_data : BucketData
empty_data = record {
  available_ = unlimited;
  overflow_multiplier_ = 1;
  bucket_size_ = unlimited;
  waiting_ = false;
  unsaturated_ = false;
}

-- An unsaturated bucket that cannot take the tokens is doubled, up to a bound; with the capacity.
unfoldable pub grow : BucketData → ℕ → ℕ → ℕ × BucketData
grow d capacity tokens =
    if ltb capacity tokens && d.unsaturated_
    then (if ltb d.overflow_multiplier_ 0x100000
        then (
          add_size capacity d.bucket_size_,
          record d {
            unsaturated_ = false;
            bucket_size_ = mul_size d.bucket_size_ 2;
            overflow_multiplier_ = mul_size d.overflow_multiplier_ 2;
          },
        )
        else (capacity, record d { unsaturated_ = false }))
    else (capacity, d)

-- What does not fit is returned.
unfoldable pub take_tokens : ℕ → ℕ × BucketData → ℕ × BucketData
take_tokens tokens (capacity, d) = (
  sub_size tokens (min tokens capacity),
  record d { available_ = add_size d.available_ (min tokens capacity) },
)

unfoldable pub distribute_overflow : BucketData → ℕ → ℕ × BucketData
distribute_overflow d tokens =
    if d.available_ == unlimited
    then (0, d)
    else take_tokens tokens (grow d (sub_size d.bucket_size_ d.available_) tokens)

-- The size for a limit; the tolerance is that of the manager, where there is one.
unfoldable pub size_for : Option ℕ → ℕ → ℕ → ℕ
size_for none limit multiplier = mul_size limit multiplier
size_for (some tolerance) limit multiplier = mul_size (mul_size limit multiplier) tolerance

-- `add_tokens` behind the assignments of `bucket_size_`.
unfoldable pub add_limited : BucketData → ℕ → ℕ × BucketData
add_limited d tokens =
    if d.available_ == unlimited
    then (0, record d { available_ = tokens })
    else if ltb d.bucket_size_ d.available_
    then (tokens, record d { available_ = d.bucket_size_ })
    else take_tokens tokens (grow d (sub_size d.bucket_size_ d.available_) tokens)

unfoldable pub add_tokens : Option ℕ → BucketData → ℕ → ℕ → ℕ × BucketData
add_tokens tolerance d tokens limit =
    if limit == unlimited
    then (0, record d { bucket_size_ = unlimited; available_ = unlimited })
    else add_limited (record d { bucket_size_ = size_for tolerance limit d.overflow_multiplier_ })
        tokens

-- Whether the consumer is woken up, and the data then.
unfoldable pub unlock_tree : BucketData → Bool × BucketData
unlock_tree d =
    if d.waiting_ && (if d.available_ == 0 then false else true)
    then (true, record d { waiting_ = false })
    else (false, d)

-- With `active`.
unfoldable pub update_stats : BucketData → Bool → Bool × BucketData
update_stats d active =
    if d.bucket_size_ == unlimited
    then (active, record d { overflow_multiplier_ = 1 })
    else if ltb (d.bucket_size_ / 2) d.available_ && ltb 1 d.overflow_multiplier_
    then (active, record d { overflow_multiplier_ = d.overflow_multiplier_ / 2 })
    else (if d.waiting_ then true else active, record d { unsaturated_ = d.waiting_ })

-- What `available` returns, and the data then.
unfoldable pub available : BucketData → ℕ × BucketData
available d = (d.available_, if d.available_ == 0 then record d { waiting_ = true } else d)

unfoldable pub consume : BucketData → ℕ → BucketData
consume d amount =
    if amount == 0
    then d
    else if d.available_ == unlimited
    then d
    else if ltb amount d.available_
    then record d { available_ = sub_size d.available_ amount }
    else record d { available_ = 0 }

-- The tokens that are left, and the data then.
unfoldable pub gather_unspent : BucketData → ℕ × BucketData
gather_unspent d =
    if d.available_ == unlimited then (0, d) else (d.available_, record d { available_ = 0 })
