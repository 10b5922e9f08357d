-- ===== src/Limiter/Tree.antt =====
-- Trees of the limiters and buckets of lib/rate_limiter.cpp, by their depth, and `process` of
-- rate_limit_manager on them.
use lfz.Prelude.{ℕ, zero, suc, Bool, false, if◌then◌else◌, Option, ◌⊎◌, inl, inr}
use lfz.Bucket.{BucketData, unlimited}
use lfz.Bucket
use lfz.Limiter.{Virtual, Limiter}
use lfz.Limiter
use lfz.Limiter.Overflow

-- A bucket, which may use the tolerance of the manager.
abbrev pub bucket : Option ℕ → Virtual BucketData
bucket tolerance = record {
  update_stats = Bucket.update_stats;
  weight = λ d. 1;
  unsaturated = λ d. if d.unsaturated_ then 1 else 0;
  add_tokens = Bucket.add_tokens tolerance;
  distribute_overflow = Bucket.distribute_overflow;
  gather_unspent = Bucket.gather_unspent;
}

abbrev pub limiter : {A : Type 0} → Virtual A → Virtual (Limiter A)
limiter v = record {
  update_stats = Limiter.update_stats v;
  weight = λ l. l.data_.weight_;
  unsaturated = Limiter.unsaturated v;
  add_tokens = Limiter.add_tokens v;
  distribute_overflow = Overflow.distribute_overflow v;
  gather_unspent = Limiter.gather_unspent v;
}

abbrev pub either : {A B : Type 0} → Virtual A → Virtual B → Virtual (A ⊎ B)
either v w = record {
  update_stats = λ x active. elim x [
    | inl a ↦ let (now, b) = v.update_stats a active in (now, inl b)
    | inr a ↦ let (now, b) = w.update_stats a active in (now, inr b)
  ];
  weight = λ x. elim x [ inl a ↦ v.weight a | inr a ↦ w.weight a ];
  unsaturated = λ x. elim x [ inl a ↦ v.unsaturated a | inr a ↦ w.unsaturated a ];
  add_tokens = λ x tokens limit. elim x [
    | inl a ↦ let (n, b) = v.add_tokens a tokens limit in (n, inl b)
    | inr a ↦ let (n, b) = w.add_tokens a tokens limit in (n, inr b)
  ];
  distribute_overflow = λ x tokens. elim x [
    | inl a ↦ let (n, b) = v.distribute_overflow a tokens in (n, inl b)
    | inr a ↦ let (n, b) = w.distribute_overflow a tokens in (n, inr b)
  ];
  gather_unspent = λ x. elim x [
    | inl a ↦ let (n, b) = v.gather_unspent a in (n, inl b)
    | inr a ↦ let (n, b) = w.gather_unspent a in (n, inr b)
  ];
}

-- What has so many limiters above each other at most.
abbrev pub Tree : ℕ → Type 0
Tree zero = BucketData
Tree (suc depth) = Limiter (Tree depth) ⊎ BucketData

abbrev pub tree : Option ℕ → (depth : ℕ) → Virtual (Tree depth)
tree tolerance zero = bucket tolerance
tree tolerance (suc depth) = either (limiter (tree tolerance depth)) (bucket tolerance)

-- `process`, for one direction; whether there was activity.
unfoldable pub process : {A : Type 0} → Virtual A → Limiter A → Bool × Limiter A
process v l =
    let (active, updated) = Limiter.update_stats v l false in
    let added = (Limiter.add_tokens v updated unlimited unlimited).1 in
    (active, (Overflow.distribute_overflow v added 0).1)
