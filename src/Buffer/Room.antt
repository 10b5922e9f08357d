-- ===== src/Buffer/Room.antt =====
-- `buffer::get(write_size)` and `reserve` of lib/buffer.cpp.
use lfz.Prelude.{
  ℕ, ◌+◌, ◌≤◌, ◌<◌, ◌≡◌, refl, arith, Bytes, length, Bool-cases, inl, inr, ltb, leb, max, false,
}
use lfz.Memory.{size_mod, size_max, sub_size, Ensures}
use lfz.Buffer.{Buffer, free_tail, grown_capacity, get, reserve}
use lfz.Buffer.Inv.{
  IsValid, contents, compact-eq, move_to-eq, placed, placed-IsValid, contents-placed,
}

-- `b'` holds the bytes of `b`, and `n` more fit behind them.
pub record HasRoom (b : Buffer) (n : ℕ) (b' : Buffer) : Type 0 where
  pub valid : IsValid b'
  pub same : contents b' ≡ contents b
  pub size : b'.size_ ≡ b.size_
  pub room : b'.pos_ + b'.size_ + n ≤ b'.capacity_

pub grown_capacity_bounds :
    (b : Buffer) (n : ℕ)
    → b.capacity_ + n < size_mod
    → (b.capacity_ + n ≤ grown_capacity b n) × (grown_capacity b n < size_mod)
grown_capacity_bounds b n h = omega arith

pub placed-HasRoom :
    {b : Buffer} (v : IsValid b) (block : Bytes) (cap n : ℕ)
    → length block ≡ cap
    → b.size_ + n ≤ cap
    → cap < size_mod
    → HasRoom b n (placed block cap b)
placed-HasRoom v block cap n e fits small = record {
  valid = placed-IsValid v block cap e (omega arith) small;
  same = contents-placed v block cap e (omega arith);
  size = refl;
  room = omega arith;
}

pub not_aborted :
    (b : Buffer) (n : ℕ)
    → b.capacity_ + n < size_mod
    → ltb (sub_size size_max b.capacity_) n ≡ false
not_aborted b n h = ground arith

module _ (alloc : ℕ → Bytes) (alloc_length : (n : ℕ) → length (alloc n) ≡ n) where
  -- get(n) on a valid buffer, where n and the capacity are together below 2 ^ 64, returns, keeps the
  -- buffer valid and the contents the same, and gives n writable bytes behind them inside the block.
  pub get-HasRoom :
      {b : Buffer} (n : ℕ)
      → IsValid b
      → b.capacity_ + n < size_mod
      → Ensures (get alloc b n) (HasRoom b n)
  unfolding get
  get-HasRoom {b} n v h = elim (Bool-cases (ltb (free_tail b) n)) [
    | inr fits ↦ rw fits (record { valid = v; same = refl; size = refl; room = ground arith })
    | inl full ↦ elim (Bool-cases (ltb n (sub_size b.capacity_ b.size_))) [
      | inl slack ↦
          rw (full, slack, compact-eq v)
            (placed-HasRoom v b.data_ b.capacity_ n v.block (ground arith) v.small)
      | inr tight ↦
          let (enough, small) = grown_capacity_bounds b n h in
          rw
            (
              full,
              tight,
              not_aborted b n h,
              move_to-eq v (alloc (grown_capacity b n)) (grown_capacity b n) (alloc_length _)
                  (omega arith),
            )
            (placed-HasRoom v _ (grown_capacity b n) n (alloc_length _) (omega arith) small)
    ]
  ]

  -- `reserve(n)` on a valid buffer returns: the contents stay, and the capacity is at least `n`.
  pub reserve_lem :
      {b : Buffer} (n : ℕ)
      → IsValid b
      → n < size_mod
      → Ensures
          (reserve alloc b n)
          (λ b'. IsValid b' × (contents b' ≡ contents b) × (n ≤ b'.capacity_))
  unfolding reserve
  reserve_lem {b} n v h = elim (Bool-cases (leb n b.capacity_)) [
    | inl fits ↦ rw fits (v, refl, ground arith)
    | inr small ↦
        let fits : b.size_ + 0 ≤ max 1024 n = ground arith in
        let big : max 1024 n < size_mod = omega arith in
        let r = placed-HasRoom v (alloc (max 1024 n)) (max 1024 n) 0 (alloc_length _) fits big in
        rw (small, move_to-eq v (alloc (max 1024 n)) (max 1024 n) (alloc_length _) (omega arith))
          (r.valid, r.same, omega arith)
  ]
