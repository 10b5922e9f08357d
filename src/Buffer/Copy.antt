-- ===== src/Buffer/Copy.antt =====
-- Copies of a buffer and its comparison, lib/buffer.cpp.
use lfz.Prelude.{ℕ, ◌≤◌, ◌<◌, ◌≡◌, ◌↔◌, refl, ap, ◌∙◌, arith, length, true, false, Bool-cases}
use lfz.Prelude.{inl, inr, Bytes, [], ◌∷◌, ◌==◌, overlay}
use lfz.Memory.{ok, fault, ◌>>=◌, Ensures, load, store, store_in_bounds}
use lfz.Buffer.{Buffer, outside, copy, assign, equals, same_bytes, append}
use lfz.Buffer.{make_room, put}
use lfz.Buffer.Inv.{IsValid, contents, length-contents, load-contents, placed, placed-IsValid}
use lfz.Buffer.Inv.{contents-placed, empty_buffer-IsValid, contents_none}

-- A valid buffer of its own with the same bytes.
abbrev pub Copied : Buffer → Buffer → Type 0
Copied buf b' = IsValid b' × (contents b' ≡ contents buf)

module _ (alloc : ℕ → Bytes) (alloc_length : (n : ℕ) → length (alloc n) ≡ n) where
  placed-Copied :
      {buf : Buffer} (v : IsValid buf) → Copied buf (placed (alloc buf.capacity_) buf.capacity_ buf)
  placed-Copied {buf} v = (
    placed-IsValid v _ buf.capacity_ (alloc_length _) (omega arith) v.small,
    contents-placed v _ buf.capacity_ (alloc_length _) (omega arith),
  )

  store_copy :
      {buf : Buffer}
      → IsValid buf
      → store (alloc buf.capacity_) 0 (contents buf)
        ≡ ok (overlay (alloc buf.capacity_) 0 (contents buf))
  store_copy {buf} v =
      store_in_bounds _ 0 (contents buf)
        (omega (arith, length-contents v, alloc_length buf.capacity_))

  copy-Copied : {buf : Buffer} → IsValid buf → Ensures (copy alloc buf) (Copied buf)
  unfolding copy
  copy-Copied {buf} v = elim (Bool-cases (buf.size_ == 0)) [
    | inl none_left ↦ rw (none_left, contents_none buf (ground arith)) (empty_buffer-IsValid, refl)
    | inr some_left ↦ rw (some_left, load-contents v, store_copy v) (placed-Copied v)
  ]

  assign-Copied :
      (b : Buffer) {buf : Buffer}
      → IsValid buf
      → 0 < buf.size_
      → Ensures (assign alloc b buf) (Copied buf)
  unfolding assign
  assign-Copied b {buf} v h =
      let some_left : (buf.size_ == 0) ≡ false = ground arith in
      rw (some_left, load-contents v, store_copy v) (placed-Copied v)

  -- From a valid buffer that holds a byte at least, the copy constructor and copy assignment to any
  -- buffer both give a valid buffer with its bytes.
  pub copies-Copied :
      (b : Buffer) {buf : Buffer}
      → IsValid buf
      → 0 < buf.size_
      → Ensures (copy alloc buf) (Copied buf) × Ensures (assign alloc b buf) (Copied buf)
  copies-Copied b v h = (copy-Copied v, assign-Copied b v h)

  -- Copy assignment from a valid buffer that is empty but has a capacity takes the capacity without
  -- a block: to append bytes that fit that capacity then writes out of bounds.
  pub assign_empty_faults :
      (b buf : Buffer) (bs : Bytes)
      → IsValid buf
      → buf.size_ ≡ 0
      → 0 < length bs
      → length bs ≤ buf.capacity_
      → (assign alloc b buf >>= λ b'. append alloc b' (outside bs)) ≡ fault
  unfolding assign append make_room put store
  assign_empty_faults b buf bs v gone some_left fits = ground arith

same_bytes_iff : (xs ys : Bytes) → (same_bytes xs ys ≡ true) ↔ (xs ≡ ys)
same_bytes_iff [] [] = ground arith
same_bytes_iff [] (y ∷ ys) = ground arith
same_bytes_iff (x ∷ xs) [] = ground arith
same_bytes_iff (x ∷ xs) (y ∷ ys) = ground (arith, same_bytes_iff xs ys)

-- Comparison of valid buffers accesses nothing out of bounds, and holds exactly for equal contents.
pub equals_iff :
    {a b : Buffer}
    → IsValid a
    → IsValid b
    → Ensures (equals a b) (λ r. (r ≡ true) ↔ (contents a ≡ contents b))
unfolding equals
equals_iff {a} {b} va vb = elim (Bool-cases (a.size_ == b.size_)) [
  | inr differ ↦ rw differ (ground (arith, length-contents va, length-contents vb))
  | inl same ↦ elim (Bool-cases (a.size_ == 0)) [
    | inl none_left ↦
        rw (same, none_left, contents_none a (ground arith), contents_none b (ground arith))
          ((λ _. refl), (λ _. refl))
    | inr some_left ↦
        let eq : a.size_ ≡ b.size_ = ground arith in
        rw (same, some_left, load-contents va, ap (load b.data_ b.pos_) eq ∙ load-contents vb)
          (same_bytes_iff (contents a) (contents b))
  ]
]
