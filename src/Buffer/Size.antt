-- ===== src/Buffer/Size.antt =====
-- `consume`, `resize` and `append(len, c)` of lib/buffer.cpp against operations on the contents.
use lfz.Prelude.{
  ℕ, zero, suc, ◌+◌, ◌-◌, ◌≤◌, ◌<◌, ◌≡◌, refl, sym, ap, ◌∙◌, arith, length, Bool-cases, inl, inr,
  Bytes,
}
use lfz.Prelude.{
  overlay, length-overlay, ltb, ◌==◌, take, drop, ◌++◌, [], replicate, length-replicate, append-nil,
  window-take,
}
use lfz.Prelude.{drop-drop, drop-take, drop_all, take_all, lt→ltb, false}
use lfz.Memory.{ok, abort, size_mod, sub_size, Ensures, Ensures-bind, store_in_bounds}
use lfz.Buffer.{Buffer, get, consume, resize, append_fill, clear, add, free_tail}
use lfz.Memory.{store, ◌>>=◌}
use lfz.Buffer.Inv.{IsValid, contents, length-contents}
use lfz.Buffer.Room.{HasRoom, get-HasRoom}
use lfz.Buffer.Append.{Appended, overlay-Appended}

-- `consume(n)` of at most `size_` bytes removes exactly the first `n` bytes and keeps the buffer valid.
pub consume-drop :
    {b : Buffer} (n : ℕ)
    → IsValid b
    → n ≤ b.size_
    → Ensures (consume b n) (λ b'. IsValid b' × (contents b' ≡ drop n (contents b)))
unfolding consume
consume-drop {b} n v h = elim (Bool-cases (n == b.size_)) [
  | inl all ↦
      rw (within, all)
        (omega arith, sym (drop_all (contents b) n (ground (arith, length-contents v))))
  | inr part ↦
      rw (within, part)
        (
          omega arith,
          sym (
              drop-take (drop b.pos_ b.data_) n b.size_ (b.size_ - n) (omega arith)
              ∙ ap (take (b.size_ - n)) (drop-drop b.pos_ n (b.pos_ + n) b.data_ refl)),
        )
]
  where
    within : ltb b.size_ n ≡ false
    within = ground arith

-- `consume` of more than there is aborts.
pub consume_aborts : (b : Buffer) (n : ℕ) → b.size_ < n → consume b n ≡ abort
unfolding consume
consume_aborts b n h = rw (lt→ltb _ _ h)

-- `memset(get(n), c, n)` after room was made, with the size that follows.
fill_room :
    {b b' : Buffer} (n c k : ℕ)
    → HasRoom b n b'
    → k ≡ b.size_ + n
    → Ensures
        (store b'.data_ (b'.pos_ + b'.size_) (replicate n c) >>= λ d.
          ok (record b' { data_ = d; size_ = k }))
        (Appended b (replicate n c))
fill_room {b} {b'} n c k r e =
    let (valid, all) =
      overlay-Appended r.valid (replicate n c) n (length-replicate n c) k (omega arith) r.room in
    rw
      (store_in_bounds b'.data_ (b'.pos_ + b'.size_) (replicate n c)
        (omega (arith, length-replicate n c)))
      (valid, all ∙ ap (λ t. t ++ replicate n c) r.same)

add_in_room :
    {b : Buffer} (n : ℕ)
    → IsValid b
    → b.pos_ + b.size_ + n ≤ b.capacity_
    → add b n ≡ ok (record b { size_ = b.size_ + n })
unfolding add
add_in_room {b} n v room =
    let fits : ltb (free_tail b) n ≡ false = ground arith in
    rw fits (ap (λ k. ok (record b { size_ = k })) (omega arith))

resize_fewer :
    {b : Buffer} (n : ℕ)
    → IsValid b
    → n ≤ b.size_
    → take n (drop b.pos_ b.data_) ≡ take n (contents b) ++ replicate (n - b.size_) 0
resize_fewer {b} n v h = sym (
    ap (λ k. take n (contents b) ++ replicate k 0) e
    ∙ append-nil (take n (contents b))
    ∙ window-take (drop b.pos_ b.data_) b.size_ 0 n (omega arith))
  where
    e : n - b.size_ ≡ 0
    e = omega arith

resize_none : (b : Buffer) (n : ℕ) → n ≡ 0 → [] ≡ take n (contents b) ++ replicate (n - b.size_) 0
resize_none b zero e =
    let gone : 0 ≡ 0 - b.size_ = omega arith in ap (λ (k : ℕ). replicate k 0) gone
resize_none b (suc n) e = absurd (omega arith)

module _ (alloc : ℕ → Bytes) (alloc_length : (n : ℕ) → length (alloc n) ≡ n) where
  -- `append(n, c)` on a valid buffer whose capacity can grow by `n` adds `n` times the byte `c`.
  pub append_fill_lem :
      {b : Buffer} (n c : ℕ)
      → IsValid b
      → b.capacity_ + n < size_mod
      → Ensures
          (append_fill alloc b n c)
          (λ b'. IsValid b' × (contents b' ≡ contents b ++ replicate n c))
  unfolding append_fill
  append_fill_lem {b} n c v h =
      Ensures-bind (get alloc b n) _ _ _ (get-HasRoom alloc alloc_length n v h) λ b' r.
        let stretch = b'.pos_ + b'.size_ in
        let lens = length-replicate n c in
        let written =
          length-overlay b'.data_ stretch (replicate n c) (omega (arith, lens, r.room)) in
        let b'' : Buffer = record b' { data_ = overlay b'.data_ stretch (replicate n c) } in
        let v'' : IsValid b'' = omega (arith, written) in
        let (valid, all) =
          overlay-Appended r.valid (replicate n c) n lens (b'.size_ + n) refl r.room in
        rw
          (
            store_in_bounds b'.data_ stretch (replicate n c) (omega (arith, lens)),
            add_in_room n v'' r.room,
          )
          (valid, all ∙ ap (λ t. t ++ replicate n c) r.same)

  -- resize(n) on a valid buffer, where n and the capacity are together below 2 ^ 64, returns, keeps
  -- the buffer valid and the first n bytes, and fills up with zeros to n bytes.
  pub resize_lem :
      {b : Buffer} (n : ℕ)
      → IsValid b
      → b.capacity_ + n < size_mod
      → Ensures
          (resize alloc b n)
          (λ b'. IsValid b' × (contents b' ≡ take n (contents b) ++ replicate (n - b.size_) 0))
  unfolding resize clear
  resize_lem {b} n v h = elim (Bool-cases (n == 0)) [
    | inl gone ↦ rw gone (omega arith, resize_none b n (ground arith))
    | inr some_left ↦ elim (Bool-cases (ltb n b.size_)) [
      | inl shrink ↦ rw (some_left, shrink) (ground arith, resize_fewer n v (ground arith))
      | inr grow ↦
          let same : sub_size n b.size_ ≡ n - b.size_ = ground arith in
          let kept = take_all (contents b) n (ground (arith, length-contents v)) in
          rw (some_left, grow, same, kept)
            (Ensures-bind (get alloc b (n - b.size_)) _ _ _
              (get-HasRoom alloc alloc_length (n - b.size_) v (omega arith))
              (λ b' r. fill_room (n - b.size_) 0 n r (ground arith)))
    ]
  ]
