-- ===== src/Nonowning/Inv.antt =====
-- The invariant of a nonowning buffer, and how each operation of lib/nonowning_buffer.cpp changes its
-- contents.
use lfz.Prelude.{
  ℕ, ◌+◌, ◌*◌, ◌∷◌, append-nil, ◌≤◌, ◌<◌, ◌≡◌, refl, sym, ap, ◌∙◌, arith, length, Bool-cases,
}
use lfz.Prelude.{inl, inr, Bytes, take, drop, ◌++◌, [], overlay, length-overlay, ltb, false}
use lfz.Prelude.{window-overlay}
use lfz.Memory.{abort, size_mod, add_size, sub_size, Ensures, load_in_bounds, store_in_bounds}
use lfz.Memory.{◌>>=◌, length-window, Ensures-bind}
use lfz.Nonowning.{NonowningBuffer, compact, get, append, put}

-- The block is an object of C++, of less than 2 ^ 63 bytes.
pub record IsValid (b : NonowningBuffer) : Type 0 where
  pub block : length b.memory_ ≡ b.capacity_
  pub fits : b.start_ + b.size_ ≤ b.capacity_
  pub small : b.capacity_ * 2 < size_mod

abbrev pub contents : NonowningBuffer → Bytes
contents b = take b.size_ (drop b.start_ b.memory_)

pub length-contents : {b : NonowningBuffer} → IsValid b → length (contents b) ≡ b.size_
length-contents {b} v = length-window b.memory_ b.start_ b.size_ (omega (arith, v.fits, v.block))

-- Valid, with the same contents, and room for `n` more bytes behind them.
pub record Moved (b : NonowningBuffer) (n : ℕ) (b' : NonowningBuffer) : Type 0 where
  pub valid : IsValid b'
  pub same : contents b' ≡ contents b
  pub size : b'.size_ ≡ b.size_
  pub capacity : b'.capacity_ ≡ b.capacity_
  pub room : b'.start_ + b'.size_ + n ≤ b'.capacity_

pub compact-Moved :
    {b : NonowningBuffer} (n : ℕ)
    → IsValid b
    → b.size_ + n ≤ b.capacity_
    → Ensures (compact b) (Moved b n)
unfolding compact
compact-Moved {b} n v h =
    rw
      (
        load_in_bounds b.memory_ b.start_ b.size_ (omega (arith, v.fits, v.block)),
        store_in_bounds b.memory_ 0 (contents b)
            (omega (arith, length-contents v, v.fits, v.block)),
      )
      (record {
        valid = omega (
          arith,
          length-overlay b.memory_ 0 (contents b)
              (omega (arith, length-contents v, v.block, v.fits)),
          v.block,
          v.fits,
          v.small,
        );
        same =
            window-overlay b.memory_ 0 0 0 b.size_ (contents b) refl
              (omega (arith, length-contents v)) (omega (arith, length-contents v));
        size = refl;
        capacity = refl;
        room = omega (arith, h);
      })

pub get-Moved :
    {b : NonowningBuffer} (n : ℕ)
    → IsValid b
    → b.size_ + n ≤ b.capacity_
    → Ensures (get b n) (Moved b n)
unfolding get
get-Moved {b} n v h =
    let enough : ltb (sub_size b.capacity_ b.size_) n ≡ false =
      ground (arith, v.fits, v.small, h) in
    rw enough (elim (Bool-cases (ltb (sub_size b.capacity_ b.size_) (add_size n b.start_))) [
      | inl e ↦ rw e (compact-Moved n v h)
      | inr e ↦ rw e (record {
        valid = v;
        same = refl;
        size = refl;
        capacity = refl;
        room = ground (arith, e, v.fits, v.small, h);
      })
    ])

pub get_aborts :
    {b : NonowningBuffer} (n : ℕ) → IsValid b → b.capacity_ < b.size_ + n → get b n ≡ abort
unfolding get
get_aborts {b} n v h = ground (arith, v.fits, v.small, h)

pub record Appended (b : NonowningBuffer) (bs : Bytes) (b' : NonowningBuffer) : Type 0 where
  pub valid : IsValid b'
  pub grown : contents b' ≡ contents b ++ bs
  pub capacity : b'.capacity_ ≡ b.capacity_

put-Appended :
    {b b' : NonowningBuffer} (bs : Bytes)
    → Moved b (length bs) b'
    → Ensures (put bs b') (Appended b bs)
unfolding put
put-Appended {b} {b'} bs m =
    let at = b'.start_ + b'.size_ in
    let size : add_size b'.size_ (length bs) ≡ b'.size_ + length bs =
      omega (arith, m.room, m.valid.fits, m.valid.small) in
    rw (store_in_bounds b'.memory_ at bs (omega (arith, m.room, m.valid.block))) (record {
      valid = record {
        block =
            length-overlay b'.memory_ at bs (omega (arith, m.room, m.valid.block)) ∙ m.valid.block;
        fits = omega (arith, m.room, m.valid.small);
        small = m.valid.small;
      };
      grown =
          ap (λ k. take k (drop b'.start_ (overlay b'.memory_ at bs))) size
          ∙ window-overlay b'.memory_ b'.start_ b'.size_ at (b'.size_ + length bs) bs refl refl
              (omega (arith, m.room, m.valid.block))
          ∙ ap (λ t. t ++ bs) m.same;
      capacity = m.capacity;
    })

pub append-Appended :
    {b : NonowningBuffer} (bs : Bytes)
    → IsValid b
    → b.size_ + length bs ≤ b.capacity_
    → Ensures (append b bs) (Appended b bs)
unfolding append
append-Appended {b} [] v h = record {
  valid = v;
  grown = sym (append-nil (contents b));
  capacity = refl;
}
append-Appended {b} (x ∷ bs) v h =
    Ensures-bind (get b (length (x ∷ bs))) (put (x ∷ bs)) (Moved b (length (x ∷ bs)))
      (Appended b (x ∷ bs)) (get-Moved (length (x ∷ bs)) v h) (λ b' m. put-Appended (x ∷ bs) m)

pub append_aborts :
    {b : NonowningBuffer} (bs : Bytes)
    → IsValid b
    → b.capacity_ < b.size_ + length bs
    → append b bs ≡ abort
unfolding append
append_aborts {b} [] v h = absurd (omega (arith, v.fits, h))
append_aborts {b} (x ∷ bs) v h = ap (λ r. r >>= put (x ∷ bs)) (get_aborts (length (x ∷ bs)) v h)
