-- ===== src/Nonowning/Size.antt =====
-- `consume` and `resize` of lib/nonowning_buffer.cpp against operations on the contents.
use lfz.Prelude.{
  ℕ, ◌+◌, ◌-◌, take_swap, ◌≤◌, ◌<◌, ◌≡◌, refl, sym, ap, ◌∙◌, arith, length, Bool-cases,
}
use lfz.Prelude.{inl, inr, take, drop, ltb, ◌==◌, true, false}
use lfz.Prelude.{drop-drop, drop-take, drop_all}
use lfz.Memory.{ok, abort, add_size, sub_size, Ensures}
use lfz.Memory.{length-window, Ensures-bind}
use lfz.Nonowning.{NonowningBuffer, compact, resize, consume, at_most}
use lfz.Nonowning.Inv.{IsValid, contents, length-contents, Moved, compact-Moved}

pub record Consumed (b : NonowningBuffer) (n : ℕ) (b' : NonowningBuffer) : Type 0 where
  pub valid : IsValid b'
  pub shrunk : contents b' ≡ drop n (contents b)
  pub capacity : b'.capacity_ ≡ b.capacity_

consume_some :
    {b : NonowningBuffer} (n : ℕ)
    → IsValid b
    → n < b.size_
    → Consumed b n (record b { size_ = b.size_ - n; start_ = add_size b.start_ n })
consume_some {b} n v h =
    let at : add_size b.start_ n ≡ b.start_ + n = omega (arith, v.fits, v.small, h) in
    record {
      valid = omega (arith, v.block, v.fits, v.small, h);
      shrunk =
          ap (λ k. take (b.size_ - n) (drop k b.memory_)) at
          ∙ sym (
              drop-take (drop b.start_ b.memory_) n b.size_ (b.size_ - n) (omega (arith, h))
              ∙ ap (take (b.size_ - n)) (drop-drop b.start_ n (b.start_ + n) b.memory_ refl));
      capacity = refl;
    }

pub consume-Consumed : {b : NonowningBuffer} (n : ℕ) → IsValid b → Consumed b n (consume b n)
unfolding consume
consume-Consumed {b} n v = elim (Bool-cases (ltb n b.size_)) [
  | inl e ↦
      let k : at_most n b.size_ ≡ n = ground (arith, e) in
      let some_left : (b.size_ - n == 0) ≡ false = ground (arith, e) in
      rw (k, some_left) (consume_some n v (ground (arith, e)))
  | inr e ↦
      let none_left : (b.size_ - at_most n b.size_ == 0) ≡ true = ground (arith, e) in
      rw none_left (record {
        valid = omega (arith, v.block, v.small);
        shrunk = sym (drop_all (contents b) n (ground (arith, e, length-contents v)));
        capacity = refl;
      })
]

pub record Resized (b : NonowningBuffer) (n : ℕ) (b' : NonowningBuffer) : Type 0 where
  pub valid : IsValid b'
  pub size : length (contents b') ≡ n
  pub kept : take (length (contents b)) (contents b') ≡ take n (contents b)
  pub capacity : b'.capacity_ ≡ b.capacity_

with_size-Resized :
    {b m : NonowningBuffer} (n k : ℕ)
    → IsValid b
    → Moved b k m
    → m.start_ + n ≤ m.capacity_
    → Resized b n (record m { size_ = n })
with_size-Resized {b} {m} n k v r room = record {
  valid = omega (arith, r.valid.block, r.valid.small, room);
  size = length-window m.memory_ m.start_ n (omega (arith, room, r.valid.block));
  kept =
      ap (λ l. take l (take n (drop m.start_ m.memory_))) (length-contents v ∙ sym r.size)
      ∙ take_swap m.size_ n (drop m.start_ m.memory_)
      ∙ ap (take n) r.same;
  capacity = r.capacity;
}

empty-Resized :
    {b : NonowningBuffer} (n : ℕ)
    → n ≡ 0
    → IsValid b
    → Resized b n (record b { start_ = 0; size_ = 0 })
empty-Resized {b} n e v = record {
  valid = omega (arith, v.block, v.small);
  size = sym e;
  kept = take_swap (length (contents b)) 0 b.memory_ ∙ ap (λ k. take k (contents b)) (sym e);
  capacity = refl;
}

pub resize-Resized :
    {b : NonowningBuffer} (n : ℕ) → IsValid b → n ≤ b.capacity_ → Ensures (resize b n) (Resized b n)
unfolding resize
resize-Resized {b} n v h = elim (Bool-cases (n == 0)) [
  | inl e ↦ rw e (empty-Resized n (ground (arith, e)) v)
  | inr e ↦
      let fits : ltb b.capacity_ n ≡ false = ground (arith, h) in
      rw (e, fits)
        (elim (Bool-cases (ltb (sub_size b.capacity_ b.start_) n)) [
          | inl f ↦
              let larger : b.size_ ≤ n = ground (arith, f, v.fits, v.small) in
              rw f (
                Ensures-bind (compact b) (λ m. ok (record m { size_ = n })) (Moved b (n - b.size_))
                  (Resized b n) (compact-Moved (n - b.size_) v (omega (arith, h, larger)))
                  (λ m r.
                    with_size-Resized n (n - b.size_) v r (omega (arith, r.room, r.size, larger))))
          | inr f ↦ rw f (
              with_size-Resized n 0 v
                (record {
                  valid = v;
                  same = refl;
                  size = refl;
                  capacity = refl;
                  room = omega (arith, v.fits);
                })
                (ground (arith, f, v.fits, v.small)))
        ])
]

pub resize_aborts : {b : NonowningBuffer} (n : ℕ) → IsValid b → b.capacity_ < n → resize b n ≡ abort
unfolding resize
resize_aborts {b} n v h = ground (arith, h)
