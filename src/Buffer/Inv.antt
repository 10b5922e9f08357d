-- ===== src/Buffer/Inv.antt =====
-- The invariants that buffer.hpp lists, the bytes that a buffer holds, and the two ways in which
-- lib/buffer.cpp moves them.
use lfz.Prelude.{
  ℕ, ◌+◌, ◌≤◌, ◌<◌, ◌≡◌, refl, arith, Bytes, length, take, drop, overlay, ap, [], ◌∷◌,
}
use lfz.Prelude.{length-overlay, window-overlay}
use lfz.Memory.{ok, size_mod, load, load_in_bounds, store_in_bounds, length-window}
use lfz.Buffer.{Buffer, empty_buffer, free_tail, compact, move_to, to_view}

-- `block`: the allocation has `capacity_` bytes. The others are the header's, over offsets.
pub record IsValid (b : Buffer) : Type 0 where
  pub block : length b.data_ ≡ b.capacity_
  pub in_block : b.pos_ + b.size_ ≤ b.capacity_
  pub small : b.capacity_ < size_mod

abbrev pub contents : Buffer → Bytes
contents b = take b.size_ (drop b.pos_ b.data_)

pub empty_buffer-IsValid : IsValid empty_buffer
empty_buffer-IsValid = omega arith

-- `capacity_ - (pos_ - data_) - size_` does not wrap.
pub free_tail_exact : {b : Buffer} → IsValid b → free_tail b + b.pos_ + b.size_ ≡ b.capacity_
free_tail_exact v = omega arith

pub length-contents : {b : Buffer} → IsValid b → length (contents b) ≡ b.size_
length-contents {b} v = length-window b.data_ b.pos_ b.size_ (omega arith)

pub load-contents : {b : Buffer} → IsValid b → load b.data_ b.pos_ b.size_ ≡ ok (contents b)
load-contents {b} v = load_in_bounds b.data_ b.pos_ b.size_ (omega arith)

pub contents_none : (b : Buffer) → b.size_ ≡ 0 → contents b ≡ []
contents_none b e = ap (λ k. take k (drop b.pos_ b.data_)) e

overlay_none : (block bs : Bytes) → bs ≡ [] → overlay block 0 bs ≡ block
overlay_none block [] e = refl
overlay_none block (x ∷ bs) e = cc

-- The buffer with its contents at the start of a block.
abbrev pub placed : Bytes → ℕ → Buffer → Buffer
placed block cap b = record b { data_ = overlay block 0 (contents b); pos_ = 0; capacity_ = cap }

module _ {b : Buffer} (v : IsValid b) (block : Bytes) (cap : ℕ) where
  pub placed-IsValid :
      length block ≡ cap → b.size_ ≤ cap → cap < size_mod → IsValid (placed block cap b)
  placed-IsValid e fits small =
      omega (arith, length-overlay block 0 (contents b) (omega (arith, length-contents v)))

  pub contents-placed :
      length block ≡ cap → b.size_ ≤ cap → contents (placed block cap b) ≡ contents b
  contents-placed e fits =
      window-overlay block 0 0 0 b.size_ (contents b) refl (omega (arith, length-contents v))
        (omega (arith, length-contents v))

  pub move_to-eq :
      length block ≡ cap → b.size_ ≤ cap → move_to block cap b ≡ ok (placed block cap b)
  unfolding move_to
  move_to-eq e fits = ground (
    arith,
    overlay_none block (contents b),
    contents_none b,
    load-contents v,
    store_in_bounds block 0 (contents b) (omega (arith, length-contents v)),
  )

pub compact-eq : {b : Buffer} → IsValid b → compact b ≡ ok (placed b.data_ b.capacity_ b)
unfolding compact
compact-eq {b} v =
    rw (load-contents v, store_in_bounds b.data_ 0 (contents b) (omega (arith, length-contents v)))

-- `to_view` shows exactly the contents.
pub to_view-eq : {b : Buffer} → IsValid b → to_view b ≡ ok (contents b)
unfolding to_view
to_view-eq {b} v = ground (arith, contents_none b, load-contents v)
