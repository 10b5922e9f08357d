-- ===== src/Nonowning.antt =====
-- The class `nonowning_buffer` of lib/nonowning_buffer.cpp over its block of memory.
pub mod Inv
pub mod Size
pub mod Refine
mod Tests
use lfz.Prelude.{ℕ, ◌-◌, ◌+◌, Bytes, [], length, ltb, ◌==◌, is_empty, if◌then◌else◌}
use lfz.Memory.{Result, ok, abort, ◌>>=◌, load, store, add_size, sub_size}

-- `memory_` are the bytes that `buffer_` points to; null is a block of no bytes.
pub record NonowningBuffer : Type 0 where
  pub memory_ : Bytes
  pub capacity_ : ℕ
  pub size_ : ℕ
  pub start_ : ℕ

-- The constructor with a size.
unfoldable pub make : Bytes → ℕ → Result NonowningBuffer
make memory size =
    if ltb (length memory) size
    then abort
    else ok (record { memory_ = memory; capacity_ = length memory; size_ = size; start_ = 0 })

-- `memmove(buffer_, buffer_ + start_, size_); start_ = 0;`
unfoldable pub compact : NonowningBuffer → Result NonowningBuffer
compact b = do
  bytes ← load b.memory_ b.start_ b.size_
  memory ← store b.memory_ 0 bytes
  ok (record b { memory_ = memory; start_ = 0 })

unfoldable pub resize : NonowningBuffer → ℕ → Result NonowningBuffer
resize b size =
    if size == 0
    then ok (record b { start_ = 0; size_ = 0 })
    else if ltb b.capacity_ size
    then abort
    else if ltb (sub_size b.capacity_ b.start_) size
    then (do moved ← compact b; ok (record moved { size_ = size }))
    else ok (record b { size_ = size })

-- The pointer that `get(bytes)` returns is `start_ + size_`.
unfoldable pub get : NonowningBuffer → ℕ → Result NonowningBuffer
get b bytes =
    if ltb (sub_size b.capacity_ b.size_) bytes
    then abort
    else if ltb (sub_size b.capacity_ b.size_) (add_size bytes b.start_)
    then compact b
    else ok b

unfoldable pub add : NonowningBuffer → ℕ → Result NonowningBuffer
add b bytes =
    if ltb (sub_size (sub_size b.capacity_ b.start_) b.size_) bytes
    then abort
    else ok (record b { size_ = add_size b.size_ bytes })

-- The first line of `consume`.
abbrev pub at_most : ℕ → ℕ → ℕ
at_most bytes size = if ltb size bytes then size else bytes

unfoldable pub consume : NonowningBuffer → ℕ → NonowningBuffer
consume b bytes =
    if b.size_ - at_most bytes b.size_ == 0 then record b { size_ = 0; start_ = 0 } else record b {
      size_ = b.size_ - at_most bytes b.size_;
      start_ = add_size b.start_ (at_most bytes b.size_);
    }

unfoldable pub reset : NonowningBuffer → NonowningBuffer
reset b = record { memory_ = []; capacity_ = 0; size_ = 0; start_ = 0 }

-- The copy and the new size in `append`.
unfoldable pub put : Bytes → NonowningBuffer → Result NonowningBuffer
put bytes b = do
  memory ← store b.memory_ (b.start_ + b.size_) bytes
  ok (record b { memory_ = memory; size_ = add_size b.size_ (length bytes) })

-- `append` of bytes that stand elsewhere; null are no bytes.
unfoldable pub append : NonowningBuffer → Bytes → Result NonowningBuffer
append b bytes = if is_empty bytes then ok b else get b (length bytes) >>= put bytes
