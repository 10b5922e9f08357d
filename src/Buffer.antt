-- ===== src/Buffer.antt =====
-- The functions of lib/buffer.cpp and lib/libfilezilla/buffer.hpp, over `data_` as a block of bytes
-- and `pos_` as an offset into it. A null `data_` is a block of no bytes.
pub mod Inv
pub mod Room
pub mod Append
pub mod Size
pub mod Copy
mod Tests
use lfz.Prelude.{ℕ, ◌+◌, ◌-◌, Bool, true, false, ◌&&◌, Bytes, [], ◌∷◌}
use lfz.Prelude.{length, replicate, max, ltb, leb, ◌==◌, if◌then◌else◌}
use lfz.Memory.{Result, ok, abort, ◌>>=◌, load, store, add_size, sub_size, mul_size, size_max}

pub record Buffer : Type 0 where
  pub data_ : Bytes
  pub pos_ : ℕ
  pub size_ : ℕ
  pub capacity_ : ℕ

-- `buffer() noexcept = default`.
abbrev pub empty_buffer : Buffer
empty_buffer = record { data_ = []; pos_ = 0; size_ = 0; capacity_ = 0 }

-- `capacity_ - (pos_ - data_) - size_`.
abbrev pub free_tail : Buffer → ℕ
free_tail b = sub_size (sub_size b.capacity_ b.pos_) b.size_

-- Where the bytes that `append` is given lie: elsewhere, or in the buffer's own block from an
-- offset on.
pub data Source : Type 0 where
  outside : Bytes → Source
  inside : ℕ → ℕ → Source

abbrev pub source_length : Source → ℕ
source_length (outside bs) = length bs
source_length (inside off n) = n

-- `if (data >= pos_ && data < (pos_ + size_)) data -= pos_ - data_`.
abbrev pub shift_source : Buffer → Source → Source
shift_source b (outside bs) = outside bs
shift_source b (inside off n) =
    if leb b.pos_ off && ltb off (b.pos_ + b.size_) then inside (off - b.pos_) n else inside off n

abbrev pub fetch : Bytes → Source → Result Bytes
fetch d (outside bs) = ok bs
fetch d (inside off n) = load d off n

-- `memmove(data_, pos_, size_); pos_ = data_`.
unfoldable pub compact : Buffer → Result Buffer
compact b = do
  bytes ← load b.data_ b.pos_ b.size_
  d ← store b.data_ 0 bytes
  ok (record b { data_ = d; pos_ = 0 })

-- The contents in a new block; the caller gives the block.
unfoldable pub move_to : Bytes → ℕ → Buffer → Result Buffer
move_to block cap b =
    if b.size_ == 0 then ok (record b { data_ = block; pos_ = 0; capacity_ = cap }) else do
      bytes ← load b.data_ b.pos_ b.size_
      d ← store block 0 bytes
      ok (record b { data_ = d; pos_ = 0; capacity_ = cap })

-- `max({1024, capacity_ * 2, capacity_ + n})`.
abbrev pub grown_capacity : Buffer → ℕ → ℕ
grown_capacity b n = max 1024 (max (mul_size b.capacity_ 2) (add_size b.capacity_ n))

unfoldable pub add : Buffer → ℕ → Result Buffer
add b n = if ltb (free_tail b) n then abort else ok (record b { size_ = add_size b.size_ n })

unfoldable pub consume : Buffer → ℕ → Result Buffer
consume b n =
    if ltb b.size_ n
    then abort
    else if n == b.size_
    then ok (record b { pos_ = 0; size_ = 0 })
    else ok (record b { size_ = b.size_ - n; pos_ = b.pos_ + n })

unfoldable pub clear : Buffer → Buffer
clear b = record b { size_ = 0; pos_ = 0 }

-- `operator[]` does no bounds check; `to_view` is empty for an empty buffer.
unfoldable pub to_view : Buffer → Result Bytes
to_view b = if b.size_ == 0 then ok [] else load b.data_ b.pos_ b.size_

-- memcmp of two stretches of one length.
abbrev pub same_bytes : Bytes → Bytes → Bool
same_bytes [] [] = true
same_bytes [] (y ∷ ys) = false
same_bytes (x ∷ xs) [] = false
same_bytes (x ∷ xs) (y ∷ ys) = x == y && same_bytes xs ys

unfoldable pub equals : Buffer → Buffer → Result Bool
equals a b =
    if a.size_ == b.size_
    then (if a.size_ == 0 then ok true else do
      xs ← load a.data_ a.pos_ a.size_
      ys ← load b.data_ b.pos_ a.size_
      ok (same_bytes xs ys))
    else ok false

-- `if (len) { memcpy(pos_ + size_, data, len); size_ += len; }`
unfoldable pub put : Buffer × Bytes × Source → Result Buffer
put (b, mem, src) = if source_length src == 0 then ok b else do
  bytes ← fetch mem src
  d ← store b.data_ (b.pos_ + b.size_) bytes
  ok (record b { data_ = d; size_ = add_size b.size_ (source_length src) })

-- `alloc n` is the block that `new unsigned char[n]` returns; its bytes are not specified.
module _ (alloc : ℕ → Bytes) where
  -- `get(write_size)`; the pointer that it returns is `pos_ + size_`.
  unfoldable pub get : Buffer → ℕ → Result Buffer
  get b n =
      if ltb (free_tail b) n
      then (if ltb n (sub_size b.capacity_ b.size_)
          then compact b
          else if ltb (sub_size size_max b.capacity_) n
          then abort
          else move_to (alloc (grown_capacity b n)) (grown_capacity b n) b)
      else ok b

  -- `append(data, len)`: the room, with the block that the source is then read from.
  unfoldable pub make_room : Buffer → Source → Result (Buffer × Bytes × Source)
  make_room b src =
      if ltb (free_tail b) (source_length src)
      then (if leb (source_length src) (sub_size b.capacity_ b.size_)
          then (do b' ← compact b; ok (b', b'.data_, shift_source b src))
          else if ltb (sub_size size_max b.capacity_) (source_length src)
          then abort
          else do
            b' ←
                move_to (alloc (grown_capacity b (source_length src)))
                  (grown_capacity b (source_length src)) b
            ok (b', b.data_, src))
      else ok (b, b.data_, src)

  unfoldable pub append : Buffer → Source → Result Buffer
  append b src = do room ← make_room b src; put room

  -- `append(buffer const&)` with another buffer, and with the buffer itself.
  unfoldable pub append_buffer : Buffer → Buffer → Result Buffer
  append_buffer b other = do bytes ← to_view other; append b (outside bytes)

  unfoldable pub append_self : Buffer → Result Buffer
  append_self b = append b (inside b.pos_ b.size_)

  -- `append(len, c)`.
  unfoldable pub append_fill : Buffer → ℕ → ℕ → Result Buffer
  append_fill b n c = do
    b' ← get b n
    d ← store b'.data_ (b'.pos_ + b'.size_) (replicate n c)
    add (record b' { data_ = d }) n

  unfoldable pub reserve : Buffer → ℕ → Result Buffer
  reserve b n = if leb n b.capacity_ then ok b else move_to (alloc (max 1024 n)) (max 1024 n) b

  unfoldable pub resize : Buffer → ℕ → Result Buffer
  resize b n =
      if n == 0 then ok (clear b) else if ltb n b.size_ then ok (record b { size_ = n }) else do
        b' ← get b (sub_size n b.size_)
        d ← store b'.data_ (b'.pos_ + b'.size_) (replicate (sub_size n b.size_) 0)
        ok (record b' { data_ = d; size_ = n })

  -- `buffer(buffer const& buf)`.
  unfoldable pub copy : Buffer → Result Buffer
  copy buf = if buf.size_ == 0 then ok empty_buffer else do
    bytes ← load buf.data_ buf.pos_ buf.size_
    d ← store (alloc buf.capacity_) 0 bytes
    ok (record { data_ = d; pos_ = 0; size_ = buf.size_; capacity_ = buf.capacity_ })

  -- `operator=(buffer const& buf)`, for another buffer than the one assigned to.
  unfoldable pub assign : Buffer → Buffer → Result Buffer
  assign b buf =
      if buf.size_ == 0
      then ok (record { data_ = []; pos_ = 0; size_ = buf.size_; capacity_ = buf.capacity_ })
      else do
        bytes ← load buf.data_ buf.pos_ buf.size_
        d ← store (alloc buf.capacity_) 0 bytes
        ok (record { data_ = d; pos_ = 0; size_ = buf.size_; capacity_ = buf.capacity_ })

-- `operator=(buffer && buf)` and `buffer(buffer && buf)`: the new value, and what `buf` becomes.
unfoldable pub move_from : Buffer → Buffer × Buffer
move_from buf = (buf, empty_buffer)
