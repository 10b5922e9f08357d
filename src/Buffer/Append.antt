-- ===== src/Buffer/Append.antt =====
-- The appending functions of lib/buffer.cpp: what they add, from where, and when they abort.
use lfz.Prelude.{
  ℕ, zero, suc, ◌+◌, ◌-◌, ◌≤◌, ◌<◌, ◌≡◌, refl, sym, ap, ◌∙◌, arith, Bytes, length, Bool-cases, inl,
  inr,
}
use lfz.Prelude.{ltb, leb, ◌==◌, ◌&&◌, take, drop, overlay, ◌++◌, window-overlay, window-window}
use lfz.Prelude.{window_in_prefix, length-overlay, append-nil, [], ◌∷◌, true, false}
use lfz.Memory.{
  ok, abort, size_mod, size_max, sub_size, add_size, Ensures, Ensures-bind, load_in_bounds,
}
use lfz.Memory.{store_in_bounds, length-window}
use lfz.Buffer.{Buffer, Source, outside, inside, source_length, shift_source, fetch, free_tail}
use lfz.Buffer.{grown_capacity, make_room, put, append, append_self}
use lfz.Buffer.Inv.{IsValid, contents, length-contents, compact-eq, move_to-eq}
use lfz.Buffer.Room.{HasRoom, placed-HasRoom, grown_capacity_bounds, not_aborted}

-- The bytes to append lie elsewhere, or among the buffer's own contents.
abbrev pub IsReadable : Buffer → Source → Type 0
IsReadable b (outside bs) = Unit {0}
IsReadable b (inside off n) = (b.pos_ ≤ off) × (off + n ≤ b.pos_ + b.size_)

abbrev pub source_bytes : Buffer → Source → Bytes
source_bytes b (outside bs) = bs
source_bytes b (inside off n) = take n (drop off b.data_)

-- What `put` relies on: there is room, and the source still reads as at the start.
record IsReady (b : Buffer) (src : Source) (room : Buffer × Bytes × Source) : Type 0 where
  has_room : HasRoom b (source_length src) room.0
  kept : source_length room.2 ≡ source_length src
  reads : fetch room.1 room.2 ≡ ok (source_bytes b src)

fetch_in_place :
    {b : Buffer} (src : Source)
    → IsValid b
    → IsReadable b src
    → fetch b.data_ src ≡ ok (source_bytes b src)
fetch_in_place (outside bs) v h = refl
fetch_in_place {b} (inside off n) v h = load_in_bounds b.data_ off n (omega arith)

length-shift_source :
    (b : Buffer) (src : Source) → source_length (shift_source b src) ≡ source_length src
length-shift_source b (outside bs) = refl
length-shift_source b (inside off n) = ground arith

nil_of_length : (xs : Bytes) → length xs ≡ 0 → xs ≡ []
nil_of_length [] e = refl
nil_of_length (x ∷ xs) e = absurd (omega arith)

take_none : (xs ys : Bytes) (i n : ℕ) → n ≡ 0 → take n (drop i xs) ≡ take n (drop i ys)
take_none xs ys i zero e = refl
take_none xs ys i (suc n) e = absurd (omega arith)

-- After the contents have moved to the front, the shifted source reads the same bytes.
fetch_shifted :
    {b : Buffer} (src : Source)
    → IsValid b
    → IsReadable b src
    → fetch (overlay b.data_ 0 (contents b)) (shift_source b src) ≡ ok (source_bytes b src)
fetch_shifted (outside bs) v h = refl
fetch_shifted {b} (inside off n) v h =
    elim (Bool-cases (leb b.pos_ off && ltb off (b.pos_ + b.size_))) [
      | inl e ↦ rw e (
          load_in_bounds moved (off - b.pos_) n
            (omega (arith, length-overlay b.data_ 0 (contents b) fits))
          ∙ ap ok (
              window_in_prefix (contents b) _ (off - b.pos_) n (omega (arith, length-contents v))
              ∙ window-window b.data_ b.pos_ b.size_ (off - b.pos_) n off (omega arith)
                  (omega arith)))
      | inr e ↦ rw e (
          load_in_bounds moved off n (omega (arith, length-overlay b.data_ 0 (contents b) fits))
          ∙ ap ok (take_none moved b.data_ off n (ground arith)))
    ]
  where
    moved : Bytes
    moved = overlay b.data_ 0 (contents b)

    fits : 0 + length (contents b) ≤ length b.data_
    fits = omega (arith, length-contents v)

length-source_bytes :
    {b : Buffer} (src : Source)
    → IsValid b
    → IsReadable b src
    → length (source_bytes b src) ≡ source_length src
length-source_bytes (outside bs) v h = refl
length-source_bytes {b} (inside off n) v h = length-window b.data_ off n (omega arith)

module _ (alloc : ℕ → Bytes) (alloc_length : (n : ℕ) → length (alloc n) ≡ n) where
  make_room-IsReady :
      {b : Buffer} (src : Source)
      → IsValid b
      → IsReadable b src
      → b.capacity_ + source_length src < size_mod
      → Ensures (make_room alloc b src) (IsReady b src)
  unfolding make_room
  make_room-IsReady {b} src v readable h = elim (Bool-cases (ltb (free_tail b) n)) [
    | inr fits ↦ rw fits (record {
      has_room = record { valid = v; same = refl; size = refl; room = ground arith };
      kept = refl;
      reads = fetch_in_place src v readable;
    })
    | inl full ↦ elim (Bool-cases (leb n (sub_size b.capacity_ b.size_))) [
      | inl slack ↦
          rw (full, slack, compact-eq v)
            (record {
              has_room = placed-HasRoom v b.data_ b.capacity_ n v.block (ground arith) v.small;
              kept = length-shift_source b src;
              reads = fetch_shifted src v readable;
            })
      | inr tight ↦
          let (enough, small) = grown_capacity_bounds b n h in
          rw
            (
              full,
              tight,
              not_aborted b n h,
              move_to-eq v (alloc (grown_capacity b n)) (grown_capacity b n) (alloc_length _)
                  (omega arith),
            )
            (record {
              has_room =
                  placed-HasRoom v _ (grown_capacity b n) n (alloc_length _) (omega arith) small;
              kept = refl;
              reads = fetch_in_place src v readable;
            })
    ]
  ]
    where
      n : ℕ
      n = source_length src

-- `b'` is valid and holds the bytes of `b` followed by `bs`.
abbrev pub Appended : Buffer → Bytes → Buffer → Type 0
Appended b bs b' = IsValid b' × (contents b' ≡ contents b ++ bs)

module _ {b : Buffer} (v : IsValid b) (bs : Bytes) (n : ℕ) (e : length bs ≡ n) where
  -- Writing behind the contents, where there is room.
  pub overlay-Appended :
      (k : ℕ)
      → k ≡ b.size_ + n
      → b.pos_ + b.size_ + n ≤ b.capacity_
      → Appended b bs (record b { data_ = overlay b.data_ (b.pos_ + b.size_) bs; size_ = k })
  overlay-Appended k total room = (
    omega (arith, length-overlay b.data_ (b.pos_ + b.size_) bs fits),
    window-overlay b.data_ b.pos_ b.size_ (b.pos_ + b.size_) k bs refl (omega arith) fits,
  )
    where
      fits : (b.pos_ + b.size_) + length bs ≤ length b.data_
      fits = omega arith

put-Appended :
    {b : Buffer} (src : Source) (room : Buffer × Bytes × Source)
    → length (source_bytes b src) ≡ source_length src
    → IsReady b src room
    → Ensures (put room) (Appended b (source_bytes b src))
unfolding put
put-Appended {b} src (b', mem, src') e r = elim (Bool-cases (source_length src' == 0)) [
  | inl none_left ↦
      let none : source_bytes b src ≡ [] = nil_of_length _ (ground arith) in
      rw (none_left, none, append-nil) (r.has_room.valid, r.has_room.same)
  | inr some_left ↦
      let fits = e ∙ sym r.kept in
      let (valid, all) =
        overlay-Appended r.has_room.valid (source_bytes b src) (source_length src') fits
          (add_size b'.size_ (source_length src')) (omega arith) (omega arith) in
      rw
        (
          some_left,
          r.reads,
          store_in_bounds b'.data_ (b'.pos_ + b'.size_) (source_bytes b src) (omega arith),
        )
        (valid, all ∙ ap (λ t. t ++ source_bytes b src) r.has_room.same)
]

module _ (alloc : ℕ → Bytes) (alloc_length : (n : ℕ) → length (alloc n) ≡ n) where
  -- `append` on a valid buffer whose capacity can grow by the source's length returns, also where the
  -- source is a stretch of the buffer's own contents: the buffer stays valid, and its contents are
  -- the old ones followed by the bytes that the source had at the call.
  pub append-Appended :
      {b : Buffer} (src : Source)
      → IsValid b
      → IsReadable b src
      → b.capacity_ + source_length src < size_mod
      → Ensures (append alloc b src) (Appended b (source_bytes b src))
  unfolding append
  append-Appended {b} src v readable h =
      Ensures-bind (make_room alloc b src) put _ _
        (make_room-IsReady alloc alloc_length src v readable h)
        (λ room r. put-Appended src room (length-source_bytes src v readable) r)

  -- A buffer appended to itself holds its contents twice.
  pub append_self_doubles :
      {b : Buffer}
      → IsValid b
      → b.capacity_ + b.size_ < size_mod
      → Ensures (append_self alloc b) (λ b'. IsValid b' × (contents b' ≡ contents b ++ contents b))
  unfolding append_self
  append_self_doubles {b} v h = append-Appended (inside b.pos_ b.size_) v (omega arith) h

  -- With no room and no larger size_t, `append` aborts and copies nothing out of bounds.
  pub append_aborts :
      {b : Buffer} (src : Source)
      → IsValid b
      → size_mod ≤ b.capacity_ + source_length src
      → b.capacity_ < b.size_ + source_length src
      → append alloc b src ≡ abort
  unfolding append make_room
  append_aborts {b} src v h full =
      let e1 : ltb (free_tail b) (source_length src) ≡ true = ground arith in
      let e2 : leb (source_length src) (sub_size b.capacity_ b.size_) ≡ false = ground arith in
      let e3 : ltb (sub_size size_max b.capacity_) (source_length src) ≡ true = ground arith in
      rw (e1, e2, e3)
