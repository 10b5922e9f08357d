-- ===== src/Nonowning/Refine.antt =====
-- A nonowning buffer of lib/nonowning_buffer.cpp against a queue of bytes with a capacity.
use lfz.Prelude.{ℕ, ◌+◌, ◌≤◌, ◌<◌, ◌≡◌, arith, Bytes, length, take, drop, ◌++◌}
use lfz.Prelude.{List, [], ◌∷◌, inl, inr, Bool-cases, ltb}
use mathlib.Core.Path.{subst, subst⁻¹}
use lfz.Memory.{Result, ok, abort, fault, ◌>>=◌, Ensures}
use lfz.Nonowning.{NonowningBuffer, append, consume, resize}
use lfz.Nonowning.Inv.{IsValid, contents, length-contents, Appended, append-Appended, append_aborts}
use lfz.Nonowning.Size.{consume-Consumed, Resized, resize-Resized, resize_aborts}

pub data Call : Type 0 where
  appends : Bytes → Call
  consumes resizes : ℕ → Call

unfoldable pub call : Call → NonowningBuffer → Result NonowningBuffer
call (appends bs) b = append b bs
call (consumes n) b = ok (consume b n)
call (resizes n) b = resize b n

unfoldable pub run : List Call → NonowningBuffer → Result NonowningBuffer
run [] b = ok b
run (c ∷ cs) b = call c b >>= run cs

-- What a queue of at most `cap` bytes makes of a call: the bytes behind it, of which those that
-- `resize` adds are not specified.
abbrev pub Answers : ℕ → Call → Bytes → Result Bytes → Type 0
Answers cap (appends bs) s (ok t) = (length s + length bs ≤ cap) × (t ≡ s ++ bs)
Answers cap (appends bs) s abort = cap < length s + length bs
Answers cap (appends bs) s fault = ⊥
Answers cap (consumes n) s (ok t) = t ≡ drop n s
Answers cap (consumes n) s abort = ⊥
Answers cap (consumes n) s fault = ⊥
Answers cap (resizes n) s (ok t) = (n ≤ cap) × (length t ≡ n) × (take (length s) t ≡ take n s)
Answers cap (resizes n) s abort = cap < n
Answers cap (resizes n) s fault = ⊥

-- The results of a sequence of calls on the queue; behind an abort there is no further call.
pub data Outcome (cap : ℕ) : List Call → Bytes → Result Bytes → Type 0 where
  finished : {s : Bytes} → Outcome cap [] s (ok s)
  aborted :
      {c : Call} {cs : List Call} {s : Bytes} → Answers cap c s abort → Outcome cap (c ∷ cs) s abort
  answered :
      {c : Call} {cs : List Call} {s t : Bytes} {r : Result Bytes}
      → Answers cap c s (ok t)
      → Outcome cap cs t r
      → Outcome cap (c ∷ cs) s r

abbrev pub view : Result NonowningBuffer → Result Bytes
view (ok b) = ok (contents b)
view abort = abort
view fault = fault

-- A call answers like the queue, and keeps the buffer valid and its capacity.
abbrev Simulates : Call → NonowningBuffer → Result NonowningBuffer → Type 0
Simulates c b (ok b') =
    Answers b.capacity_ c (contents b) (ok (contents b'))
    × IsValid b'
    × (b'.capacity_ ≡ b.capacity_)
Simulates c b abort = Answers b.capacity_ c (contents b) abort
Simulates c b fault = ⊥

Simulates-ok :
    (c : Call) (b : NonowningBuffer) (r : Result NonowningBuffer) (P : NonowningBuffer → Type 0)
    → Ensures r P
    → ((b' : NonowningBuffer) → P b' → Simulates c b (ok b'))
    → Simulates c b r
Simulates-ok c b (ok b') P h k = k b' h
Simulates-ok c b abort P h k = absurd h
Simulates-ok c b fault P h k = absurd h

call-Simulates : (c : Call) {b : NonowningBuffer} → IsValid b → Simulates c b (call c b)
unfolding call
call-Simulates (appends bs) {b} v = elim (Bool-cases (ltb b.capacity_ (b.size_ + length bs))) [
  | inl e ↦
      subst⁻¹ (Simulates (appends bs) b) (append_aborts bs v (ground (arith, e)))
        (ground (arith, e, length-contents v))
  | inr e ↦
      Simulates-ok (appends bs) b (append b bs) (Appended b bs)
        (append-Appended bs v (ground (arith, e)))
        (λ b' a. ((ground (arith, e, length-contents v), a.grown), a.valid, a.capacity))
]
call-Simulates (consumes n) {b} v = let c = consume-Consumed n v in (c.shrunk, c.valid, c.capacity)
call-Simulates (resizes n) {b} v = elim (Bool-cases (ltb b.capacity_ n)) [
  | inl e ↦
      let small : b.capacity_ < n = ground (arith, e) in
      subst⁻¹ (Simulates (resizes n) b) (resize_aborts n v small) small
  | inr e ↦
      let fits : n ≤ b.capacity_ = ground (arith, e) in
      Simulates-ok (resizes n) b (resize b n) (Resized b n) (resize-Resized n v fits)
        (λ b' a. ((fits, a.size, a.kept), a.valid, a.capacity))
]

run-step :
    (c : Call) (cs : List Call) (b : NonowningBuffer) (r : Result NonowningBuffer)
    → Simulates c b r
    → ((b' : NonowningBuffer)
        → IsValid b'
        → Outcome b'.capacity_ cs (contents b') (view (run cs b')))
    → Outcome b.capacity_ (c ∷ cs) (contents b) (view (r >>= run cs))
run-step c cs b (ok b') (answer, valid, capacity) rest =
    answered answer
      (subst (λ k. Outcome k cs (contents b') (view (run cs b'))) capacity (rest b' valid))
run-step c cs b abort answer rest = aborted answer
run-step c cs b fault h rest = absurd h

-- Any sequence of calls on a valid buffer has the results of a queue of bytes with its capacity: the
-- same bytes, an abort exactly where the queue has no room, and no access out of bounds.
pub run-Outcome :
    (cs : List Call) (b : NonowningBuffer)
    → IsValid b
    → Outcome b.capacity_ cs (contents b) (view (run cs b))
unfolding run
run-Outcome [] b v = finished
run-Outcome (c ∷ cs) b v = run-step c cs b (call c b) (call-Simulates c v) (run-Outcome cs)
