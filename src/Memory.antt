-- ===== src/Memory.antt =====
-- Raw memory as lib/buffer.cpp uses it: size_t arithmetic, blocks from `new unsigned char[n]`, and
-- the copies of memcpy, memmove and memset with their bounds.
use lfz.Prelude.{ℕ, ◌+◌, ◌-◌, ◌*◌, ◌%◌, ◌^◌, ◌≤◌, ◌≡◌, Bytes, length, take, drop, overlay, leb}
use lfz.Prelude.{if◌then◌else◌, arith, length-take, length-drop, le→leb}

abbrev pub size_mod : ℕ
size_mod = 2 ^ 64

abbrev pub size_max : ℕ
size_max = 2 ^ 64 - 1

-- size_t `a + b`, `a - b` and `a * b`.
abbrev pub add_size : ℕ → ℕ → ℕ
add_size a b = (a + b) % size_mod

abbrev pub sub_size : ℕ → ℕ → ℕ
sub_size a b = (a + size_mod - b) % size_mod

abbrev pub mul_size : ℕ → ℕ → ℕ
mul_size a b = a * b % size_mod

-- `abort` is std::abort(); `fault` is an access outside its block, which C++ leaves undefined.
pub data Result {ℓ} (A : Type ℓ) : Type ℓ where
  ok : A → Result A
  abort : Result A
  fault : Result A

infixl 5 ◌>>=◌
abbrev pub ◌>>=◌ {ℓ κ} : {A : Type ℓ} {B : Type κ} → Result A → (A → Result B) → Result B
ok a >>= f = f a
abort >>= f = abort
fault >>= f = fault

-- The `n` bytes from offset `i` of a block.
unfoldable pub load : Bytes → ℕ → ℕ → Result Bytes
load d i n = if leb (i + n) (length d) then ok (take n (drop i d)) else fault

-- The bytes `bs` copied into a block from offset `i` on.
unfoldable pub store : Bytes → ℕ → Bytes → Result Bytes
store d i bs = if leb (i + length bs) (length d) then ok (overlay d i bs) else fault

pub load_in_bounds : (d : Bytes) (i n : ℕ) → i + n ≤ length d → load d i n ≡ ok (take n (drop i d))
unfolding load
load_in_bounds d i n h = rw (le→leb _ _ h)

pub store_in_bounds :
    (d : Bytes) (i : ℕ) (bs : Bytes) → i + length bs ≤ length d → store d i bs ≡ ok (overlay d i bs)
unfolding store
store_in_bounds d i bs h = rw (le→leb _ _ h)

pub length-window : (d : Bytes) (i n : ℕ) → i + n ≤ length d → length (take n (drop i d)) ≡ n
length-window d i n h = omega (arith, length-take n (drop i d), length-drop i d)

-- The call returns normally, with a value that has the property.
abbrev pub Ensures {ℓ} : {A : Type ℓ} → Result A → (A → Type 0) → Type 0
Ensures (ok a) P = P a
Ensures abort P = ⊥
Ensures fault P = ⊥

pub Ensures-bind {ℓ κ} :
    {A : Type ℓ} {B : Type κ} (m : Result A) (f : A → Result B) (P : A → Type 0) (Q : B → Type 0)
    → Ensures m P
    → ((a : A) → P a → Ensures (f a) Q)
    → Ensures (m >>= f) Q
Ensures-bind (ok a) f P Q h k = k a h
Ensures-bind abort f P Q h k = absurd h
Ensures-bind fault f P Q h k = absurd h
