-- ===== src/Buffer/Tests.antt =====
-- The buffer's theorems at concrete buffers, and runs.
use lfz.Prelude.{ℕ, ◌≡◌, ◌↔◌, refl, arith, true, Bytes, ◌++◌, codes, length, take}
use lfz.Prelude.{replicate, length-replicate}
use lfz.Memory.{fault, ◌>>=◌, Ensures}
use lfz.Buffer.{Buffer, empty_buffer, outside, inside, get, append}
use lfz.Buffer.{resize, assign, equals}
use lfz.Buffer.Inv.{IsValid, contents}
use lfz.Buffer.Room.{HasRoom, get-HasRoom}
use lfz.Buffer.Append.{Appended, source_bytes, append-Appended}
use lfz.Buffer.Size.{resize_lem}
use lfz.Buffer.Copy.{assign_empty_faults, equals_iff}

-- Fresh memory of one fixed byte.
abbrev fresh_block : ℕ → Bytes
fresh_block n = replicate n 0xcd

fresh_block-length : (n : ℕ) → length (fresh_block n) ≡ n
fresh_block-length n = length-replicate n 0xcd

-- "abc" behind two consumed bytes, in a block of six.
abbrev shifted : Buffer
shifted = record { data_ = codes "..abc."; pos_ = 2; size_ = 3; capacity_ = 6 }

shifted-IsValid : IsValid shifted
shifted-IsValid = omega arith

-- A cleared buffer that keeps its block.
abbrev cleared : Buffer
cleared = record { data_ = codes "......"; pos_ = 0; size_ = 0; capacity_ = 6 }

cleared-IsValid : IsValid cleared
cleared-IsValid = omega arith

get-HasRoom_example : Ensures (get fresh_block shifted 2000) (HasRoom shifted 2000)
get-HasRoom_example = get-HasRoom fresh_block fresh_block-length 2000 shifted-IsValid (omega arith)

-- The source is the last two bytes of the buffer itself, and the contents move first.
append-Appended_example :
    Ensures
      (append fresh_block shifted (inside 3 2))
      (Appended shifted (source_bytes shifted (inside 3 2)))
append-Appended_example =
    append-Appended fresh_block fresh_block-length (inside 3 2) shifted-IsValid (omega arith)
      (omega arith)

resize_lem_example :
    Ensures
      (resize fresh_block shifted 5)
      (λ b'. IsValid b' × (contents b' ≡ take 5 (contents shifted) ++ replicate 2 0))
resize_lem_example = resize_lem fresh_block fresh_block-length 5 shifted-IsValid (omega arith)

assign_empty_faults_example :
    (assign fresh_block empty_buffer cleared >>= λ b'.
    append fresh_block b' (outside (codes "abc")))
    ≡ fault
assign_empty_faults_example =
    assign_empty_faults fresh_block fresh_block-length empty_buffer cleared (codes "abc")
      cleared-IsValid refl (omega arith) (omega arith)

equals_iff_example :
    Ensures (equals shifted cleared) (λ r. (r ≡ true) ↔ (contents shifted ≡ contents cleared))
equals_iff_example = equals_iff shifted-IsValid cleared-IsValid
