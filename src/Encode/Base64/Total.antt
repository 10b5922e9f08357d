-- ===== src/Encode/Base64/Total.antt =====
-- The rounds of the base64 decoder.
use lfz.Prelude.{ℕ, zero, suc, ◌≤◌, ◌≢◌, arith, Bytes, [], ◌∷◌, ◌++◌, length, take, length-take}
use lfz.Encode.Base64.{
  trimmed_length, next, bad, stuck, Round, more, refuse, decode_group, decode_loop,
}
use lfz.Encode.Base64.{decode_outcome}

length-next : (s : Bytes) → length (next s).1 ≤ length s
unfolding next
length-next [] = omega arith
length-next (u ∷ s) = ground (arith, length-next s)

length-next_cons : (u : ℕ) (s : Bytes) → length (next (u ∷ s)).1 ≤ length s
unfolding next
length-next_cons u s = ground (arith, length-next s)

loop-ne-stuck : (fuel : ℕ) (s ret : Bytes) → length s ≤ fuel → decode_loop fuel s ret ≢ stuck
unfolding decode_loop
loop-ne-stuck fuel [] ret h = λ e. cc
loop-ne-stuck zero (u ∷ s) ret h = absurd (omega arith)
loop-ne-stuck (suc fuel) (u ∷ s) ret h =
    let s1 = (next (u ∷ s)).1 in
    let s2 = (next s1).1 in
    let s3 = (next s2).1 in
    let s4 = (next s3).1 in
    let left : length s4 ≤ fuel =
      omega (arith, length-next_cons u s, length-next s1, length-next s2, length-next s3) in
    after s4 (decode_group (next (u ∷ s)).0 (next s1).0 (next s2).0 (next s3).0 s4)
      (λ ret'. loop-ne-stuck fuel s4 ret' left)
  where
    after :
        (s4 : Bytes) (r : Round)
        → ((ret' : Bytes) → decode_loop fuel s4 ret' ≢ stuck)
        → elim r [ refuse ↦ bad | more bytes ↦ decode_loop fuel s4 (ret ++ bytes) ] ≢ stuck
    after s4 refuse k = λ e. cc
    after s4 (more bytes) k = k (ret ++ bytes)

length-trimmed : (s : Bytes) (n : ℕ) → trimmed_length s n ≤ n
unfolding trimmed_length
length-trimmed s zero = omega arith
length-trimmed s (suc n) = ground (arith, length-trimmed s n)

-- The decoder ends on every input: its loop never runs out of the rounds that the model allows.
pub decode-ne-stuck : (s : Bytes) → decode_outcome s ≢ stuck
unfolding decode_outcome
decode-ne-stuck s =
    let len = trimmed_length s (length s) in
    loop-ne-stuck len (take len s) [] (omega (arith, length-take len s))
