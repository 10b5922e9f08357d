-- ===== src/Json/Reading.antt =====
-- How much of the text the parts of the JSON parser read.
use lfz.Prelude.{ℕ, suc, ◌<◌, ◌≤◌, ◌≡◌, refl, Bool, false, Bytes, [], ◌∷◌, ◌++◌}
use lfz.Prelude.{length, arith, inl, inr, ◌⊎◌, Bool-cases, Option, some, none, if-cases, ◌==◌}
use lfz.Json.{skip_ws, is_space, unescape, Place, fresh, move, Move, refuse, finish, go}
use lfz.Json.Number.{
  is_digit, read_digits, read_fraction, read_sign, read_exponent, exponent_of, check_end,
}
use lfz.Json.Number.{read_number}
use lfz.Json.Parse.{
  Parsed, got, refused, stuck, Follows, bad, closes, element, after_comma, follows_at,
}
use lfz.Json.Parse.{follows, read_colon, after_name}
use lfz.Json.Parse.{read_name}

-- Less than `n` units are left behind a value, and the fuel did not run out.
abbrev pub Ends : ℕ → Parsed → Type 0
Ends n (got j rest) = length rest < n
Ends n refused = Unit
Ends n stuck = ⊥

-- Fewer than `n` units are left.
abbrev pub Leaves : ℕ → Option (Bytes × Bytes) → Type 0
Leaves n none = Unit
Leaves n (some (v, rest)) = length rest < n

abbrev pub Shrinks : ℕ → Follows → Type 0
Shrinks n bad = Unit
Shrinks n (closes s) = length s < n
Shrinks n (element s) = length s ≤ n

pub length-skip_ws : (t : Bytes) → length (skip_ws t) ≤ length t
unfolding skip_ws
length-skip_ws [] = omega arith
length-skip_ws (c ∷ t) = elim (Bool-cases (is_space c)) [
  | inl e ↦ rw (e, skip_ws) (omega (arith, length-skip_ws t))
  | inr e ↦ rw (e, skip_ws) (omega arith)
]

pub Leaves-mono : (m n : ℕ) (r : Option (Bytes × Bytes)) → m ≤ n → Leaves m r → Leaves n r
Leaves-mono m n none h k = tt
Leaves-mono m n (some (v, rest)) h k = omega (arith, h, k)

pub Ends-mono : (m n : ℕ) (r : Parsed) → m ≤ n → Ends m r → Ends n r
Ends-mono m n (got j rest) h k = omega (arith, h, k)
Ends-mono m n refused h k = tt
Ends-mono m n stuck h k = k

Move-cases : (m : Move) → (m ≡ refuse) ⊎ ((m ≡ finish) ⊎ ((r : Place × Bytes) × (m ≡ go r.0 r.1)))
Move-cases refuse = inl refl
Move-cases finish = inr (inl refl)
Move-cases (go p s) = inr (inr ((p, s), refl))

pub unescape-Leaves :
    (allow_null : Bool) (place : Place) (s ret : Bytes)
    → Leaves (length s) (unescape allow_null place s ret)
unfolding unescape
unescape-Leaves allow_null place [] ret = tt
unescape-Leaves allow_null place (c ∷ s) ret = elim (Move-cases (move allow_null place c)) [
  | inl e ↦ rw (e, unescape) tt
  | inr (inl e) ↦ rw (e, unescape) (omega arith)
  | inr (inr (r, e)) ↦
      rw (e, unescape)
        (Leaves-mono _ _ _ (omega arith) (unescape-Leaves allow_null r.0 s (ret ++ r.1)))
]

length-read_digits : (v s : Bytes) → length (read_digits v s).1 ≤ length s
unfolding read_digits
length-read_digits v [] = omega arith
length-read_digits v (c ∷ s) = elim (Bool-cases (is_digit c)) [
  | inl e ↦ rw (e, read_digits) (omega (arith, length-read_digits (v ++ (c ∷ [])) s))
  | inr e ↦ rw (e, read_digits) (omega arith)
]

fraction-Leaves : (v s : Bytes) → Leaves (suc (length s)) (read_fraction (v, s))
unfolding read_fraction
fraction-Leaves v [] = omega arith
fraction-Leaves v (c ∷ s) = ground (arith, length-read_digits (v ++ (c ∷ [])) s)

length-read_sign : (v s : Bytes) → length (read_sign v s).1 ≤ length s
unfolding read_sign
length-read_sign v [] = omega arith
length-read_sign v (c ∷ s) =
    ground (arith, length-read_digits (v ++ (c ∷ [])) s, length-read_digits v (c ∷ s))

exponent-Leaves : (v s : Bytes) → Leaves (suc (length s)) (read_exponent (v, s))
unfolding read_exponent
exponent-Leaves v [] = omega arith
exponent-Leaves v (c ∷ s) = ground (arith, length-read_sign (v ++ (c ∷ [])) s)

check_end-Leaves : (n : ℕ) (r : Option (Bytes × Bytes)) → Leaves n r → Leaves n (check_end r)
unfolding check_end
check_end-Leaves n none h = tt
check_end-Leaves n (some (v, s)) h = ground (arith, h)

exponent_of-Leaves : (n : ℕ) (r : Option (Bytes × Bytes)) → Leaves n r → Leaves n (exponent_of r)
unfolding exponent_of
exponent_of-Leaves n none h = tt
exponent_of-Leaves n (some (v, s)) h = Leaves-mono _ n _ (omega (arith, h)) (exponent-Leaves v s)

pub read_number-Leaves : (c : ℕ) (s : Bytes) → Leaves (suc (length s)) (read_number c s)
unfolding read_number
read_number-Leaves c s =
    let (v, t) = read_digits (c ∷ []) s in
    check_end-Leaves _ _ (
      exponent_of-Leaves _ _
        (Leaves-mono _ _ _ (omega (arith, length-read_digits (c ∷ []) s)) (fraction-Leaves v t)))

read_colon-Leaves : (name s : Bytes) → Leaves (suc (length s)) (read_colon name s)
unfolding read_colon
read_colon-Leaves name [] = tt
read_colon-Leaves name (c ∷ s) = ground arith

after_name-Leaves : (n : ℕ) (r : Option (Bytes × Bytes)) → Leaves n r → Leaves n (after_name r)
unfolding after_name
after_name-Leaves n none h = tt
after_name-Leaves n (some (name, s)) h =
    Leaves-mono _ n _ (omega (arith, h, length-skip_ws s)) (read_colon-Leaves name (skip_ws s))

pub read_name-Leaves : (s : Bytes) → Leaves (length s) (read_name s)
unfolding read_name
read_name-Leaves [] = tt
read_name-Leaves (c ∷ s) =
    if-cases (Leaves (suc (length s))) (c == b'"') _ _
      (λ e.
        after_name-Leaves _ _ (Leaves-mono _ _ _ (omega arith) (unescape-Leaves false fresh s [])))
      (λ e. tt)

after_comma-Shrinks : (close : ℕ) (t : Bytes) → Shrinks (suc (length t)) (after_comma close t)
unfolding after_comma
after_comma-Shrinks close [] = tt
after_comma-Shrinks close (c ∷ t) = ground arith

Shrinks-mono : (m n : ℕ) (r : Follows) → m ≤ n → Shrinks m r → Shrinks n r
Shrinks-mono m n bad h k = tt
Shrinks-mono m n (closes s) h k = omega (arith, h, k)
Shrinks-mono m n (element s) h k = omega (arith, h, k)

follows_at-Shrinks :
    (first : Bool) (close : ℕ) (t : Bytes) → Shrinks (length t) (follows_at first close t)
unfolding follows_at
follows_at-Shrinks first close [] = tt
follows_at-Shrinks first close (c ∷ s) =
    let P = Shrinks (suc (length s)) in
    if-cases P (c == close) _ _ (λ e. omega arith)
      (λ e.
        if-cases P first _ _ (λ f. omega arith)
          (λ f.
            if-cases P (c == b',') _ _
              (λ g.
                Shrinks-mono _ _ _ (omega (arith, length-skip_ws s))
                  (after_comma-Shrinks close (skip_ws s)))
              (λ g. tt)))

pub follows-Shrinks :
    (first : Bool) (close : ℕ) (t : Bytes) → Shrinks (length t) (follows first close t)
unfolding follows
follows-Shrinks first close t =
    Shrinks-mono _ _ _ (length-skip_ws t) (follows_at-Shrinks first close (skip_ws t))
