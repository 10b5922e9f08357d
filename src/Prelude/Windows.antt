-- ===== src/Prelude/Windows.antt =====
-- Windows of a list, `take n (drop i xs)`, and what overwriting a stretch does to them.
use Prim.Native.Nat.{ℕ, zero, suc, ◌+◌, ◌≤◌}
use mathlib.Core.Path.{◌≡◌, refl, ap, ◌∙◌}
use mathlib.Core.List.{List, [], ◌∷◌, ◌++◌}
use native.Mathlib.Omega.{arith}
use lfz.Prelude.Lists.{length, take, drop, length-append, length-drop}

module _ {ℓ} {A : Type ℓ} where
  -- `bs` written over the elements from index `i` on.
  abbrev pub overlay : List A → ℕ → List A → List A
  overlay d zero bs = bs ++ drop (length bs) d
  overlay [] (suc i) bs = []
  overlay (x ∷ d) (suc i) bs = x ∷ overlay d i bs

  pub take-append_length : (xs ys : List A) (n : ℕ) → n ≡ length xs → take n (xs ++ ys) ≡ xs
  take-append_length [] ys zero e = refl
  take-append_length [] ys (suc n) e = absurd (omega arith)
  take-append_length (x ∷ xs) ys zero e = absurd (omega arith)
  take-append_length (x ∷ xs) ys (suc n) e =
      ap (λ t. x ∷ t) (take-append_length xs ys n (omega arith))

  pub take_all : (xs : List A) (n : ℕ) → length xs ≤ n → take n xs ≡ xs
  take_all [] zero h = refl
  take_all [] (suc n) h = refl
  take_all (x ∷ xs) zero h = absurd (omega arith)
  take_all (x ∷ xs) (suc n) h = ap (λ t. x ∷ t) (take_all xs n (omega arith))

  pub length-overlay :
      (d : List A) (i : ℕ) (bs : List A)
      → i + length bs ≤ length d
      → length (overlay d i bs) ≡ length d
  length-overlay d zero bs h =
      omega (arith, length-append bs (drop (length bs) d), length-drop (length bs) d)
  length-overlay [] (suc i) bs h = absurd (omega arith)
  length-overlay (x ∷ d) (suc i) bs h = omega (arith, length-overlay d i bs (omega arith))

  -- Writing just past a window extends it.
  pub window-overlay :
      (d : List A) (p s i k : ℕ) (bs : List A)
      → i ≡ p + s
      → k ≡ s + length bs
      → i + length bs ≤ length d
      → take k (drop p (overlay d i bs)) ≡ take s (drop p d) ++ bs
  window-overlay d zero zero zero k bs e f h =
      take-append_length bs (drop (length bs) d) k (omega arith)
  window-overlay d zero zero (suc i) k bs e f h = absurd (omega arith)
  window-overlay d zero (suc s) zero k bs e f h = absurd (omega arith)
  window-overlay [] zero (suc s) (suc i) k bs e f h = absurd (omega arith)
  window-overlay (x ∷ d) zero (suc s) (suc i) zero bs e f h = absurd (omega arith)
  window-overlay (x ∷ d) zero (suc s) (suc i) (suc k) bs e f h =
      ap (λ t. x ∷ t) (window-overlay d zero s i k bs (omega arith) (omega arith) (omega arith))
  window-overlay d (suc p) s zero k bs e f h = absurd (omega arith)
  window-overlay [] (suc p) s (suc i) k bs e f h = absurd (omega arith)
  window-overlay (x ∷ d) (suc p) s (suc i) k bs e f h =
      window-overlay d p s i k bs (omega arith) f (omega arith)

  -- A stretch inside the first `s` elements.
  pub window_in_prefix :
      (xs ys : List A) (j n : ℕ)
      → j + n ≤ length xs
      → take n (drop j (xs ++ ys)) ≡ take n (drop j xs)
  window_in_prefix xs ys j zero h = refl
  window_in_prefix [] ys zero (suc n) h = absurd (omega arith)
  window_in_prefix (x ∷ xs) ys zero (suc n) h =
      ap (λ t. x ∷ t) (window_in_prefix xs ys zero n (omega arith))
  window_in_prefix [] ys (suc j) (suc n) h = absurd (omega arith)
  window_in_prefix (x ∷ xs) ys (suc j) (suc n) h = window_in_prefix xs ys j (suc n) (omega arith)

  pub drop-drop : (i j k : ℕ) (xs : List A) → k ≡ i + j → drop j (drop i xs) ≡ drop k xs
  drop-drop zero j k xs e = ap (λ t. drop t xs) (omega arith)
  drop-drop (suc i) zero zero [] e = refl
  drop-drop (suc i) zero (suc k) [] e = refl
  drop-drop (suc i) (suc j) zero [] e = refl
  drop-drop (suc i) (suc j) (suc k) [] e = refl
  drop-drop (suc i) j zero (x ∷ xs) e = absurd (omega arith)
  drop-drop (suc i) j (suc k) (x ∷ xs) e = drop-drop i j k xs (omega arith)

  pub window-take :
      (xs : List A) (s j n : ℕ) → j + n ≤ s → take n (drop j (take s xs)) ≡ take n (drop j xs)
  window-take xs s j zero h = refl
  window-take xs zero j (suc n) h = absurd (omega arith)
  window-take [] (suc s) j (suc n) h = refl
  window-take (x ∷ xs) (suc s) zero (suc n) h =
      ap (λ t. x ∷ t) (window-take xs s zero n (omega arith))
  window-take (x ∷ xs) (suc s) (suc j) (suc n) h = window-take xs s j (suc n) (omega arith)

  -- A window of a window.
  pub window-window :
      (xs : List A) (p s j n k : ℕ)
      → k ≡ p + j
      → j + n ≤ s
      → take n (drop j (take s (drop p xs))) ≡ take n (drop k xs)
  window-window xs p s j n k e h =
      window-take (drop p xs) s j n h ∙ ap (take n) (drop-drop p j k xs e)

  pub drop_all : (xs : List A) (n : ℕ) → length xs ≤ n → drop n xs ≡ []
  drop_all [] zero h = refl
  drop_all [] (suc n) h = refl
  drop_all (x ∷ xs) zero h = absurd (omega arith)
  drop_all (x ∷ xs) (suc n) h = drop_all xs n (omega arith)

  -- The rest of a window.
  pub drop-take : (xs : List A) (n s k : ℕ) → s ≡ n + k → drop n (take s xs) ≡ take k (drop n xs)
  drop-take xs zero s k e = ap (λ t. take t xs) (omega arith)
  drop-take xs (suc n) zero k e = absurd (omega arith)
  drop-take [] (suc n) (suc s) zero e = refl
  drop-take [] (suc n) (suc s) (suc k) e = refl
  drop-take (x ∷ xs) (suc n) (suc s) k e = drop-take xs n s k (omega arith)

  pub take_swap : (m n : ℕ) (xs : List A) → take m (take n xs) ≡ take n (take m xs)
  take_swap zero zero xs = refl
  take_swap zero (suc n) [] = refl
  take_swap zero (suc n) (x ∷ xs) = refl
  take_swap (suc m) zero [] = refl
  take_swap (suc m) zero (x ∷ xs) = refl
  take_swap (suc m) (suc n) [] = refl
  take_swap (suc m) (suc n) (x ∷ xs) = ap (x ∷◌) (take_swap m n xs)

  -- A list cut at one of its elements.
  pub take-at : (s t : List A) (c : A) → take (length s) (s ++ (c ∷ t)) ≡ s
  take-at s t c = take-append_length s (c ∷ t) (length s) refl

  drop_past : (s t : List A) (c : A) (n : ℕ) → n ≡ length s + 1 → drop n (s ++ (c ∷ t)) ≡ t
  drop_past s t c zero e = absurd (omega arith)
  drop_past [] t c (suc zero) e = refl
  drop_past [] t c (suc (suc n)) e = absurd (omega arith)
  drop_past (x ∷ s) t c (suc n) e = drop_past s t c n (omega arith)

  pub drop-after : (s t : List A) (c : A) → drop (length s + 1) (s ++ (c ∷ t)) ≡ t
  drop-after s t c = drop_past s t c (length s + 1) refl

  pub drop-append_length : (s t : List A) → drop (length s) (s ++ t) ≡ t
  drop-append_length [] t = refl
  drop-append_length (x ∷ s) t = drop-append_length s t
