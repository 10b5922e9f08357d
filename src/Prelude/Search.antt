-- ===== src/Prelude/Search.antt =====
-- The searches of std::string_view; `none` is npos.
use Prim.Native.Nat.{ℕ, zero, suc, ◌+◌}
use mathlib.Core.Path.{◌≡◌, refl}
use mathlib.Core.Bool.{Bool, true, false}
use mathlib.Core.Option
use mathlib.Core.Option.{Option, none, some}
use mathlib.Core.List.{[], ◌∷◌, ◌++◌}
use native.Mathlib.Omega.{arith}
use lfz.Prelude.Tests.{◌==◌, if◌then◌else◌}
use lfz.Prelude.Lists.{length, drop}
use lfz.Prelude.Text.{Bytes, All}

-- The first index at which a test holds.
unfoldable pub find_if : (ℕ → Bool) → Bytes → Option ℕ
find_if p [] = none
find_if p (x ∷ s) = elim (p x) [ true ↦ some 0 | false ↦ Option.map suc (find_if p s) ]

unfoldable pub find : ℕ → Bytes → Option ℕ
unfolding find_if
find c = find_if (λ x. x == c)

-- `find(c, from)` with an index into the whole string.
unfoldable pub find_from : ℕ → Bytes → ℕ → Option ℕ
unfolding find
find_from c s from = Option.map (λ i. from + i) (find c (drop from s))

-- `rfind(c, last)`: the last index up to `last`.
unfoldable pub rfind_to : ℕ → Bytes → ℕ → Option ℕ
rfind_to c [] last = none
rfind_to c (x ∷ s) zero = if x == c then some 0 else none
rfind_to c (x ∷ s) (suc last) = elim (rfind_to c s last) [
  | some i ↦ some (suc i)
  | none ↦ if x == c then some 0 else none
]

unfoldable pub rfind : ℕ → Bytes → Option ℕ
unfolding rfind_to
rfind c s = rfind_to c s (length s)

-- `chars.find(c) != npos`.
unfoldable pub elem : ℕ → Bytes → Bool
elem c [] = false
elem c (x ∷ s) = if x == c then true else elem c s

abbrev pub Lacks : ℕ → Bytes → Type 0
Lacks c = All (λ x. (x == c) ≡ false)

pub find-append : (c : ℕ) (s t : Bytes) → Lacks c s → find c (s ++ (c ∷ t)) ≡ some (length s)
unfolding find
find-append c [] t h = ground arith
find-append c (x ∷ s) t (hx, hs) = ground (arith, find-append c s t hs)

pub find-none : (c : ℕ) (s : Bytes) → Lacks c s → find c s ≡ none
unfolding find
find-none c [] h = refl
find-none c (x ∷ s) (hx, hs) = ground (arith, find-none c s hs)

-- Where the list ends in the unit.
pub rfind_to-last : (c : ℕ) (s : Bytes) → rfind_to c (s ++ (c ∷ [])) (length s) ≡ some (length s)
unfolding rfind_to
rfind_to-last c [] = ground arith
rfind_to-last c (x ∷ s) = rw (rfind_to-last c s, rfind_to)

pub rfind-none : (c : ℕ) (s : Bytes) → Lacks c s → rfind_to c s (length s) ≡ none
unfolding rfind_to
rfind-none c [] h = refl
rfind-none c (x ∷ s) (hx, hs) = rw (rfind-none c s hs, hx, rfind_to)

pub rfind-append :
    (c : ℕ) (s t : Bytes)
    → Lacks c t
    → rfind_to c (s ++ (c ∷ t)) (length (s ++ (c ∷ t))) ≡ some (length s)
unfolding rfind_to
rfind-append c [] t h =
    let same : (c == c) ≡ true = ground arith in rw (rfind-none c t h, same, rfind_to)
rfind-append c (x ∷ s) t h = rw (rfind-append c s t h, rfind_to)

pub find_if-none : (p : ℕ → Bool) (s : Bytes) → All (λ x. p x ≡ false) s → find_if p s ≡ none
unfolding find_if
find_if-none p [] h = refl
find_if-none p (x ∷ s) (hx, hs) = rw (hx, find_if-none p s hs, find_if)

pub find_if-append :
    (p : ℕ → Bool) (s t : Bytes) (c : ℕ)
    → All (λ x. p x ≡ false) s
    → p c ≡ true
    → find_if p (s ++ (c ∷ t)) ≡ some (length s)
unfolding find_if
find_if-append p [] t c h e = rw (e, find_if) refl
find_if-append p (x ∷ s) t c (hx, hs) e = rw (hx, find_if-append p s t c hs e, find_if) refl
