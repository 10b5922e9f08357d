-- ===== src/Query/Keys.antt =====
-- The order of keys without case, and segments that are put at the end of a query string.
use lfz.Prelude.{◌≡◌, refl, ap, arith, true, false, Bytes, List, [], ◌∷◌, ◌++◌, All, All-append}
use lfz.Strings.{less_insensitive_ascii, less_char}
use lfz.Query.{Segment, assign}

less_insensitive-asym :
    (a b : Bytes) → less_insensitive_ascii a b ≡ true → less_insensitive_ascii b a ≡ false
unfolding less_insensitive_ascii less_char
less_insensitive-asym [] [] h = refl
less_insensitive-asym [] (y ∷ t) h = refl
less_insensitive-asym (x ∷ s) [] h = cc h
less_insensitive-asym (x ∷ s) (y ∷ t) h = ground (arith, h, less_insensitive-asym s t)

abbrev pub IsLess : Segment → Segment → Type 0
IsLess x y = less_insensitive_ascii x.key y.key ≡ true

pub assign-end :
    (y : Segment) (s : List Segment)
    → All (λ x. IsLess x y) s
    → assign y.key y.value s ≡ s ++ (y ∷ [])
unfolding assign
assign-end y [] h = refl
assign-end y (x ∷ s) (hx, h) =
    rw (less_insensitive-asym x.key y.key hx, hx, assign) (ap (x ∷◌) (assign-end y s h))

-- Each segment is less than the ones behind it.
abbrev pub IsAscending : List Segment → Type 0
IsAscending [] = Unit
IsAscending (x ∷ s) = All (IsLess x) s × IsAscending s

-- All of the first segments are less than all of the second ones.
abbrev pub IsBefore : List Segment → List Segment → Type 0
IsBefore done = All (λ y. All (λ x. IsLess x y) done)

pub append-IsBefore :
    (done s : List Segment) (y : Segment)
    → IsBefore done s
    → All (IsLess y) s
    → IsBefore (done ++ (y ∷ [])) s
append-IsBefore done [] y h k = tt
append-IsBefore done (z ∷ s) y (hz, h) (kz, k) =
    (All-append (λ x. IsLess x z) done (y ∷ []) hz (kz, tt), append-IsBefore done s y h k)

pub nothing-IsBefore : (s : List Segment) → IsBefore [] s
nothing-IsBefore [] = tt
nothing-IsBefore (x ∷ s) = (tt, nothing-IsBefore s)
