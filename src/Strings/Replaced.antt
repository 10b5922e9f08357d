-- ===== src/Strings/Replaced.antt =====
-- `do_replace_substrings` of lib/string.cpp against a recursion over the text.
use lfz.Prelude.{
  ℕ, zero, suc, ◌+◌, ◌-◌, ◌<◌, ◌≡◌, refl, sym, ap, ◌∙◌, arith, true, false, Bytes, [], ◌∷◌, ◌++◌,
  length, take, drop, is_empty, if◌then◌else◌, Bool-cases, inl, inr, Option, none, some,
  Option-cases, append_assoc, length-append, length-drop, length-take, drop-append_length,
}
use mathlib.Core.Option
use mathlib.Core.Path.{subst}
use lfz.Strings.Replace.{
  is_prefix, find_text, find_text_from, replace_at, replace_loop, is_found, replace_substrings,
}

-- From left to right, behind so many units of a match.
unfoldable pub replaced : Bytes → Bytes → ℕ → Bytes → Bytes
replaced needle text k [] = []
replaced needle text (suc k) (c ∷ s) = replaced needle text k s
replaced needle text zero (c ∷ s) =
    let behind = replaced needle text (length needle - 1) s in
    let next = replaced needle text zero s in
    if is_prefix needle (c ∷ s) then text ++ behind else c ∷ next

replaced-skip :
    (needle text : Bytes) (k : ℕ) (s : Bytes)
    → replaced needle text k s ≡ replaced needle text zero (drop k s)
unfolding replaced
replaced-skip needle text zero s = refl
replaced-skip needle text (suc k) [] = refl
replaced-skip needle text (suc k) (c ∷ s) = replaced-skip needle text k s

-- What a search says of it.
abbrev Found : Bytes → Bytes → Bytes → Option ℕ → Type 0
Found needle text s none = replaced needle text zero s ≡ s
Found needle text s (some n) =
    (replaced needle text zero s
      ≡ take n s ++ (text ++ replaced needle text zero (drop (n + length needle) s)))
    × (n < length s)

next-Found :
    (needle text : Bytes) (c : ℕ) (s : Bytes) (r : Option ℕ)
    → is_prefix needle (c ∷ s) ≡ false
    → Found needle text s r
    → Found needle text (c ∷ s) (Option.map suc r)
unfolding replaced
next-Found needle text c s none e h = rw (e, replaced) (ap (λ t. c ∷ t) h)
next-Found needle text c s (some n) e (h, less) =
    let at : suc n + length needle ≡ suc (n + length needle) = omega arith in
    (rw (e, replaced, at) (ap (λ t. c ∷ t) h), omega (arith, less))

here-Found :
    (needle text : Bytes) (c : ℕ) (s : Bytes)
    → is_empty needle ≡ false
    → is_prefix needle (c ∷ s) ≡ true
    → Found needle text (c ∷ s) (some 0)
unfolding replaced
here-Found [] text c s h e = absurd (ground (arith, h))
here-Found (x ∷ xs) text c s h e =
    let same : length (x ∷ xs) - 1 ≡ length xs = omega arith in
    let next : 0 + length (x ∷ xs) ≡ suc (length xs) = omega arith in
    (
      rw (e, replaced, same, next)
          (ap (λ t. text ++ t) (replaced-skip (x ∷ xs) text (length xs) s)),
      omega arith,
    )

found : (needle text s : Bytes) → is_empty needle ≡ false → Found needle text s (find_text needle s)
unfolding find_text replaced
found needle text [] h = rw h refl
found needle text (c ∷ s) h = elim (Bool-cases (is_prefix needle (c ∷ s))) [
  | inl e ↦ rw (e, find_text) (here-Found needle text c s h e)
  | inr e ↦
      rw (e, find_text) (next-Found needle text c s (find_text needle s) e (found needle text s h))
]

take-past : (d s : Bytes) (n : ℕ) → take (length d + n) (d ++ s) ≡ d ++ take n s
take-past [] s n = ap (λ k. take k s) (omega arith)
take-past (c ∷ d) s n =
    let at : length (c ∷ d) + n ≡ suc (length d + n) = omega arith in
    rw at (ap (λ t. c ∷ t) (take-past d s n))

drop-past : (d s : Bytes) (n : ℕ) → drop (length d + n) (d ++ s) ≡ drop n s
drop-past [] s n = ap (λ k. drop k s) (omega arith)
drop-past (c ∷ d) s n =
    let at : length (c ∷ d) + n ≡ suc (length d + n) = omega arith in rw at (drop-past d s n)

replace_at-past :
    (d s text : Bytes) (n m : ℕ)
    → replace_at (d ++ s) (length d + n) m text ≡ (d ++ (take n s ++ text)) ++ drop (n + m) s
unfolding replace_at
replace_at-past d s text n m =
    let at : length d + n + m ≡ length d + (n + m) = omega arith in
    rw (at, take-past d s n, drop-past d s (n + m)) (simp append_assoc refl)

length-past :
    (d s text : Bytes) (n : ℕ)
    → n < length s
    → length (d ++ (take n s ++ text)) ≡ length d + n + length text
length-past d s text n h =
    omega
      (arith, h, length-append d (take n s ++ text), length-append (take n s) text, length-take n s)

some_unit : (s : Bytes) → is_empty s ≡ false → 0 < length s
some_unit [] h = absurd (ground (arith, h))
some_unit (c ∷ s) h = omega arith

-- The loop, with what it is done with in front.
replace_loop-replaced :
    (rounds : ℕ) (needle text done rest : Bytes)
    → is_empty needle ≡ false
    → length rest < rounds
    → replace_loop rounds needle text
        (done ++ rest)
        (find_text_from needle (done ++ rest) (length done))
      ≡ done ++ replaced needle text zero rest
unfolding replace_loop find_text_from replace_at
replace_loop-replaced zero needle text done rest h less = absurd (omega (arith, less))
replace_loop-replaced (suc rounds) needle text done rest h less =
    let behind : drop (length done) (done ++ rest) ≡ rest = drop-append_length done rest in
    elim (Option-cases (find_text needle rest)) [
      | inl e ↦
          let kept = subst (Found needle text rest) e (found needle text rest h) in
          rw (behind, e, replace_loop, kept) refl
      | inr (n, e) ↦
          let (split, small) = subst (Found needle text rest) e (found needle text rest h) in
          let front = done ++ (take n rest ++ text) in
          let left = drop (n + length needle) rest in
          let shorter : length left < rounds =
            omega (arith, less, small, some_unit needle h, length-drop (n + length needle) rest) in
          rw
            (
              behind,
              e,
              replace_loop,
              replace_at-past done rest text n (length needle),
              sym (length-past done rest text n small),
            )
            (replace_loop-replaced rounds needle text front left h shorter
              ∙ rw split (simp append_assoc refl))
    ]

map_zero : (o : Option ℕ) → Option.map (λ n. 0 + n) o ≡ o
map_zero none = refl
map_zero (some n) = ap some (omega arith)

-- For a text to find that is not empty, replace_substrings replaces, from left to right, each match that
-- does not overlap the one before, and says whether there was one.
pub replace_substrings-replaced :
    (s needle text : Bytes)
    → is_empty needle ≡ false
    → replace_substrings s needle text
      ≡ (is_found (find_text needle s), replaced needle text zero s)
unfolding replace_substrings find_text_from
replace_substrings-replaced s needle text h =
    let at : Option.map (λ n. 0 + n) (find_text needle s) ≡ find_text needle s =
      map_zero (find_text needle s) in
    rw h (
      ap (λ t. (is_found (find_text needle s), t))
        (ap (replace_loop (suc (length s)) needle text s) (sym at)
          ∙ replace_loop-replaced (suc (length s)) needle text [] s h (omega arith)))
