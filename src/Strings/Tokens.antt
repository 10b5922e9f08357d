-- ===== src/Strings/Tokens.antt =====
-- `strtok` of lib/string.cpp against a plain recursion over its text.
use lfz.Prelude.{
  ℕ, zero, suc, ◌+◌, ◌<◌, ◌≡◌, refl, sym, ap, ◌∙◌, arith, Bool, true, false, ◌&&◌, Bytes, List,
}
use lfz.Prelude.{
  [], ◌∷◌, length, length-drop, take, drop, ◌==◌, if◌then◌else◌, is_empty, elem, find_if, Option,
}
use lfz.Prelude.{none, some, Option-cases, Bool-cases, inl, inr}
use mathlib.Core.Path.{subst}
use mathlib.Core.Option
use lfz.Strings.{strtok, strtok_loop, strtok_found}

-- A unit in front of the first piece.
unfoldable pub grow : ℕ → List Bytes → List Bytes
grow c [] = (c ∷ []) ∷ []
grow c (t ∷ ts) = (c ∷ t) ∷ ts

-- All pieces between delimiters, one more than there are delimiters.
unfoldable pub pieces : (ℕ → Bool) → Bytes → List Bytes
pieces is_delim [] = [] ∷ []
pieces is_delim (c ∷ s) =
    let rest = pieces is_delim s in if is_delim c then [] ∷ rest else grow c rest

unfoldable pub kept : List Bytes → List Bytes
kept [] = []
kept (t ∷ ts) = let rest = kept ts in if is_empty t then rest else t ∷ rest

-- Without an empty piece at the end.
unfoldable pub trimmed : List Bytes → List Bytes
trimmed [] = []
trimmed (t ∷ []) = if is_empty t then [] else t ∷ []
trimmed (t ∷ (u ∷ ts)) = t ∷ trimmed (u ∷ ts)

-- What a search says of the pieces.
abbrev Cut : (ℕ → Bool) → Bytes → Option ℕ → Type 0
Cut is_delim s none = pieces is_delim s ≡ s ∷ []
Cut is_delim s (some n) =
    (pieces is_delim s ≡ take n s ∷ pieces is_delim (drop (n + 1) s)) × (n < length s)

grow-Cut :
    (is_delim : ℕ → Bool) (c : ℕ) (s : Bytes) (r : Option ℕ)
    → is_delim c ≡ false
    → Cut is_delim s r
    → Cut is_delim (c ∷ s) (Option.map suc r)
unfolding pieces
grow-Cut is_delim c s none e h = rw (e, pieces) (unfold grow in ap (grow c) h)
grow-Cut is_delim c s (some n) e (h, less) =
    let at : suc n + 1 ≡ suc (n + 1) = omega arith in
    (rw (e, pieces, at) (unfold grow in ap (grow c) h), omega (arith, less))

cut : (is_delim : ℕ → Bool) (s : Bytes) → Cut is_delim s (find_if is_delim s)
unfolding find_if pieces
cut is_delim [] = refl
cut is_delim (c ∷ s) = elim (Bool-cases (is_delim c)) [
  | inl e ↦ rw (e, find_if) (rw (e, pieces) refl, omega arith)
  | inr e ↦ rw (e, find_if) (grow-Cut is_delim c s (find_if is_delim s) e (cut is_delim s))
]

is_empty-take : (n : ℕ) (s : Bytes) → n < length s → is_empty (take n s) ≡ (n == 0)
is_empty-take zero s h = refl
is_empty-take (suc n) [] h = absurd (omega (arith, h))
is_empty-take (suc n) (c ∷ s) h = ground arith

-- What `strtok` keeps of the pieces.
abbrev pub tokens_of : Bool → List Bytes → List Bytes
tokens_of true ps = kept ps
tokens_of false ps = trimmed ps

tokens_of-last :
    (ignore : Bool) (t : Bytes) → tokens_of ignore (t ∷ []) ≡ (if is_empty t then [] else t ∷ [])
unfolding kept trimmed
tokens_of-last true t = refl
tokens_of-last false t = refl

-- There is always a piece.
trimmed-cons :
    (is_delim : ℕ → Bool) (t s : Bytes)
    → trimmed (t ∷ pieces is_delim s) ≡ t ∷ trimmed (pieces is_delim s)
unfolding trimmed
trimmed-cons is_delim t s = elim (Option-cases (find_if is_delim s)) [
  | inl e ↦ rw (subst (Cut is_delim s) e (cut is_delim s)) refl
  | inr (n, e) ↦ rw (subst (Cut is_delim s) e (cut is_delim s)).0 refl
]

tokens_of-cons :
    (is_delim : ℕ → Bool) (ignore : Bool) (n : ℕ) (t s : Bytes)
    → is_empty t ≡ (n == 0)
    → tokens_of ignore (t ∷ pieces is_delim s) ≡ (
        if n == 0 && ignore
        then tokens_of ignore (pieces is_delim s)
        else t ∷ tokens_of ignore (pieces is_delim s))
unfolding kept
tokens_of-cons is_delim true n t s e = rw (e, kept) (ground arith)
tokens_of-cons is_delim false n t s e = trimmed-cons is_delim t s ∙ ground arith

strtok_loop-pieces :
    (rounds : ℕ) (delims : Bytes) (ignore : Bool) (s : Bytes)
    → length s < rounds
    → strtok_loop rounds delims ignore s ≡ tokens_of ignore (pieces (λ c. elem c delims) s)
unfolding strtok_loop strtok_found
strtok_loop-pieces zero delims ignore s h = absurd (omega (arith, h))
strtok_loop-pieces (suc rounds) delims ignore s h =
    let p = λ (c : ℕ). elem c delims in
    elim (Option-cases (find_if p s)) [
      | inl e ↦ rw (e, subst (Cut p s) e (cut p s)) (sym (tokens_of-last ignore s))
      | inr (n, e) ↦
          let (split, less) = subst (Cut p s) e (cut p s) in
          let rest = drop (n + 1) s in
          let next = λ (k : ℕ). strtok_loop rounds delims ignore (drop (k + 1) s) in
          let shorter : length rest < rounds = omega (arith, h, less, length-drop (n + 1) s) in
          ap (λ r. strtok_found ignore s r next) e
          ∙ ap (λ l. if n == 0 && ignore then l else take n s ∷ l)
              (strtok_loop-pieces rounds delims ignore rest shorter)
          ∙ sym (tokens_of-cons p ignore n (take n s) rest (is_empty-take n s less))
          ∙ ap (tokens_of ignore) (sym split)
    ]

-- `strtok` gives the pieces between delimiters without the empty ones, or, where these are not to be
-- ignored, all pieces but an empty one at the end.
pub strtok-pieces :
    (s delims : Bytes) (ignore_empty : Bool)
    → strtok s delims ignore_empty ≡ tokens_of ignore_empty (pieces (λ c. elem c delims) s)
unfolding strtok
strtok-pieces s delims ignore_empty =
    strtok_loop-pieces (suc (length s)) delims ignore_empty s (omega arith)
