-- ===== src/Strings/Ignoring.antt =====
-- `strtok` of lib/string.cpp, ignoring empty tokens, on a text that is put together of words and delimiters.
use lfz.Prelude.{
  ℕ, ◌≡◌, refl, ap, sym, ◌∙◌, Bool, true, false, Bytes, List, [], ◌∷◌, ◌++◌, is_empty, elem, All,
}
use lfz.Strings.{strtok}
use lfz.Strings.Tokens.{pieces, grow, kept, tokens_of, strtok-pieces}

-- A word has a unit, and none that is a delimiter.
abbrev pub IsWord : Bytes → Bytes → Type 0
IsWord delims w = (is_empty w ≡ false) × All (λ c. elem c delims ≡ false) w

pieces-word :
    (p : ℕ → Bool) (w : Bytes) (d : ℕ) (s : Bytes)
    → All (λ c. p c ≡ false) w
    → p d ≡ true
    → pieces p (w ++ (d ∷ s)) ≡ w ∷ pieces p s
unfolding pieces grow
pieces-word p [] d s h e = rw (e, pieces) refl
pieces-word p (c ∷ w) d s (hc, h) e = rw (hc, pieces) (ap (grow c) (pieces-word p w d s h e))

pieces-all : (p : ℕ → Bool) (w : Bytes) → All (λ c. p c ≡ false) w → pieces p w ≡ w ∷ []
unfolding pieces grow
pieces-all p [] h = refl
pieces-all p (c ∷ w) (hc, h) = rw (hc, pieces) (ap (grow c) (pieces-all p w h))

kept-word : (w : Bytes) (ts : List Bytes) → is_empty w ≡ false → kept (w ∷ ts) ≡ w ∷ kept ts
unfolding kept
kept-word w ts h = rw (h, kept) refl

strtok-word :
    (delims w : Bytes) (d : ℕ) (s : Bytes)
    → IsWord delims w
    → elem d delims ≡ true
    → strtok (w ++ (d ∷ s)) delims true ≡ w ∷ strtok s delims true
strtok-word delims w d s (some_unit, clean) e =
    strtok-pieces (w ++ (d ∷ s)) delims true
    ∙ ap (tokens_of true) (pieces-word (λ c. elem c delims) w d s clean e)
    ∙ kept-word w _ some_unit
    ∙ ap (λ ts. w ∷ ts) (sym (strtok-pieces s delims true))

pub strtok-delimiter :
    (delims : Bytes) (d : ℕ) (s : Bytes)
    → elem d delims ≡ true
    → strtok (d ∷ s) delims true ≡ strtok s delims true
unfolding kept
strtok-delimiter delims d s e =
    strtok-pieces (d ∷ s) delims true
    ∙ ap (tokens_of true) (pieces-word (λ c. elem c delims) [] d s tt e)
    ∙ sym (strtok-pieces s delims true)

pub strtok-last : (delims w : Bytes) → IsWord delims w → strtok w delims true ≡ w ∷ []
unfolding kept
strtok-last delims w (some_unit, clean) =
    strtok-pieces w delims true
    ∙ ap (tokens_of true) (pieces-all (λ c. elem c delims) w clean)
    ∙ kept-word w [] some_unit

-- A word, its delimiter and what the rest gives.
pub strtok-then :
    (delims w : Bytes) (d : ℕ) (s : Bytes) (ts : List Bytes)
    → IsWord delims w
    → elem d delims ≡ true
    → strtok s delims true ≡ ts
    → strtok (w ++ (d ∷ s)) delims true ≡ w ∷ ts
strtok-then delims w d s ts h e k = strtok-word delims w d s h e ∙ ap (λ r. w ∷ r) k
