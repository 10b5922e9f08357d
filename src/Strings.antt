-- ===== src/Strings.antt =====
-- lib/string.cpp and the templates of lib/libfilezilla/string.hpp that it instantiates: letter case,
-- comparison without case, and tokens, over code units.
pub mod Tokens
pub mod Ignoring
pub mod Replace
pub mod Replaced
mod Tests
use lfz.Prelude.{
  ℕ, zero, suc, ◌+◌, ◌-◌, Bool, true, false, ◌&&◌, ◌||◌, Bytes, List, [], ◌∷◌, ◌++◌, length,
}
use lfz.Prelude.{
  take, drop, leb, ltb, ◌==◌, if◌then◌else◌, is_empty, elem, find_if, Option, none, some,
}

unfoldable pub tolower_ascii : ℕ → ℕ
tolower_ascii c = if leb b'A' c && leb c b'Z' then c + (b'a' - b'A') else c

unfoldable pub toupper_ascii : ℕ → ℕ
toupper_ascii c = if leb b'a' c && leb c b'z' then c - (b'a' - b'A') else c

-- The specialisations for wide characters.
unfoldable pub tolower_wide : ℕ → ℕ
tolower_wide c =
    if leb b'A' c && leb c b'Z'
    then c + (b'a' - b'A')
    else if c == 0x130 || c == 0x131
    then b'i'
    else c

unfoldable pub toupper_wide : ℕ → ℕ
toupper_wide c =
    if leb b'a' c && leb c b'z'
    then c - (b'a' - b'A')
    else if c == 0x130 || c == 0x131
    then b'I'
    else c

-- `str_case_ascii_impl`.
unfoldable pub str_case : (ℕ → ℕ) → Bytes → Bytes
str_case f [] = []
str_case f (c ∷ s) = f c ∷ str_case f s

-- The order of `char`, which is signed: the units from 128 on are below the others.
unfoldable pub less_char : ℕ → ℕ → Bool
less_char x y = if ltb x 128 then ltb x y && ltb y 128 else ltb y 128 || ltb x y

unfoldable pub less_insensitive_ascii : Bytes → Bytes → Bool
less_insensitive_ascii [] [] = false
less_insensitive_ascii [] (y ∷ t) = true
less_insensitive_ascii (x ∷ s) [] = false
less_insensitive_ascii (x ∷ s) (y ∷ t) =
    less_char (tolower_ascii x) (tolower_ascii y)
    || (tolower_ascii x == tolower_ascii y && less_insensitive_ascii s t)

unfoldable pub equal_insensitive_ascii : Bytes → Bytes → Bool
equal_insensitive_ascii [] [] = true
equal_insensitive_ascii [] (y ∷ t) = false
equal_insensitive_ascii (x ∷ s) [] = false
equal_insensitive_ascii (x ∷ s) (y ∷ t) =
    tolower_ascii x == tolower_ascii y && equal_insensitive_ascii s t

-- Behind the search of a round of `strtok_impl`, with the text from `start` on; `next` are the tokens
-- of the rounds that follow.
unfoldable pub strtok_found : Bool → Bytes → Option ℕ → (ℕ → List Bytes) → List Bytes
strtok_found ignore_empty text none next = if is_empty text then [] else text ∷ []
strtok_found ignore_empty text (some n) next =
    if n == 0 && ignore_empty then next n else take n text ∷ next n

-- Each round finds one delimiter, so the rounds are one more than the units at most.
unfoldable pub strtok_loop : ℕ → Bytes → Bool → Bytes → List Bytes
strtok_loop zero delims ignore_empty text = []
strtok_loop (suc rounds) delims ignore_empty text =
    strtok_found ignore_empty text (find_if (λ c. elem c delims) text)
      (λ n. strtok_loop rounds delims ignore_empty (drop (n + 1) text))

unfoldable pub strtok : Bytes → Bytes → Bool → List Bytes
strtok tokens delims ignore_empty = strtok_loop (suc (length tokens)) delims ignore_empty tokens
