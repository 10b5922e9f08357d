-- ===== src/Strings/Tests.antt =====
-- Tokens at concrete texts.
use lfz.Strings.Replace.{
  replace_substrings, replace_loop, replace_at, find_text, find_text_from, is_prefix, is_found,
}
use lfz.Strings.Replaced.{replaced, replace_substrings-replaced}
use lfz.Prelude.{◌≡◌, refl, true, false, [], ◌∷◌, codes, elem, find_if}
use lfz.Strings.{strtok, strtok_loop, strtok_found}
use lfz.Strings.Tokens.{pieces, tokens_of, strtok-pieces}

-- The empty token behind the last delimiter is left out, the one in front is not.
strtok_last : strtok (codes ",a,,b,") (codes ",;") false ≡ [] ∷ codes "a" ∷ [] ∷ codes "b" ∷ []
unfolding strtok strtok_loop strtok_found find_if elem
strtok_last = refl

strtok-pieces_example :
    strtok (codes ",a;b,") (codes ",;") true
    ≡ tokens_of true (pieces (λ c. elem c (codes ",;")) (codes ",a;b,"))
strtok-pieces_example = strtok-pieces (codes ",a;b,") (codes ",;") true

replace_substrings-replaced_example :
    replace_substrings (codes "banana") (codes "ana") (codes "-") ≡ (
      is_found (find_text (codes "ana") (codes "banana")),
      replaced (codes "ana") (codes "-") 0 (codes "banana"),
    )
replace_substrings-replaced_example =
    replace_substrings-replaced (codes "banana") (codes "ana") (codes "-") refl

once : replace_substrings (codes "banana") (codes "ana") (codes "-") ≡ (true, codes "b-na")
unfolding replace_substrings replace_loop replace_at find_text find_text_from is_prefix
once = refl
