-- ===== src/Query/Tests.antt =====
-- Query strings at concrete segments.
use lfz.Prelude.{◌≡◌, refl, arith, All, true, false, List, [], ◌∷◌, codes, find, find_if, elem}
use lfz.Encode.Percent.{percent_decode, percent_decode_loop, percent_plain}
use lfz.Strings.{
  strtok, strtok_loop, strtok_found, less_insensitive_ascii, less_char, tolower_ascii,
}
use lfz.Query.{
  Segment, assign, set, set_result, set_tokens, set_token, token_key, token_value, checked_value,
}
use lfz.Query.{with_value, query_to_string}
use lfz.Query.RoundTrip.{IsSegment, set-query_to_string}

abbrev two : List Segment
two = record { key = codes "a"; value = codes "x y" } ∷ record { key = codes "B"; value = [] } ∷ []

two-IsSegment : All IsSegment two
two-IsSegment = (
  record { key_text = omega arith; has_key = refl; value_text = omega arith },
  (record { key_text = omega arith; has_key = refl; value_text = tt }, tt),
)

set-query_to_string_example : set (query_to_string true two) ≡ (true, two)
unfolding less_insensitive_ascii less_char tolower_ascii
set-query_to_string_example = set-query_to_string true two two-IsSegment ((refl, tt), (tt, tt))

-- A key that differs in case only replaces the value, and keeps the first spelling.
set_same_key :
    set (codes "Key=1&kEY=2&") ≡ (true, record { key = codes "Key"; value = codes "2" } ∷ [])
unfolding set set_result set_tokens set_token token_key token_value checked_value with_value assign
    find find_if strtok strtok_loop strtok_found elem less_insensitive_ascii less_char tolower_ascii
    percent_decode percent_decode_loop percent_plain
set_same_key = refl

-- A token without a key is refused.
set_no_key : set (codes "a=1&=2") ≡ (false, [])
unfolding set set_result set_tokens set_token token_key token_value checked_value with_value assign
    find find_if strtok strtok_loop strtok_found elem percent_decode percent_decode_loop
    percent_plain
set_no_key = refl
