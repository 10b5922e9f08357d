-- ===== src/Json/Tests.antt =====
-- The theorems on JSON at concrete strings and values, and runs.
use lfz.Prelude.{◌≡◌, refl, false, [], ◌∷◌, ◌++◌, codes, none, some}
use lfz.Encode.Hex.{hex_char_to_int}
use lfz.Json.{fresh, unescape, move, escape_move, unit_digit, low_digit}
use lfz.Json.{put_unit, put_pair, put_code_point, surrogates, utf8}
use lfz.Prelude.{true}
use lfz.Json.Value.{Json, nothing, null, number, string, array, object, nil, cons, end, field, less}
use lfz.Json.Print.{json_to_string}
use lfz.Json.Number.{
  is_digit, read_number, read_digits, read_fraction, read_exponent, exponent_of, check_end,
}
use lfz.Json.Number.{ends_in_digit}
use lfz.Json.Parse.{got, parse_json}
use lfz.Json.Numerals.{goes_on}
use lfz.Json.Readable.{IsReadable, normal}
use lfz.Json.RoundTrip.{parse_json-to_string}
use lfz.Json.Reading.{Ends}
use lfz.Json.Built.{IsBuilt, Gives}
use lfz.Json.Gives.{parse_json-Gives}
use lfz.Json.Readable.{IsNumber}
use lfz.Json.Grammar.{numeral-IsNumber, plus}
use lfz.Json.Total.{parse_json-Ends}

-- A surrogate pair is one code point of four bytes.
surrogate_pair :
    unescape false fresh (codes "\\ud83d\\ude00\"") [] ≡ some (0xf0 ∷ 0x9f ∷ 0x98 ∷ 0x80 ∷ [], [])
unfolding unescape move escape_move unit_digit low_digit put_unit put_pair put_code_point surrogates
    utf8 hex_char_to_int
surrogate_pair = refl

-- A low surrogate alone is refused.
low_surrogate : unescape false fresh (codes "\\ude00\"") [] ≡ none
unfolding unescape move escape_move unit_digit put_unit hex_char_to_int
low_surrogate = refl

-- An object with an array and an unset member.
abbrev pair : Json
pair = object (
    field (codes "a") (array (cons (number (codes "1")) (cons nothing nil)))
      (field (codes "b") (string (codes "x\"")) (field (codes "c") nothing end)))

pair-IsReadable : IsReadable 3 pair
unfolding less is_digit read_number read_digits read_fraction read_exponent exponent_of check_end
    ends_in_digit
pair-IsReadable = (
  (refl, tt),
  (λ e. ((refl, refl), (tt, tt))),
  (refl, (refl, tt)),
  ((refl, tt), (λ e. (refl, (refl, tt))), (refl, tt), ((refl, tt), (λ e. cc e), tt, tt)),
)

-- Null bytes stand behind the value.
parse_json-to_string_example :
    parse_json 3 (json_to_string true 0 pair ++ (0 ∷ []))
    ≡ got
        (object (
          field
            (codes "a")
            (array (cons (number (codes "1")) (cons null nil)))
            (field (codes "b") (string (codes "x\"")) end)))
        (0 ∷ [])
unfolding normal goes_on is_digit
parse_json-to_string_example = parse_json-to_string 3 true 0 pair (0 ∷ []) pair-IsReadable refl

parse_json-Ends_example : Ends 5 (parse_json 20 (codes "[1,2]"))
parse_json-Ends_example = parse_json-Ends 20 (codes "[1,2]")

-- A member is put in front of the one before it.
parse_json-Gives_example : Gives (IsBuilt 20) (parse_json 20 (codes "{\"b\":[],\"a\":null}"))
parse_json-Gives_example = parse_json-Gives 20 (codes "{\"b\":[],\"a\":null}")

numeral-IsNumber_example : IsNumber (codes "-12.5e+3")
unfolding is_digit ends_in_digit
numeral-IsNumber_example =
    numeral-IsNumber b'-' (codes "12") (some (codes "5")) (some (false, plus, codes "3")) refl
      (refl, (refl, tt)) refl ((refl, tt), refl) ((refl, tt), refl)
