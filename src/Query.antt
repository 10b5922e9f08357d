-- ===== src/Query.antt =====
-- The class `query_string` of lib/uri.cpp: a map of keys without case to values.
pub mod Keys
pub mod RoundTrip
mod Tests
use lfz.Prelude.{
  ℕ, suc, ◌+◌, Bool, true, false, not, ◌&&◌, Bytes, List, [], ◌∷◌, ◌++◌, length, take, drop, ◌==◌,
}
use lfz.Prelude.{if◌then◌else◌, is_empty, find, Option, none, some}
use lfz.Encode.Percent.{percent_encode, percent_decode}
use lfz.Strings.{less_insensitive_ascii, strtok}

pub record Segment : Type 0 where
  pub key : Bytes
  pub value : Bytes

-- `segments_[key] = value`: a key that is there up to case keeps its spelling.
unfoldable pub assign : Bytes → Bytes → List Segment → List Segment
assign key value [] = record { key = key; value = value } ∷ []
assign key value (x ∷ s) = elim (less_insensitive_ascii key x.key) [
  | true ↦ record { key = key; value = value } ∷ (x ∷ s)
  | false ↦ elim (less_insensitive_ascii x.key key) [
    | true ↦ x ∷ assign key value s
    | false ↦ record x { value = value } ∷ s
  ]
]

unfoldable pub remove : Bytes → List Segment → List Segment
remove key [] = []
remove key (x ∷ s) =
    let rest = remove key s in
    if less_insensitive_ascii key x.key
    then x ∷ s
    else if less_insensitive_ascii x.key key
    then x ∷ rest
    else s

-- The value behind `=`, whose text is `token.substr(pos + 1)`; `none` is `return false`.
unfoldable pub checked_value : Bytes → Bytes → Option Bytes
checked_value text value = if is_empty value && not (is_empty text) then none else some value

unfoldable pub token_value : Bytes → Option ℕ → Option Bytes
token_value token none = some []
token_value token (some pos) =
    checked_value (drop (pos + 1) token) (percent_decode false (drop (pos + 1) token))

-- `token.substr(0, pos)`.
unfoldable pub token_key : Bytes → Option ℕ → Bytes
token_key token none = token
token_key token (some pos) = take pos token

unfoldable pub with_value : Bytes → Option Bytes → List Segment → Option (List Segment)
with_value key none segments = none
with_value key (some value) segments = some (assign key value segments)

abbrev pub at_front : Option ℕ → Bool
at_front none = false
at_front (some pos) = pos == 0

-- A round of `set`.
unfoldable pub set_token : Bytes → List Segment → Option (List Segment)
set_token token segments =
    let pos = find b'=' token in
    let key = percent_decode false (token_key token pos) in
    if at_front pos
    then none
    else if is_empty key
    then none
    else with_value key (token_value token pos) segments

unfoldable pub set_tokens : List Bytes → List Segment → Option (List Segment)
set_tokens [] segments = some segments
set_tokens (t ∷ ts) segments = elim (set_token t segments) [
  | none ↦ none
  | some more ↦ set_tokens ts more
]

-- The result and the segments behind the call.
unfoldable pub set_result : Option (List Segment) → Bool × List Segment
set_result none = (false, [])
set_result (some segments) = (true, segments)

unfoldable pub set : Bytes → Bool × List Segment
set raw = set_result (set_tokens (strtok raw (b'&' ∷ []) true) [])

unfoldable pub print_segments : Bool → List Segment → Bytes
print_segments keep_slashes [] = []
print_segments keep_slashes (x ∷ s) =
    percent_encode keep_slashes x.key
    ++ (b'=' ∷ (percent_encode keep_slashes x.value ++ (b'&' ∷ print_segments keep_slashes s)))

unfoldable pub pop_back : Bytes → Bytes
pop_back [] = []
pop_back (c ∷ []) = []
pop_back (c ∷ (d ∷ s)) = c ∷ pop_back (d ∷ s)

unfoldable pub query_to_string : Bool → List Segment → Bytes
query_to_string encode_slashes segments =
    if is_empty segments then [] else pop_back (print_segments (not encode_slashes) segments)
