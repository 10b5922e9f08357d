-- ===== src/Json/Parse.antt =====
-- `json::parse` of lib/json.cpp.
use lfz.Prelude.{ℕ, zero, suc, Bool, true, false, ◌&&◌, ◌||◌, Bytes, [], ◌∷◌, codes, length, drop}
use lfz.Prelude.{◌==◌, if◌then◌else◌, Option, none, some}
use lfz.Json.{skip_ws, unescape, fresh}
use lfz.Json.Value.{Json, Items, Fields, nothing, null, boolean, number, string, array, object}
use lfz.Json.Value.{nil, cons, end, field, emplace}
use lfz.Json.Number.{is_digit, read_number}

-- A value and the text behind it, or `return {}`. `stuck` is no outcome of the code, the fuel ran
-- out.
pub data Parsed : Type 0 where
  got : Json → Bytes → Parsed
  refused stuck : Parsed

-- What follows in an object or an array: its end, a further element, or neither.
pub data Follows : Type 0 where
  closes element : Bytes → Follows
  bad : Follows

unfoldable pub after_comma : ℕ → Bytes → Follows
after_comma close [] = bad
after_comma close (c ∷ s) = if c == close then closes s else element (c ∷ s)

-- The tests of a round up to the element; a comma stands before all but the first one.
unfoldable pub follows_at : Bool → ℕ → Bytes → Follows
follows_at first close [] = bad
follows_at first close (c ∷ s) =
    if c == close
    then closes s
    else if first
    then element (c ∷ s)
    else if c == b','
    then after_comma close (skip_ws s)
    else bad

unfoldable pub follows : Bool → ℕ → Bytes → Follows
follows first close text = follows_at first close (skip_ws text)

unfoldable pub add_item : Items → Json → Items
add_item nil x = cons x nil
add_item (cons y ys) x = cons y (add_item ys x)

abbrev pub no_items : Items → Bool
no_items nil = true
no_items (cons x xs) = false

abbrev pub no_fields : Fields → Bool
no_fields end = true
no_fields (field k v fs) = false

-- The loop over an array; `value` parses an element, one level deeper.
unfoldable pub elements : (Bytes → Parsed) → ℕ → Items → Bytes → Parsed
elements value zero children text = stuck
elements value (suc fuel) children text = elim (follows (no_items children) b']' text) [
  | bad ↦ refused
  | closes s ↦ got (array children) s
  | element s ↦ elim (value s) [
    | refused ↦ refused
    | stuck ↦ stuck
    | got v rest ↦ elements value fuel (add_item children v) rest
  ]
]

unfoldable pub read_colon : Bytes → Bytes → Option (Bytes × Bytes)
read_colon name [] = none
read_colon name (c ∷ s) = if c == b':' then some (name, s) else none

unfoldable pub after_name : Option (Bytes × Bytes) → Option (Bytes × Bytes)
after_name none = none
after_name (some (name, s)) = read_colon name (skip_ws s)

-- The name of a member, up to its value.
unfoldable pub read_name : Bytes → Option (Bytes × Bytes)
read_name [] = none
read_name (c ∷ s) = if c == b'"' then after_name (unescape false fresh s []) else none

unfoldable pub members : (Bytes → Parsed) → ℕ → Fields → Bytes → Parsed
members value zero children text = stuck
members value (suc fuel) children text = elim (follows (no_fields children) b'}' text) [
  | bad ↦ refused
  | closes s ↦ got (object children) s
  | element s ↦ elim (read_name s) [
    | none ↦ refused
    | some (name, r) ↦ elim (value r) [
      | refused ↦ refused
      | stuck ↦ stuck
      | got v rest ↦ elim (emplace name v children) [
        | none ↦ refused
        | some more ↦ members value fuel more rest
      ]
    ]
  ]
]

unfoldable pub string_of : Option (Bytes × Bytes) → Parsed
string_of none = refused
string_of (some (s, rest)) = got (string s) rest

unfoldable pub number_of : Option (Bytes × Bytes) → Parsed
number_of none = refused
number_of (some (v, rest)) = got (number v) rest

-- `end - p >= n && !memcmp(p, word, n)`.
unfoldable pub starts_with : Bytes → Bytes → Bool
starts_with [] text = true
starts_with (c ∷ word) [] = false
starts_with (c ∷ word) (d ∷ text) = c == d && starts_with word text

unfoldable pub parse_word : Bytes → Parsed
parse_word text =
    if starts_with (codes "null") text
    then got null (drop 4 text)
    else if starts_with (codes "true") text
    then got (boolean true) (drop 4 text)
    else if starts_with (codes "false") text
    then got (boolean false) (drop 5 text)
    else refused

unfoldable pub parse_value : (Bytes → Parsed) → Bytes → Parsed
parse_value value [] = refused
parse_value value (c ∷ s) =
    if c == b'"'
    then string_of (unescape false fresh s [])
    else if c == b'{'
    then members value (suc (length s)) end s
    else if c == b'['
    then elements value (suc (length s)) nil s
    else if is_digit c || c == b'-'
    then number_of (read_number c s)
    else parse_word (c ∷ s)

unfoldable pub parse_json : ℕ → Bytes → Parsed
parse_json zero text = refused
parse_json (suc max_depth) text = parse_value (parse_json max_depth) (skip_ws text)

abbrev pub or_nothing : Parsed → Json
or_nothing (got j rest) = j
or_nothing refused = nothing
or_nothing stuck = nothing

-- `json::parse(std::string_view const&, size_t)`; what stands behind the value is not looked at.
unfoldable pub json_parse : ℕ → Bytes → Json
json_parse max_depth text = or_nothing (parse_json max_depth text)
