-- ===== src/Json/Value.antt =====
-- The class `json` of lib/json.cpp and lib/libfilezilla/json.hpp: values and their accessors.
use lfz.Prelude.{ℕ, zero, suc, Bool, true, false, Bytes, [], ◌∷◌, codes, ltb, ◌==◌, ◌&&◌, ◌||◌}
use lfz.Prelude.{if◌then◌else◌, Option, none, some}

-- `std::vector<json>` and `std::map<std::string, json>` are the lists of the block; a map is in the
-- order of its keys.
mutual
  pub data Json : Type 0 where
    nothing null : Json
    boolean : Bool → Json
    number string : Bytes → Json
    array : Items → Json
    object : Fields → Json

  pub data Items : Type 0 where
    nil : Items
    cons : Json → Items → Items

  pub data Fields : Type 0 where
    end : Fields
    field : Bytes → Json → Fields → Fields

pub data JsonType : Type 0 where
  is_nothing is_null is_object is_array is_string is_number is_boolean : JsonType

abbrev pub type_of : Json → JsonType
type_of nothing = is_nothing
type_of null = is_null
type_of (boolean b) = is_boolean
type_of (number v) = is_number
type_of (string s) = is_string
type_of (array xs) = is_array
type_of (object fs) = is_object

-- A value of a type, as `set_type` makes it where the type changes.
unfoldable pub of_type : JsonType → Json
of_type is_nothing = nothing
of_type is_null = null
of_type is_object = object end
of_type is_array = array nil
of_type is_string = string []
of_type is_number = number []
of_type is_boolean = boolean false

-- `std::less<>` on strings.
unfoldable pub less : Bytes → Bytes → Bool
less [] [] = false
less [] (y ∷ t) = true
less (x ∷ s) [] = false
less (x ∷ s) (y ∷ t) = ltb x y || (x == y && less s t)

unfoldable pub find_field : Bytes → Fields → Json
find_field name end = nothing
find_field name (field k v fs) =
    let rest = find_field name fs in if less k name || less name k then rest else v

-- `emplace`; `none` where the key is there.
unfoldable pub emplace : Bytes → Json → Fields → Option Fields
emplace name v end = some (field name v end)
emplace name v (field k w fs) = elim (less name k) [
  | true ↦ some (field name v (field k w fs))
  | false ↦ elim (less k name) [
    | false ↦ none
    | true ↦ elim (emplace name v fs) [ none ↦ none | some gs ↦ some (field k w gs) ]
  ]
]

unfoldable pub erase_field : Bytes → Fields → Fields
erase_field name end = end
erase_field name (field k v fs) =
    let rest = erase_field name fs in if less k name || less name k then field k v rest else fs

unfoldable pub erase : Bytes → Json → Json
erase name (object fs) = object (erase_field name fs)
erase name j = j

-- `operator[](std::string const&) const`.
unfoldable pub get_field : Json → Bytes → Json
get_field (object fs) name = find_field name fs
get_field j name = nothing

unfoldable pub item_at : Items → ℕ → Json
item_at nil i = nothing
item_at (cons x xs) zero = x
item_at (cons x xs) (suc i) = item_at xs i

-- `operator[](size_t) const`.
unfoldable pub get_item : Json → ℕ → Json
get_item (array xs) i = item_at xs i
get_item j i = nothing

unfoldable pub count_items : Items → ℕ
count_items nil = 0
count_items (cons x xs) = suc (count_items xs)

unfoldable pub count_fields : Fields → ℕ
count_fields end = 0
count_fields (field k v fs) = suc (count_fields fs)

unfoldable pub children : Json → ℕ
children (array xs) = count_items xs
children (object fs) = count_fields fs
children j = 0

unfoldable pub same_text : Bytes → Bytes → Bool
same_text [] [] = true
same_text [] (y ∷ t) = false
same_text (x ∷ s) [] = false
same_text (x ∷ s) (y ∷ t) = x == y && same_text s t

unfoldable pub bool_value : Json → Bool
bool_value (boolean b) = b
bool_value (string s) = same_text s (codes "true")
bool_value j = false

unfoldable pub string_value : Json → Bytes
string_value (string s) = s
string_value (number v) = v
string_value (boolean b) = if b then codes "true" else codes "false"
string_value j = []
