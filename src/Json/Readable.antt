-- ===== src/Json/Readable.antt =====
-- The values that JSON output can be read back from, and what they are read back as.
use lfz.Prelude.{
  ℕ, zero, suc, ◌≡◌, refl, Bool, true, false, ◌||◌, Bytes, [], ◌∷◌, ◌++◌, codes, ◌==◌,
}
use lfz.Prelude.{some, All, arith, if◌then◌else◌}
use lfz.Json.{is_space}
use lfz.Json.Value.{Json, Items, Fields, nothing, null, boolean, number, string, array, object}
use lfz.Json.Value.{nil, cons, end, field}
use lfz.Json.Print.{is_unset, json_to_string, print_text}
use lfz.Json.Number.{is_digit, read_number}
use lfz.Json.Strings.{IsAllowed}
use lfz.Json.Spaces.{opens}
use lfz.Json.Keys.{IsAbove}

-- A number that `parse` reads as a whole.
abbrev pub IsNumber : Bytes → Type 0
IsNumber [] = ⊥
IsNumber (c ∷ s) = ((is_digit c || c == b'-') ≡ true) × (read_number c s ≡ some (c ∷ s, []))

abbrev pub or_null : Json → Json
or_null nothing = null
or_null j = j

abbrev pub AllItems : (Json → Type 0) → Items → Type 0
AllItems P nil = Unit
AllItems P (cons x xs) = P (or_null x) × AllItems P xs

abbrev pub AllFields : (Json → Type 0) → Fields → Type 0
AllFields P end = Unit
AllFields P (field k v fs) =
    All (IsAllowed false) k × (is_unset v ≡ false → P v) × IsAbove k fs × AllFields P fs

-- Within the depth, with numbers of JSON, strings without null bytes and the keys of objects in
-- ascending order.
abbrev pub IsReadable : ℕ → Json → Type 0
IsReadable zero j = ⊥
IsReadable (suc d) nothing = ⊥
IsReadable (suc d) null = Unit
IsReadable (suc d) (boolean b) = Unit
IsReadable (suc d) (number v) = IsNumber v
IsReadable (suc d) (string s) = All (IsAllowed false) s
IsReadable (suc d) (array xs) = AllItems (IsReadable d) xs
IsReadable (suc d) (object fs) = AllFields (IsReadable d) fs

-- Without the unset members of objects, and with null for the unset elements of arrays.
unfoldable mutual
  pub normal : Json → Json
  normal (array xs) = array (normal_items xs)
  normal (object fs) = object (normal_fields fs)
  normal j = j

  pub normal_items : Items → Items
  normal_items nil = nil
  normal_items (cons x xs) = cons (if is_unset x then null else normal x) (normal_items xs)

  pub normal_fields : Fields → Fields
  normal_fields end = end
  normal_fields (field k v fs) =
      let rest = normal_fields fs in if is_unset v then rest else field k (normal v) rest

pub normal_item : (x : Json) → (if is_unset x then null else normal x) ≡ normal (or_null x)
unfolding normal
normal_item nothing = refl
normal_item null = refl
normal_item (boolean b) = refl
normal_item (number v) = refl
normal_item (string s) = refl
normal_item (array xs) = refl
normal_item (object fs) = refl

pub printed_item :
    (pretty : Bool) (p : ℕ) (x : Json)
    → (if is_unset x then codes "null" else json_to_string pretty p x)
      ≡ json_to_string pretty p (or_null x)
unfolding json_to_string
printed_item pretty p nothing = refl
printed_item pretty p null = refl
printed_item pretty p (boolean b) = refl
printed_item pretty p (number v) = refl
printed_item pretty p (string s) = refl
printed_item pretty p (array xs) = refl
printed_item pretty p (object fs) = refl

pub number-opens : (v t : Bytes) → IsNumber v → opens (v ++ t) ≡ true
unfolding opens
number-opens [] t h = absurd h
number-opens (c ∷ s) t (h, _) = unfold is_digit is_space in ground (arith, h)

pub print-opens :
    (pretty : Bool) (p d : ℕ) (j : Json) (t : Bytes)
    → IsReadable d j
    → opens (json_to_string pretty p j ++ t) ≡ true
unfolding json_to_string print_text opens is_space
print-opens pretty p zero j t h = absurd h
print-opens pretty p (suc d) nothing t h = absurd h
print-opens pretty p (suc d) null t h = refl
print-opens pretty p (suc d) (boolean true) t h = refl
print-opens pretty p (suc d) (boolean false) t h = refl
print-opens pretty p (suc d) (number v) t h = number-opens v t h
print-opens pretty p (suc d) (string s) t h = refl
print-opens pretty p (suc d) (array xs) t h = refl
print-opens pretty p (suc d) (object fs) t h = refl
