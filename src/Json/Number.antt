-- ===== src/Json/Number.antt =====
-- The numbers of `json::parse` in lib/json.cpp.
use lfz.Prelude.{ℕ, Bool, true, false, ◌&&◌, ◌||◌, Bytes, [], ◌∷◌, ◌++◌, leb, ◌==◌}
use lfz.Prelude.{if◌then◌else◌, Option, none, some}

unfoldable pub is_digit : ℕ → Bool
is_digit c = leb b'0' c && leb c b'9'

-- `while (p < end && *p >= '0' && *p <= '9')`: what was read, with the text behind it.
unfoldable pub read_digits : Bytes → Bytes → Bytes × Bytes
read_digits v [] = (v, [])
read_digits v (c ∷ s) = elim (is_digit c) [
  | true ↦ read_digits (v ++ (c ∷ [])) s
  | false ↦ (v, c ∷ s)
]

-- `!v.empty() && v.back()` is a digit.
unfoldable pub ends_in_digit : Bytes → Bool
ends_in_digit [] = false
ends_in_digit (c ∷ []) = is_digit c
ends_in_digit (c ∷ (d ∷ s)) = ends_in_digit (d ∷ s)

unfoldable pub read_fraction : Bytes × Bytes → Option (Bytes × Bytes)
read_fraction (v, []) = some (v, [])
read_fraction (v, c ∷ s) =
    if c == b'.'
    then (if ends_in_digit v then some (read_digits (v ++ (c ∷ [])) s) else none)
    else some (v, c ∷ s)

-- Behind the `e` of an exponent.
unfoldable pub read_sign : Bytes → Bytes → Bytes × Bytes
read_sign v [] = (v, [])
read_sign v (c ∷ s) =
    if c == b'+' || c == b'-' then read_digits (v ++ (c ∷ [])) s else read_digits v (c ∷ s)

unfoldable pub read_exponent : Bytes × Bytes → Option (Bytes × Bytes)
read_exponent (v, []) = some (v, [])
read_exponent (v, c ∷ s) =
    if c == b'e' || c == b'E'
    then (if ends_in_digit v then some (read_sign (v ++ (c ∷ [])) s) else none)
    else some (v, c ∷ s)

unfoldable pub exponent_of : Option (Bytes × Bytes) → Option (Bytes × Bytes)
exponent_of none = none
exponent_of (some r) = read_exponent r

unfoldable pub check_end : Option (Bytes × Bytes) → Option (Bytes × Bytes)
check_end none = none
check_end (some (v, s)) = if ends_in_digit v then some (v, s) else none

-- From the first character on.
unfoldable pub read_number : ℕ → Bytes → Option (Bytes × Bytes)
read_number c s = check_end (exponent_of (read_fraction (read_digits (c ∷ []) s)))
