-- ===== src/Json/Print.antt =====
-- `json::to_string` of lib/json.cpp.
use lfz.Prelude.{ℕ, suc, ◌+◌, ◌*◌, Bool, true, false, Bytes, [], ◌∷◌, ◌++◌, codes, replicate}
use lfz.Prelude.{if◌then◌else◌}
use lfz.Json.{append_escaped}
use lfz.Json.Value.{Json, Items, Fields, nothing, null, boolean, number, string, array, object}
use lfz.Json.Value.{nil, cons, end, field}

-- A new line and `n` spaces, where the output is pretty.
unfoldable pub gap : Bool → ℕ → Bytes
gap pretty n = if pretty then b'\n' ∷ replicate n b' ' else []

unfoldable pub print_text : Bytes → Bytes
print_text s = b'"' ∷ (append_escaped [] s ++ (b'"' ∷ []))

-- `!c`.
abbrev pub is_unset : Json → Bool
is_unset nothing = true
is_unset _ = false

-- Before an element that is not the first one.
unfoldable pub separator : Bool → Bool → ℕ → Bytes
separator first pretty depth = if first then [] else b',' ∷ gap pretty (depth * 2 + 2)

unfoldable mutual
  pub json_to_string : Bool → ℕ → Json → Bytes
  json_to_string pretty depth nothing = []
  json_to_string pretty depth null = codes "null"
  json_to_string pretty depth (boolean b) = if b then codes "true" else codes "false"
  json_to_string pretty depth (number v) = v
  json_to_string pretty depth (string s) = print_text s
  json_to_string pretty depth (array xs) =
      b'['
      ∷ (gap pretty (depth * 2 + 2)
          ++ (print_items pretty depth true xs ++ (gap pretty (depth * 2) ++ (b']' ∷ []))))
  json_to_string pretty depth (object fs) =
      b'{'
      ∷ (gap pretty (depth * 2 + 2)
          ++ (print_fields pretty depth true fs ++ (gap pretty (depth * 2) ++ (b'}' ∷ []))))

  pub print_items : Bool → ℕ → Bool → Items → Bytes
  print_items pretty depth first nil = []
  print_items pretty depth first (cons x xs) =
      separator first pretty depth
      ++ ((if is_unset x then codes "null" else json_to_string pretty (suc depth) x)
          ++ print_items pretty depth false xs)

  pub print_fields : Bool → ℕ → Bool → Fields → Bytes
  print_fields pretty depth first end = []
  print_fields pretty depth first (field k v fs) =
      (if is_unset v
        then []
        else separator first pretty depth
          ++ (print_text k
              ++ (b':'
                  ∷ ((if pretty then b' ' ∷ [] else []) ++ json_to_string pretty (suc depth) v))))
      ++ print_fields pretty depth (if is_unset v then first else false) fs
