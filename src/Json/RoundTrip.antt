-- ===== src/Json/RoundTrip.antt =====
-- JSON output that is parsed again.
use lfz.Prelude.{
  ℕ, zero, suc, ◌+◌, ◌*◌, ◌<◌, ◌≤◌, ◌≡◌, ◌||◌, ◌==◌, refl, sym, ap, ◌∙◌, Bool, true, false, Bytes,
  [],
}
use lfz.Prelude.{
  ◌∷◌, ◌++◌, length, length-append, append-nil, append_assoc, arith, inl, inr, Bool-cases,
}
use lfz.Prelude.{if◌then◌else◌, All, codes}
use lfz.Json.{skip_ws, is_space, append_escaped, unescape, fresh}
use lfz.Json.Value.{Json, Items, Fields, nothing, null, boolean, number, string, array, object}
use lfz.Json.Value.{nil, cons, end, field, count_items, count_fields}
use lfz.Json.Print.{is_unset, json_to_string, print_items, print_fields, print_text, gap, separator}
use lfz.Json.Number.{is_digit, read_number}
use lfz.Json.Keys.{join_fields}
use lfz.Json.Parse.{
  Parsed, got, elements, members, parse_json, parse_value, starts_with, no_items, no_fields,
  parse_word, string_of, number_of,
}
use lfz.Json.Strings.{IsAllowed, unescape-append_escaped}
use lfz.Json.Numerals.{goes_on, read_number-append}
use lfz.Json.Spaces.{opens, skip_ws-opens, follows-gap}
use lfz.Json.Readable.{
  IsReadable, IsNumber, AllItems, AllFields, or_null, normal, normal_items, normal_fields,
}
use lfz.Json.Readable.{printed_item, number-opens, print-opens}
use lfz.Json.Items.{elements-print, opens-length, join_items}
use lfz.Json.Members.{members-print}

print-length :
    (pretty : Bool) (p d : ℕ) (j : Json) → IsReadable d j → 0 < length (json_to_string pretty p j)
print-length pretty p d j h =
    opens-length _ (ap opens (sym (append-nil _)) ∙ print-opens pretty p d j [] h)

count-items :
    (pretty first : Bool) (p d : ℕ) (xs : Items)
    → AllItems (IsReadable d) xs
    → count_items xs ≤ length (print_items pretty p first xs)
unfolding count_items print_items
count-items pretty first p d nil h = omega arith
count-items pretty first p d (cons x xs) (hx, h) =
    let body = if is_unset x then codes "null" else json_to_string pretty (suc p) x in
    let more = print_items pretty p false xs in
    omega (
      arith,
      length-append (separator first pretty p) (body ++ more),
      length-append body more,
      ap length (printed_item pretty (suc p) x),
      print-length pretty (suc p) d (or_null x) hx,
      count-items pretty false p d xs h,
    )

count-fields :
    (pretty first : Bool) (p : ℕ) (fs : Fields)
    → count_fields (normal_fields fs) ≤ length (print_fields pretty p first fs)
unfolding count_fields print_fields normal print_text
count-fields pretty first p end = omega arith
count-fields pretty first p (field k v fs) = elim (Bool-cases (is_unset v)) [
  | inl e ↦ rw (e, normal_fields, print_fields) (count-fields pretty first p fs)
  | inr e ↦
      let more = print_fields pretty p false fs in
      let text =
        print_text k
        ++ (b':' ∷ ((if pretty then b' ' ∷ [] else []) ++ json_to_string pretty (suc p) v)) in
      rw (e, normal_fields, print_fields)
        (omega (
          arith,
          length-append (separator first pretty p ++ text) more,
          length-append (separator first pretty p) text,
          count-fields pretty false p fs,
        ))
]

elements-gap :
    (value : Bytes → Parsed) (fuel : ℕ) (done : Items) (pretty : Bool) (n : ℕ) (t : Bytes)
    → elements value fuel done (gap pretty n ++ t) ≡ elements value fuel done t
unfolding elements
elements-gap value zero done pretty n t = refl
elements-gap value (suc fuel) done pretty n t =
    rw (follows-gap (no_items done) pretty n b']' t, elements) refl

members-gap :
    (value : Bytes → Parsed) (fuel : ℕ) (done : Fields) (pretty : Bool) (n : ℕ) (t : Bytes)
    → members value fuel done (gap pretty n ++ t) ≡ members value fuel done t
unfolding members
members-gap value zero done pretty n t = refl
members-gap value (suc fuel) done pretty n t =
    rw (follows-gap (no_fields done) pretty n b'}' t, members) refl

parse_json-space : (d : ℕ) (t : Bytes) → parse_json d (b' ' ∷ t) ≡ parse_json d t
unfolding parse_json skip_ws is_space
parse_json-space zero t = refl
parse_json-space (suc d) t = refl

array_text :
    (pretty : Bool) (p : ℕ) (xs : Items) (rest : Bytes)
    → json_to_string pretty p (array xs) ++ rest
      ≡ b'['
        ∷ (gap pretty (p * 2 + 2)
            ++ (print_items pretty p true xs ++ (gap pretty (p * 2) ++ (b']' ∷ rest))))
unfolding json_to_string
array_text pretty p xs rest = simp append_assoc refl

object_text :
    (pretty : Bool) (p : ℕ) (fs : Fields) (rest : Bytes)
    → json_to_string pretty p (object fs) ++ rest
      ≡ b'{'
        ∷ (gap pretty (p * 2 + 2)
            ++ (print_fields pretty p true fs ++ (gap pretty (p * 2) ++ (b'}' ∷ rest))))
unfolding json_to_string
object_text pretty p fs rest = simp append_assoc refl

array-reads :
    (d : ℕ) (pretty : Bool) (p : ℕ) (xs : Items) (rest : Bytes)
    → ((x : Json) (t : Bytes)
        → IsReadable d x
        → goes_on t ≡ false
        → parse_json d (json_to_string pretty (suc p) x ++ t) ≡ got (normal x) t)
    → AllItems (IsReadable d) xs
    → parse_json (suc d) (json_to_string pretty p (array xs) ++ rest)
      ≡ got (array (normal_items xs)) rest
unfolding parse_json parse_value skip_ws is_space join_items
array-reads d pretty p xs rest reads h =
    let space = gap pretty (p * 2 + 2) in
    let text = print_items pretty p true xs ++ (gap pretty (p * 2) ++ (b']' ∷ rest)) in
    ap (parse_json (suc d)) (array_text pretty p xs rest)
    ∙ elements-gap (parse_json d) (suc (length (space ++ text))) nil pretty (p * 2 + 2) text
    ∙ elements-print pretty p (parse_json d) (IsReadable d) (print-opens pretty (suc p) d) reads
        (suc (length (space ++ text))) nil xs rest
        (omega (
          arith,
          length-append space text,
          length-append (print_items pretty p true xs) (gap pretty (p * 2) ++ (b']' ∷ rest)),
          count-items pretty true p d xs h,
        ))
        h

object-reads :
    (d : ℕ) (pretty : Bool) (p : ℕ) (fs : Fields) (rest : Bytes)
    → ((x : Json) (t : Bytes)
        → IsReadable d x
        → goes_on t ≡ false
        → parse_json d (json_to_string pretty (suc p) x ++ t) ≡ got (normal x) t)
    → AllFields (IsReadable d) fs
    → parse_json (suc d) (json_to_string pretty p (object fs) ++ rest)
      ≡ got (object (normal_fields fs)) rest
unfolding parse_json parse_value skip_ws is_space join_fields
object-reads d pretty p fs rest reads h =
    let space = gap pretty (p * 2 + 2) in
    let text = print_fields pretty p true fs ++ (gap pretty (p * 2) ++ (b'}' ∷ rest)) in
    ap (parse_json (suc d)) (object_text pretty p fs rest)
    ∙ members-gap (parse_json d) (suc (length (space ++ text))) end pretty (p * 2 + 2) text
    ∙ members-print pretty p (parse_json d) (IsReadable d) (parse_json-space d) reads
        (suc (length (space ++ text))) end fs rest
        (omega (
          arith,
          length-append space text,
          length-append (print_fields pretty p true fs) (gap pretty (p * 2) ++ (b'}' ∷ rest)),
          count-fields pretty true p fs,
        ))
        h tt

number_value :
    (value : Bytes → Parsed) (c : ℕ) (t : Bytes)
    → (is_digit c || c == b'-') ≡ true
    → parse_value value (c ∷ t) ≡ number_of (read_number c t)
unfolding parse_value is_digit
number_value value c t h = ground (arith, h)

number-reads :
    (d : ℕ) (v rest : Bytes)
    → IsNumber v
    → goes_on rest ≡ false
    → parse_json (suc d) (v ++ rest) ≡ got (number v) rest
unfolding parse_json
number-reads d [] rest h k = absurd h
number-reads d (c ∷ s) rest (hc, h) k =
    ap (parse_value (parse_json d)) (skip_ws-opens _ (number-opens (c ∷ s) rest (hc, h)))
    ∙ number_value (parse_json d) c (s ++ rest) hc
    ∙ ap number_of (read_number-append c s (c ∷ s) rest k h)
    ∙ unfold number_of in refl

string-reads :
    (d : ℕ) (s rest : Bytes)
    → All (IsAllowed false) s
    → parse_json (suc d) (print_text s ++ rest) ≡ got (string s) rest
unfolding parse_json parse_value skip_ws is_space print_text string_of
string-reads d s rest h =
    ap (λ t. string_of (unescape false fresh t []))
      (append_assoc (append_escaped [] s) (b'"' ∷ []) rest)
    ∙ ap string_of (unescape-append_escaped false s rest h)

null-reads : (d : ℕ) (rest : Bytes) → parse_json (suc d) (codes "null" ++ rest) ≡ got null rest
unfolding parse_json parse_value skip_ws is_space is_digit parse_word starts_with
null-reads d rest = refl

boolean-reads :
    (d : ℕ) (b : Bool) (rest : Bytes)
    → parse_json (suc d) ((if b then codes "true" else codes "false") ++ rest)
      ≡ got (boolean b) rest
unfolding parse_json parse_value skip_ws is_space is_digit parse_word starts_with
boolean-reads d true rest = refl
boolean-reads d false rest = refl

-- A value within the depth, with numbers of JSON, strings without null bytes and the keys of objects
-- in ascending order, is read back from what to_string gives, pretty or not, in front of any text
-- that does not go on with a character of numbers: without the unset members of objects, and with
-- null for the unset elements of arrays.
pub parse_json-to_string :
    (d : ℕ) (pretty : Bool) (p : ℕ) (j : Json) (rest : Bytes)
    → IsReadable d j
    → goes_on rest ≡ false
    → parse_json d (json_to_string pretty p j ++ rest) ≡ got (normal j) rest
unfolding normal
parse_json-to_string zero pretty p j rest h k = absurd h
parse_json-to_string (suc d) pretty p nothing rest h k = absurd h
parse_json-to_string (suc d) pretty p null rest h k = unfold json_to_string in null-reads d rest
parse_json-to_string (suc d) pretty p (boolean b) rest h k =
    unfold json_to_string in boolean-reads d b rest
parse_json-to_string (suc d) pretty p (number v) rest h k =
    unfold json_to_string in number-reads d v rest h k
parse_json-to_string (suc d) pretty p (string s) rest h k =
    unfold json_to_string in string-reads d s rest h
parse_json-to_string (suc d) pretty p (array xs) rest h k =
    array-reads d pretty p xs rest (parse_json-to_string d pretty (suc p)) h
parse_json-to_string (suc d) pretty p (object fs) rest h k =
    object-reads d pretty p fs rest (parse_json-to_string d pretty (suc p)) h
