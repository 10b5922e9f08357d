-- ===== src/Json/Total.antt =====
-- The JSON parser ends on every text.
use lfz.Prelude.{ℕ, zero, suc, ◌<◌, ◌≡◌, refl, false, Bytes, [], ◌∷◌, ◌||◌, ◌==◌}
use lfz.Prelude.{
  length, length-drop, arith, inl, inr, ◌⊎◌, Option, some, none, if-cases, Option-cases, codes,
}
use mathlib.Core.Path.{subst}
use lfz.Json.{skip_ws, fresh}
use lfz.Json.Value.{Json, Items, Fields, emplace, nil, end}
use lfz.Json.Number.{is_digit}
use lfz.Json.Parse.{
  Parsed, got, refused, stuck, Follows, bad, closes, element, follows, elements, members,
}
use lfz.Json.Parse.{
  add_item, no_items, no_fields, read_name, string_of, number_of, starts_with, parse_word,
}
use lfz.Json.Parse.{parse_value, parse_json}
use lfz.Json.Reading.{
  Ends, Ends-mono, Leaves, Leaves-mono, Shrinks, length-skip_ws, unescape-Leaves,
  read_number-Leaves,
}
use lfz.Json.Reading.{read_name-Leaves, follows-Shrinks}

pub Follows-cases :
    (r : Follows) → (r ≡ bad) ⊎ (((s : Bytes) × (r ≡ closes s)) ⊎ ((s : Bytes) × (r ≡ element s)))
Follows-cases bad = inl refl
Follows-cases (closes s) = inr (inl (s, refl))
Follows-cases (element s) = inr (inr (s, refl))

-- A value that ended was refused, or left fewer than `n` units.
Ended-cases :
    (n : ℕ) (r : Parsed)
    → Ends n r
    → (r ≡ refused) ⊎ ((v : Json) × (rest : Bytes) × (r ≡ got v rest) × (length rest < n))
Ended-cases n (got v rest) h = inr (v, rest, refl, h)
Ended-cases n refused h = inl refl
Ended-cases n stuck h = absurd h

module _ (value : Bytes → Parsed) (ends : (t : Bytes) → Ends (length t) (value t)) where
  elements-Ends :
      (fuel : ℕ) (done : Items) (text : Bytes)
      → length text < fuel
      → Ends (length text) (elements value fuel done text)
  unfolding elements
  elements-Ends zero done text h = absurd (omega (arith, h))
  elements-Ends (suc fuel) done text h =
      let shrinks = follows-Shrinks (no_items done) b']' text in
      elim (Follows-cases (follows (no_items done) b']' text)) [
        | inl e ↦ rw (e, elements) tt
        | inr (inl (s, e)) ↦ rw (e, elements) (subst (Shrinks (length text)) e shrinks)
        | inr (inr (s, e)) ↦
            let shorter = subst (Shrinks (length text)) e shrinks in
            elim (Ended-cases (length s) (value s) (ends s)) [
              | inl f ↦ rw (e, f, elements) tt
              | inr (v, rest, f, less) ↦
                  rw (e, f, elements)
                    (Ends-mono _ _ _ (omega (arith, less, shorter))
                      (elements-Ends fuel (add_item done v) rest (omega (arith, less, shorter, h))))
            ]
      ]

  members-Ends :
      (fuel : ℕ) (done : Fields) (text : Bytes)
      → length text < fuel
      → Ends (length text) (members value fuel done text)
  unfolding members
  members-Ends zero done text h = absurd (omega (arith, h))
  members-Ends (suc fuel) done text h =
      let shrinks = follows-Shrinks (no_fields done) b'}' text in
      elim (Follows-cases (follows (no_fields done) b'}' text)) [
        | inl e ↦ rw (e, members) tt
        | inr (inl (s, e)) ↦ rw (e, members) (subst (Shrinks (length text)) e shrinks)
        | inr (inr (s, e)) ↦
            let shorter = subst (Shrinks (length text)) e shrinks in
            elim (Option-cases (read_name s)) [
              | inl f ↦ rw (e, f, members) tt
              | inr ((name, r), f) ↦
                  let named = subst (Leaves (length s)) f (read_name-Leaves s) in
                  elim (Ended-cases (length r) (value r) (ends r)) [
                    | inl g ↦ rw (e, f, g, members) tt
                    | inr (v, rest, g, less) ↦ elim (Option-cases (emplace name v done)) [
                      | inl k ↦ rw (e, f, g, k, members) tt
                      | inr (more, k) ↦
                          rw (e, f, g, k, members)
                            (Ends-mono _ _ _ (omega (arith, less, shorter, named)) (
                              members-Ends fuel more rest (omega (arith, less, shorter, named, h))))
                    ]
                  ]
            ]
      ]

string_of-Ends : (n : ℕ) (r : Option (Bytes × Bytes)) → Leaves n r → Ends n (string_of r)
unfolding string_of
string_of-Ends n none h = tt
string_of-Ends n (some (s, rest)) h = h

number_of-Ends : (n : ℕ) (r : Option (Bytes × Bytes)) → Leaves n r → Ends n (number_of r)
unfolding number_of
number_of-Ends n none h = tt
number_of-Ends n (some (v, rest)) h = h

parse_word-Ends : (t : Bytes) → 0 < length t → Ends (length t) (parse_word t)
unfolding parse_word
parse_word-Ends t h =
    let P = Ends (length t) in
    if-cases P (starts_with (codes "null") t) _ _ (λ e. omega (arith, h, length-drop 4 t))
      (λ e.
        if-cases P (starts_with (codes "true") t) _ _ (λ e. omega (arith, h, length-drop 4 t))
          (λ e.
            if-cases P (starts_with (codes "false") t) _ _ (λ e. omega (arith, h, length-drop 5 t))
              (λ e. tt)))

parse_value-Ends :
    (value : Bytes → Parsed) (ends : (t : Bytes) → Ends (length t) (value t)) (t : Bytes)
    → Ends (length t) (parse_value value t)
unfolding parse_value
parse_value-Ends value ends [] = tt
parse_value-Ends value ends (c ∷ s) =
    let P = Ends (suc (length s)) in
    let looped = λ (r : Parsed). Ends-mono (length s) (suc (length s)) r (omega arith) in
    if-cases P (c == b'"') _ _
      (λ e. string_of-Ends _ _ (Leaves-mono _ _ _ (omega arith) (unescape-Leaves false fresh s [])))
      (λ e.
        if-cases P (c == b'{') _ _
          (λ e. looped _ (members-Ends value ends (suc (length s)) end s (omega arith)))
          (λ e.
            if-cases P (c == b'[') _ _
              (λ e. looped _ (elements-Ends value ends (suc (length s)) nil s (omega arith)))
              (λ e.
                if-cases P (is_digit c || c == b'-') _ _
                  (λ e. number_of-Ends _ _ (read_number-Leaves c s))
                  (λ e. parse_word-Ends (c ∷ s) (omega arith)))))

-- The parser ends on every text, at any depth, and each value that it gives has read one unit of the
-- text at least.
pub parse_json-Ends : (d : ℕ) (t : Bytes) → Ends (length t) (parse_json d t)
unfolding parse_json
parse_json-Ends zero t = tt
parse_json-Ends (suc d) t =
    Ends-mono _ _ _ (length-skip_ws t)
      (parse_value-Ends (parse_json d) (parse_json-Ends d) (skip_ws t))
