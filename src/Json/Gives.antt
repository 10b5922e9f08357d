-- ===== src/Json/Gives.antt =====
-- Whatever the JSON parser gives is well built.
use lfz.Prelude.{ℕ, zero, suc, ◌≡◌, refl, false, Bytes, [], ◌∷◌, length, ◌==◌, ◌||◌}
use lfz.Prelude.{inl, inr, ◌⊎◌, Option, some, none, if-cases, Option-cases, codes}
use mathlib.Core.Path.{subst}
use lfz.Json.{skip_ws, unescape, fresh}
use lfz.Json.Value.{Json, Items, Fields, nil, end}
use lfz.Json.Value.{emplace}
use lfz.Json.Number.{is_digit, read_number}
use lfz.Json.Parse.{Parsed, got, refused, stuck, follows, elements, members}
use lfz.Json.Parse.{
  add_item, no_items, no_fields, read_name, string_of, number_of, starts_with, parse_word,
}
use lfz.Json.Parse.{parse_value, parse_json}
use lfz.Json.Total.{Follows-cases}
use lfz.Json.Built.{IsBuilt, BuiltItems, BuiltFields, Gives, Puts, emplace-Built, add_item-Built}

Parsed-cases :
    (r : Parsed) → (r ≡ refused) ⊎ ((r ≡ stuck) ⊎ ((v : Json) × (rest : Bytes) × (r ≡ got v rest)))
Parsed-cases (got v rest) = inr (inr (v, rest, refl))
Parsed-cases refused = inl refl
Parsed-cases stuck = inr (inl refl)

module _ (d : ℕ) (value : Bytes → Parsed) (gives : (t : Bytes) → Gives (IsBuilt d) (value t)) where
  elements-Gives :
      (fuel : ℕ) (done : Items) (text : Bytes)
      → BuiltItems (IsBuilt d) done
      → Gives (IsBuilt (suc d)) (elements value fuel done text)
  unfolding elements
  elements-Gives zero done text h = tt
  elements-Gives (suc fuel) done text h = elim (Follows-cases (follows (no_items done) b']' text)) [
    | inl e ↦ rw (e, elements) tt
    | inr (inl (s, e)) ↦ rw (e, elements) h
    | inr (inr (s, e)) ↦ elim (Parsed-cases (value s)) [
      | inl f ↦ rw (e, f, elements) tt
      | inr (inl f) ↦ rw (e, f, elements) tt
      | inr (inr (v, rest, f)) ↦
          rw (e, f, elements)
            (elements-Gives fuel (add_item done v) rest
              (add_item-Built (IsBuilt d) done v h (subst (Gives (IsBuilt d)) f (gives s))))
    ]
  ]

  members-Gives :
      (fuel : ℕ) (done : Fields) (text : Bytes)
      → BuiltFields (IsBuilt d) done
      → Gives (IsBuilt (suc d)) (members value fuel done text)
  unfolding members
  members-Gives zero done text h = tt
  members-Gives (suc fuel) done text h = elim (Follows-cases (follows (no_fields done) b'}' text)) [
    | inl e ↦ rw (e, members) tt
    | inr (inl (s, e)) ↦ rw (e, members) h
    | inr (inr (s, e)) ↦ elim (Option-cases (read_name s)) [
      | inl f ↦ rw (e, f, members) tt
      | inr ((name, r), f) ↦ elim (Parsed-cases (value r)) [
        | inl g ↦ rw (e, f, g, members) tt
        | inr (inl g) ↦ rw (e, f, g, members) tt
        | inr (inr (v, rest, g)) ↦ elim (Option-cases (emplace name v done)) [
          | inl k ↦ rw (e, f, g, k, members) tt
          | inr (more, k) ↦
              rw (e, f, g, k, members)
                (members-Gives fuel more rest (
                  subst (Puts (BuiltFields (IsBuilt d))) k (
                    emplace-Built (IsBuilt d) name v done (subst (Gives (IsBuilt d)) g (gives r))
                      h)))
        ]
      ]
    ]
  ]

string_of-Gives : (d : ℕ) (r : Option (Bytes × Bytes)) → Gives (IsBuilt (suc d)) (string_of r)
unfolding string_of
string_of-Gives d none = tt
string_of-Gives d (some (s, rest)) = tt

number_of-Gives : (d : ℕ) (r : Option (Bytes × Bytes)) → Gives (IsBuilt (suc d)) (number_of r)
unfolding number_of
number_of-Gives d none = tt
number_of-Gives d (some (v, rest)) = tt

parse_word-Gives : (d : ℕ) (t : Bytes) → Gives (IsBuilt (suc d)) (parse_word t)
unfolding parse_word
parse_word-Gives d t =
    let P = Gives (IsBuilt (suc d)) in
    if-cases P (starts_with (codes "null") t) _ _ (λ e. tt)
      (λ e.
        if-cases P (starts_with (codes "true") t) _ _ (λ e. tt)
          (λ e. if-cases P (starts_with (codes "false") t) _ _ (λ e. tt) (λ e. tt)))

parse_value-Gives :
    (d : ℕ) (value : Bytes → Parsed)
    → ((t : Bytes) → Gives (IsBuilt d) (value t))
    → (t : Bytes) → Gives (IsBuilt (suc d)) (parse_value value t)
unfolding parse_value
parse_value-Gives d value gives [] = tt
parse_value-Gives d value gives (c ∷ s) =
    let P = Gives (IsBuilt (suc d)) in
    if-cases P (c == b'"') _ _ (λ e. string_of-Gives d (unescape false fresh s []))
      (λ e.
        if-cases P (c == b'{') _ _ (λ e. members-Gives d value gives (suc (length s)) end s tt)
          (λ e.
            if-cases P (c == b'[') _ _ (λ e. elements-Gives d value gives (suc (length s)) nil s tt)
              (λ e.
                if-cases P (is_digit c || c == b'-') _ _ (λ e. number_of-Gives d (read_number c s))
                  (λ e. parse_word-Gives d (c ∷ s)))))

-- Every value that the parser gives has `max_depth` levels at most, no unset value inside, and objects
-- with keys in ascending order, so without a key twice.
pub parse_json-Gives :
    (max_depth : ℕ) (t : Bytes) → Gives (IsBuilt max_depth) (parse_json max_depth t)
unfolding parse_json
parse_json-Gives zero t = tt
parse_json-Gives (suc d) t = parse_value-Gives d (parse_json d) (parse_json-Gives d) (skip_ws t)
