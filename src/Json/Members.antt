-- ===== src/Json/Members.antt =====
-- The members of an object that was printed, read again.
use lfz.Prelude.{ℕ, zero, suc, ◌*◌, ◌<◌, ◌≡◌, refl, sym, ap, ◌∙◌, Bool, true, false, Bytes, []}
use lfz.Prelude.{◌∷◌, ◌++◌, append_assoc, arith, inl, inr, if◌then◌else◌, All, Bool-cases, some}
use mathlib.Core.Path.{subst}
use lfz.Json.{skip_ws, is_space, append_escaped, unescape, fresh}
use lfz.Json.Value.{Json, Fields, object, end, field, count_fields, emplace}
use lfz.Json.Print.{is_unset, json_to_string, print_fields, print_text, gap, separator}
use lfz.Json.Number.{is_digit}
use lfz.Json.Parse.{
  Parsed, got, members, no_fields, follows, element, closes, read_name, after_name,
}
use lfz.Json.Parse.{read_colon}
use lfz.Json.Strings.{IsAllowed, unescape-append_escaped}
use lfz.Json.Numerals.{goes_on}
use lfz.Json.Spaces.{opens, follows-separator, follows-close}
use lfz.Json.Keys.{join_fields, join_fields_assoc, join_fields-end, IsBefore, emplace-end}
use lfz.Json.Keys.{tail-IsBefore, join-IsBefore}
use lfz.Json.Readable.{AllFields, normal, normal_fields}

no_fields-join :
    (fs : Fields) (k : Bytes) (v : Json) → no_fields (join_fields fs (field k v end)) ≡ false
unfolding join_fields
no_fields-join end k v = refl
no_fields-join (field _ _ fs) k v = refl

-- Behind the name and its colon.
read_name-print :
    (k t : Bytes) → All (IsAllowed false) k → read_name (print_text k ++ (b':' ∷ t)) ≡ some (k, t)
unfolding read_name print_text
read_name-print k t h =
    ap after_name (
      ap (λ s. unescape false fresh s [])
        (append_assoc (append_escaped [] k) (b'"' ∷ []) (b':' ∷ t))
      ∙ unescape-append_escaped false k (b':' ∷ t) h)
    ∙ unfold after_name read_colon skip_ws is_space in refl

pub count-unset :
    (k : Bytes) (v : Json) (fs : Fields)
    → is_unset v ≡ true
    → count_fields (normal_fields (field k v fs)) ≡ count_fields (normal_fields fs)
unfolding normal
count-unset k v fs e = rw (e, normal_fields) refl

pub count-set :
    (k : Bytes) (v : Json) (fs : Fields)
    → is_unset v ≡ false
    → count_fields (normal_fields (field k v fs)) ≡ suc (count_fields (normal_fields fs))
unfolding normal count_fields
count-set k v fs e = rw (e, normal_fields) refl

abbrev space : Bool → Bytes
space pretty = if pretty then b' ' ∷ [] else []

module _ (pretty : Bool) (p : ℕ) (value : Bytes → Parsed) (P : Json → Type 0)
    (skips : (t : Bytes) → value (b' ' ∷ t) ≡ value t)
    (reads : (x : Json) (rest : Bytes)
      → P x
      → goes_on rest ≡ false
      → value (json_to_string pretty (suc p) x ++ rest) ≡ got (normal x) rest) where
  -- Behind a member.
  abbrev tail : Bool → Fields → Bytes → Bytes
  tail first fs rest = print_fields pretty p first fs ++ (gap pretty (p * 2) ++ (b'}' ∷ rest))

  abbrev member : Bytes → Json → Fields → Bytes → Bytes
  member k v fs rest =
      print_text k
      ++ (b':' ∷ (space pretty ++ (json_to_string pretty (suc p) v ++ tail false fs rest)))

  tail-unset :
      (first : Bool) (k : Bytes) (v : Json) (fs : Fields) (rest : Bytes)
      → is_unset v ≡ true
      → tail first (field k v fs) rest ≡ tail first fs rest
  unfolding print_fields
  tail-unset first k v fs rest e = rw (e, print_fields) refl

  tail-set :
      (first : Bool) (k : Bytes) (v : Json) (fs : Fields) (rest : Bytes)
      → is_unset v ≡ false
      → tail first (field k v fs) rest ≡ separator first pretty p ++ member k v fs rest
  unfolding print_fields
  tail-set first k v fs rest e = rw (e, print_fields) (simp append_assoc refl)

  tail_stops : (fs : Fields) (rest : Bytes) → goes_on (tail false fs rest) ≡ false
  unfolding print_fields gap separator goes_on is_digit
  tail_stops end rest = elim pretty as (λ b. goes_on (gap b (p * 2) ++ (b'}' ∷ rest)) ≡ false) [
    | true ↦ refl
    | false ↦ refl
  ]
  tail_stops (field k v fs) rest = elim (Bool-cases (is_unset v)) [
    | inl e ↦ ap goes_on (tail-unset false k v fs rest e) ∙ tail_stops fs rest
    | inr e ↦ ap goes_on (tail-set false k v fs rest e)
  ]

  members-close :
      (fuel : ℕ) (done : Fields) (text s : Bytes)
      → follows (no_fields done) b'}' text ≡ closes s
      → members value (suc fuel) done text ≡ got (object done) s
  unfolding members
  members-close fuel done text s e = rw (e, members) refl

  members-element :
      (fuel : ℕ) (done more : Fields) (text s r rest k : Bytes) (x : Json)
      → follows (no_fields done) b'}' text ≡ element s
      → read_name s ≡ some (k, r)
      → value r ≡ got x rest
      → emplace k x done ≡ some more
      → members value (suc fuel) done text ≡ members value fuel more rest
  unfolding members
  members-element fuel done more text s r rest k x e f g h = rw (e, f, g, h, members) refl

  value-space : (t : Bytes) → value (space pretty ++ t) ≡ value t
  value-space t = elim pretty as (λ b. value (space b ++ t) ≡ value t) [
    | true ↦ skips t
    | false ↦ refl
  ]

  member-opens :
      (k : Bytes) (v : Json) (fs : Fields) (rest : Bytes) → opens (member k v fs rest) ≡ true
  unfolding print_text opens is_space
  member-opens k v fs rest = refl

  member-step :
      (fuel : ℕ) (done : Fields) (k : Bytes) (v : Json) (fs : Fields) (rest : Bytes)
      → AllFields P (field k v fs)
      → IsBefore done (field k v fs)
      → is_unset v ≡ false
      → members value (suc fuel) done (tail (no_fields done) (field k v fs) rest)
        ≡ members value fuel (join_fields done (field k (normal v) end)) (tail false fs rest)
  member-step fuel done k v fs rest (hk, hv, above, h) before e =
      members-element fuel done _ _ (member k v fs rest) _ (tail false fs rest) k (normal v)
        (ap (follows (no_fields done) b'}') (tail-set (no_fields done) k v fs rest e)
          ∙ follows-separator (no_fields done) pretty p b'}' _ (inr refl)
              (member-opens k v fs rest))
        (read_name-print k _ hk)
        (value-space (json_to_string pretty (suc p) v ++ tail false fs rest)
          ∙ reads v (tail false fs rest) (hv e) (tail_stops fs rest))
        (emplace-end k (normal v) v done fs before)

  -- An object of the members read so far and the ones that follow.
  pub members-print :
      (fuel : ℕ) (done fs : Fields) (rest : Bytes)
      → count_fields (normal_fields fs) < fuel
      → AllFields P fs
      → IsBefore done fs
      → members value fuel done (tail (no_fields done) fs rest)
        ≡ got (object (join_fields done (normal_fields fs))) rest
  unfolding count_fields normal join_fields
  members-print zero done fs rest h k before = absurd (omega (arith, h))
  members-print (suc fuel) done end rest h k before =
      unfold print_fields in
      members-close fuel done (gap pretty (p * 2) ++ (b'}' ∷ rest)) rest
        (follows-close (no_fields done) pretty (p * 2) b'}' rest (inr refl))
      ∙ ap (λ ys. got (object ys) rest) (sym (join_fields-end done))
  members-print (suc fuel) done (field k v fs) rest h all before = elim (Bool-cases (is_unset v)) [
    | inl e ↦
        let more =
          members-print (suc fuel) done fs rest (omega (arith, h, count-unset k v fs e)) all.3
            (tail-IsBefore k v done fs before) in
        ap (members value (suc fuel) done) (tail-unset (no_fields done) k v fs rest e)
        ∙ rw (e, normal_fields) more
    | inr e ↦
        let next = join_fields done (field k (normal v) end) in
        let more =
          members-print fuel next fs rest (omega (arith, h, count-set k v fs e)) all.3
            (join-IsBefore k (normal v) v done fs all.2 before) in
        member-step fuel done k v fs rest all before e
        ∙ subst
            (λ b.
              members value fuel next (tail b fs rest)
              ≡ got (object (join_fields next (normal_fields fs))) rest)
            (no_fields-join done k (normal v)) more
        ∙ rw (e, normal_fields)
            (ap (λ ys. got (object ys) rest)
              (join_fields_assoc done (field k (normal v) end) (normal_fields fs)))
  ]
