-- ===== src/Json/Built.antt =====
-- The values that `parse` of lib/json.cpp builds.
use lfz.Prelude.{ℕ, zero, suc, ◌≡◌, refl, arith, true, Bytes, [], ◌∷◌}
use lfz.Prelude.{inl, inr, Option, some, none, Option-cases, Bool-cases}
use mathlib.Core.Path.{subst}
use lfz.Json.Value.{
  Json, Items, Fields, nothing, null, boolean, number, string, array, object, nil, cons, end,
}
use lfz.Json.Value.{field, less, emplace}
use lfz.Json.Parse.{Parsed, got, refused, stuck}
use lfz.Json.Parse.{add_item}
use lfz.Json.Keys.{IsAbove}

abbrev pub BuiltItems : (Json → Type 0) → Items → Type 0
BuiltItems P nil = Unit
BuiltItems P (cons x xs) = P x × BuiltItems P xs

-- The keys ascend, so no two are equal.
abbrev pub BuiltFields : (Json → Type 0) → Fields → Type 0
BuiltFields P end = Unit
BuiltFields P (field k v fs) = P v × IsAbove k fs × BuiltFields P fs

-- At most `d` levels, no unset value inside, and objects with ascending keys.
abbrev pub IsBuilt : ℕ → Json → Type 0
IsBuilt zero j = ⊥
IsBuilt (suc d) nothing = ⊥
IsBuilt (suc d) null = Unit
IsBuilt (suc d) (boolean b) = Unit
IsBuilt (suc d) (number v) = Unit
IsBuilt (suc d) (string s) = Unit
IsBuilt (suc d) (array xs) = BuiltItems (IsBuilt d) xs
IsBuilt (suc d) (object fs) = BuiltFields (IsBuilt d) fs

-- A value that is given has the property.
abbrev pub Gives : (Json → Type 0) → Parsed → Type 0
Gives P (got j rest) = P j
Gives P refused = Unit
Gives P stuck = Unit

less_trans : (a b c : Bytes) → less a b ≡ true → less b c ≡ true → less a c ≡ true
unfolding less
less_trans [] [] c h k = k
less_trans [] (y ∷ t) [] h k = cc k
less_trans [] (y ∷ t) (z ∷ u) h k = refl
less_trans (x ∷ s) [] c h k = cc h
less_trans (x ∷ s) (y ∷ t) [] h k = cc k
less_trans (x ∷ s) (y ∷ t) (z ∷ u) h k = ground (arith, h, k, less_trans s t u)

IsAbove-trans : (a b : Bytes) (fs : Fields) → less a b ≡ true → IsAbove b fs → IsAbove a fs
IsAbove-trans a b end h k = tt
IsAbove-trans a b (field name v fs) h (kn, k) = (less_trans a b name h kn, IsAbove-trans a b fs h k)

-- Where a member was put, the members have the property.
abbrev pub Puts : (Fields → Type 0) → Option Fields → Type 0
Puts Q none = Unit
Puts Q (some gs) = Q gs

emplace-IsAbove :
    (a name : Bytes) (v : Json) (fs : Fields)
    → less a name ≡ true
    → IsAbove a fs
    → Puts (IsAbove a) (emplace name v fs)
unfolding emplace
emplace-IsAbove a name v end h k = (h, tt)
emplace-IsAbove a name v (field b w fs) h (kb, k) = elim (Bool-cases (less name b)) [
  | inl f ↦ rw (f, emplace) (h, (kb, k))
  | inr f ↦ elim (Bool-cases (less b name)) [
    | inl g ↦ elim (Option-cases (emplace name v fs)) [
      | inl e ↦ rw (f, g, e, emplace) tt
      | inr (gs, e) ↦
          rw (f, g, e, emplace) (kb, subst (Puts (IsAbove a)) e (emplace-IsAbove a name v fs h k))
    ]
    | inr g ↦ rw (f, g, emplace) tt
  ]
]

pub emplace-Built :
    (P : Json → Type 0) (name : Bytes) (v : Json) (fs : Fields)
    → P v
    → BuiltFields P fs
    → Puts (BuiltFields P) (emplace name v fs)
unfolding emplace
emplace-Built P name v end h k = (h, tt, tt)
emplace-Built P name v (field b w fs) h (kw, above, k) = elim (Bool-cases (less name b)) [
  | inl f ↦ rw (f, emplace) (h, (f, IsAbove-trans name b fs f above), (kw, above, k))
  | inr f ↦ elim (Bool-cases (less b name)) [
    | inl g ↦ elim (Option-cases (emplace name v fs)) [
      | inl e ↦ rw (f, g, e, emplace) tt
      | inr (gs, e) ↦
          rw (f, g, e, emplace)
            (
              kw,
              subst (Puts (IsAbove b)) e (emplace-IsAbove b name v fs g above),
              subst (Puts (BuiltFields P)) e (emplace-Built P name v fs h k),
            )
    ]
    | inr g ↦ rw (f, g, emplace) tt
  ]
]

pub add_item-Built :
    (P : Json → Type 0) (xs : Items) (x : Json)
    → BuiltItems P xs
    → P x
    → BuiltItems P (add_item xs x)
unfolding add_item
add_item-Built P nil x h k = (k, tt)
add_item-Built P (cons y ys) x (hy, h) k = (hy, add_item-Built P ys x h k)
