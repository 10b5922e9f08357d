-- ===== src/Json/Keys.antt =====
-- The order of the keys of an object, and members that are put at its end.
use lfz.Prelude.{◌≡◌, refl, ap, true, false, Bytes, [], ◌∷◌}
use lfz.Prelude.{some, arith}
use lfz.Json.Value.{Json, Fields, end, field, less, emplace}

pub less-asym : (a b : Bytes) → less a b ≡ true → less b a ≡ false
unfolding less
less-asym [] [] h = refl
less-asym [] (y ∷ t) h = refl
less-asym (x ∷ s) [] h = cc h
less-asym (x ∷ s) (y ∷ t) h = ground (arith, h, less-asym s t)

unfoldable pub join_fields : Fields → Fields → Fields
join_fields end gs = gs
join_fields (field k v fs) gs = field k v (join_fields fs gs)

pub join_fields_assoc :
    (fs gs hs : Fields) → join_fields (join_fields fs gs) hs ≡ join_fields fs (join_fields gs hs)
unfolding join_fields
join_fields_assoc end gs hs = refl
join_fields_assoc (field k v fs) gs hs = ap (field k v) (join_fields_assoc fs gs hs)

-- Every key is above `k`.
abbrev pub IsAbove : Bytes → Fields → Type 0
IsAbove k end = Unit
IsAbove k (field name v fs) = (less k name ≡ true) × IsAbove k fs

-- Every key of the first members is below every key of the second ones.
abbrev pub IsBefore : Fields → Fields → Type 0
IsBefore end gs = Unit
IsBefore (field k v fs) gs = IsAbove k gs × IsBefore fs gs

pub emplace-end :
    (name : Bytes) (v w : Json) (fs gs : Fields)
    → IsBefore fs (field name w gs)
    → emplace name v fs ≡ some (join_fields fs (field name v end))
unfolding emplace join_fields
emplace-end name v w end gs h = refl
emplace-end name v w (field k u fs) gs ((hk, above), h) =
    rw (less-asym k name hk, hk, emplace-end name v w fs gs h, emplace) refl

pub tail-IsBefore :
    (name : Bytes) (w : Json) (fs gs : Fields) → IsBefore fs (field name w gs) → IsBefore fs gs
tail-IsBefore name w end gs h = tt
tail-IsBefore name w (field k u fs) gs ((hk, above), h) = (above, tail-IsBefore name w fs gs h)

pub join-IsBefore :
    (name : Bytes) (v w : Json) (fs gs : Fields)
    → IsAbove name gs
    → IsBefore fs (field name w gs)
    → IsBefore (join_fields fs (field name v end)) gs
unfolding join_fields
join-IsBefore name v w end gs h k = (h, tt)
join-IsBefore name v w (field k u fs) gs h ((hk, above), rest) =
    (above, join-IsBefore name v w fs gs h rest)

pub join_fields-end : (fs : Fields) → join_fields fs end ≡ fs
unfolding join_fields
join_fields-end end = refl
join_fields-end (field k v fs) = ap (field k v) (join_fields-end fs)
