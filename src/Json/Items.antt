-- ===== src/Json/Items.antt =====
-- The elements of an array that was printed, read again.
use lfz.Prelude.{ℕ, zero, suc, ◌*◌, ◌<◌, ◌≡◌, refl, sym, ap, ◌∙◌, Bool, true, false, Bytes, []}
use lfz.Prelude.{◌∷◌, ◌++◌, length, append_assoc, arith, inl}
use mathlib.Core.Path.{subst}
use lfz.Json.Value.{Json, Items, array, nil, cons, count_items}
use lfz.Json.Print.{json_to_string, print_items, gap, separator}
use lfz.Json.Parse.{Parsed, got, elements, add_item, no_items, follows, element, closes}
use lfz.Json.Number.{is_digit}
use lfz.Json.Numerals.{goes_on}
use lfz.Json.Spaces.{opens, follows-separator, follows-close}
use lfz.Json.Readable.{AllItems, or_null, normal, normal_items, normal_item, printed_item}

unfoldable pub join_items : Items → Items → Items
join_items nil ys = ys
join_items (cons x xs) ys = cons x (join_items xs ys)

join-add_item :
    (xs : Items) (y : Json) (ys : Items) → join_items (add_item xs y) ys ≡ join_items xs (cons y ys)
unfolding join_items add_item
join-add_item nil y ys = refl
join-add_item (cons x xs) y ys = ap (cons x) (join-add_item xs y ys)

join_items-nil : (xs : Items) → join_items xs nil ≡ xs
unfolding join_items
join_items-nil nil = refl
join_items-nil (cons x xs) = ap (cons x) (join_items-nil xs)

no_items-add_item : (xs : Items) (y : Json) → no_items (add_item xs y) ≡ false
unfolding add_item
no_items-add_item nil y = refl
no_items-add_item (cons x xs) y = refl

pub opens-length : (t : Bytes) → opens t ≡ true → 0 < length t
unfolding opens
opens-length [] h = cc h
opens-length (c ∷ t) h = omega arith

-- What reads each value reads the elements.
module _ (pretty : Bool) (p : ℕ) (value : Bytes → Parsed) (P : Json → Type 0)
    (P-opens : (x : Json) (t : Bytes) → P x → opens (json_to_string pretty (suc p) x ++ t) ≡ true)
    (reads : (x : Json) (rest : Bytes)
      → P x
      → goes_on rest ≡ false
      → value (json_to_string pretty (suc p) x ++ rest) ≡ got (normal x) rest) where
  -- Behind an element.
  abbrev tail : Items → Bytes → Bytes
  tail xs rest = print_items pretty p false xs ++ (gap pretty (p * 2) ++ (b']' ∷ rest))

  tail_stops : (xs : Items) (rest : Bytes) → goes_on (tail xs rest) ≡ false
  unfolding print_items gap separator goes_on is_digit
  tail_stops nil rest = elim pretty as (λ b. goes_on (gap b (p * 2) ++ (b']' ∷ rest)) ≡ false) [
    | true ↦ refl
    | false ↦ refl
  ]
  tail_stops (cons x xs) rest = refl

  print_items-cons :
      (first : Bool) (x : Json) (xs : Items) (rest : Bytes)
      → print_items pretty p first (cons x xs) ++ (gap pretty (p * 2) ++ (b']' ∷ rest))
        ≡ separator first pretty p ++ (json_to_string pretty (suc p) (or_null x) ++ tail xs rest)
  unfolding print_items
  print_items-cons first x xs rest =
      append_assoc (separator first pretty p) _ _
      ∙ ap (separator first pretty p ++◌) (
          append_assoc _ (print_items pretty p false xs) _
          ∙ ap (◌++ tail xs rest) (printed_item pretty (suc p) x))

  elements-close :
      (fuel : ℕ) (done : Items) (text s : Bytes)
      → follows (no_items done) b']' text ≡ closes s
      → elements value (suc fuel) done text ≡ got (array done) s
  unfolding elements
  elements-close fuel done text s e = rw (e, elements) refl

  elements-element :
      (fuel : ℕ) (done : Items) (text s rest : Bytes) (x : Json)
      → follows (no_items done) b']' text ≡ element s
      → value s ≡ got x rest
      → elements value (suc fuel) done text ≡ elements value fuel (add_item done x) rest
  unfolding elements
  elements-element fuel done text s rest x e k = rw (e, k, elements) refl

  -- An array of the elements read so far and the ones that follow.
  pub elements-print :
      (fuel : ℕ) (done xs : Items) (rest : Bytes)
      → count_items xs < fuel
      → AllItems P xs
      → elements value fuel done
          (print_items pretty p (no_items done) xs ++ (gap pretty (p * 2) ++ (b']' ∷ rest)))
        ≡ got (array (join_items done (normal_items xs))) rest
  unfolding count_items
  elements-print zero done xs rest h k = absurd (omega (arith, h))
  elements-print (suc fuel) done nil rest h k =
      unfold print_items in
      elements-close fuel done (gap pretty (p * 2) ++ (b']' ∷ rest)) rest
        (follows-close (no_items done) pretty (p * 2) b']' rest (inl refl))
      ∙ unfold normal in ap (λ ys. got (array ys) rest) (sym (join_items-nil done))
  elements-print (suc fuel) done (cons x xs) rest h (kx, k) =
      let y = normal (or_null x) in
      let more = elements-print fuel (add_item done y) xs rest (omega (arith, h)) k in
      elements-element fuel done _ _ (tail xs rest) y
        (ap (follows (no_items done) b']') (print_items-cons (no_items done) x xs rest)
          ∙ follows-separator (no_items done) pretty p b']' _ (inl refl) (P-opens _ _ kx))
        (reads (or_null x) (tail xs rest) kx (tail_stops xs rest))
      ∙ subst
          (λ b.
            elements value fuel (add_item done y)
              (print_items pretty p b xs ++ (gap pretty (p * 2) ++ (b']' ∷ rest)))
            ≡ got (array (join_items (add_item done y) (normal_items xs))) rest)
          (no_items-add_item done y) more
      ∙ ap (λ ys. got (array ys) rest)
          (join-add_item done y (normal_items xs)
            ∙ unfold normal in
              ap (λ z. join_items done (cons z (normal_items xs))) (sym (normal_item x)))
