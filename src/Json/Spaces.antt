-- ===== src/Json/Spaces.antt =====
-- White space and separators that JSON output has between its parts.
use lfz.Prelude.{ℕ, suc, ◌+◌, ◌*◌, ◌≡◌, refl, ap, ◌∙◌, Bool, true, false, Bytes, [], ◌∷◌, ◌++◌}
use lfz.Prelude.{◌==◌, ◌||◌, replicate, All, arith, not, ◌⊎◌, zero}
use lfz.Json.{skip_ws, is_space}
use lfz.Json.Print.{gap, separator}
use lfz.Json.Parse.{follows, follows_at, after_comma, element, closes}

-- Whether a text starts like a value: with no space and no closing bracket.
unfoldable pub opens : Bytes → Bool
opens [] = false
opens (c ∷ s) = not (is_space c || (c == b']' || c == b'}'))

abbrev IsBlank : Bytes → Type 0
IsBlank = All (λ c. is_space c ≡ true)

spaces-IsBlank : (n : ℕ) → IsBlank (replicate n b' ')
unfolding is_space
spaces-IsBlank zero = tt
spaces-IsBlank (suc n) = (refl, spaces-IsBlank n)

gap-IsBlank : (pretty : Bool) (n : ℕ) → IsBlank (gap pretty n)
unfolding gap is_space
gap-IsBlank true n = (refl, spaces-IsBlank n)
gap-IsBlank false n = tt

skip_ws-blank : (ws t : Bytes) → IsBlank ws → skip_ws (ws ++ t) ≡ skip_ws t
unfolding skip_ws
skip_ws-blank [] t h = refl
skip_ws-blank (c ∷ ws) t (hc, hs) = rw (hc, skip_ws) (skip_ws-blank ws t hs)

pub skip_ws-gap : (pretty : Bool) (n : ℕ) (t : Bytes) → skip_ws (gap pretty n ++ t) ≡ skip_ws t
skip_ws-gap pretty n t = skip_ws-blank (gap pretty n) t (gap-IsBlank pretty n)

pub skip_ws-opens : (t : Bytes) → opens t ≡ true → skip_ws t ≡ t
unfolding skip_ws opens
skip_ws-opens [] h = refl
skip_ws-opens (c ∷ t) h = ground (arith, h)

abbrev pub IsClose : ℕ → Type 0
IsClose close = (close ≡ b']') ⊎ (close ≡ b'}')

first-opens :
    (close : ℕ) (t : Bytes) → IsClose close → opens t ≡ true → follows_at true close t ≡ element t
unfolding follows_at opens
first-opens close [] k h = cc h
first-opens close (c ∷ t) k h = ground (arith, h, k)

after_comma-opens :
    (close : ℕ) (t : Bytes) → IsClose close → opens t ≡ true → after_comma close t ≡ element t
unfolding after_comma opens
after_comma-opens close [] k h = cc h
after_comma-opens close (c ∷ t) k h = ground (arith, h, k)

-- A comma before a text, for the loops over elements and members.
follows_at-comma :
    (close : ℕ) (t : Bytes)
    → IsClose close
    → follows_at false close (b',' ∷ t) ≡ after_comma close (skip_ws t)
unfolding follows_at
follows_at-comma close t k = ground (arith, k)

-- Up to an element, in front of which a separator stands where it is not the first one.
pub follows-separator :
    (first pretty : Bool) (p close : ℕ) (t : Bytes)
    → IsClose close
    → opens t ≡ true
    → follows first close (separator first pretty p ++ t) ≡ element t
unfolding separator follows skip_ws is_space
follows-separator true pretty p close t k h =
    ap (follows_at true close) (skip_ws-opens t h) ∙ first-opens close t k h
follows-separator false pretty p close t k h =
    follows_at-comma close (gap pretty (p * 2 + 2) ++ t) k
    ∙ ap (after_comma close) (skip_ws-gap pretty (p * 2 + 2) t ∙ skip_ws-opens t h)
    ∙ after_comma-opens close t k h

closes_at : (first : Bool) (close : ℕ) (t : Bytes) → follows_at first close (close ∷ t) ≡ closes t
unfolding follows_at
closes_at first close t = ground arith

skip_ws-close : (close : ℕ) (t : Bytes) → IsClose close → skip_ws (close ∷ t) ≡ close ∷ t
unfolding skip_ws is_space
skip_ws-close close t k = ground (arith, k)

pub follows-close :
    (first pretty : Bool) (n close : ℕ) (t : Bytes)
    → IsClose close
    → follows first close (gap pretty n ++ (close ∷ t)) ≡ closes t
unfolding follows
follows-close first pretty n close t k =
    ap (follows_at first close) (skip_ws-gap pretty n (close ∷ t) ∙ skip_ws-close close t k)
    ∙ closes_at first close t

pub follows-gap :
    (first pretty : Bool) (n close : ℕ) (t : Bytes)
    → follows first close (gap pretty n ++ t) ≡ follows first close t
unfolding follows
follows-gap first pretty n close t = ap (follows_at first close) (skip_ws-gap pretty n t)
