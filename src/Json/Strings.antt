-- ===== src/Json/Strings.antt =====
-- Escaped strings of lib/json.cpp, and what reading them gives.
use lfz.Prelude.{ℕ, ◌≡◌, sym, ap, ◌∙◌, arith, Bool, false, not, ◌&&◌, Bytes, [], ◌∷◌, ◌++◌}
use lfz.Prelude.{◌==◌, some, All, append-nil, append_assoc}
use lfz.Json.{escaped_char, append_escaped, fresh, move, escape_move, unescape}

-- A byte that a string may hold.
abbrev pub IsAllowed : Bool → ℕ → Type 0
IsAllowed allow_null c = (c == 0 && not allow_null) ≡ false

-- The output of the loop, written from its end.
escaped : Bytes → Bytes
escaped [] = []
escaped (c ∷ s) = escaped_char c ++ escaped s

append_escaped-escaped : (out s : Bytes) → append_escaped out s ≡ out ++ escaped s
unfolding append_escaped escaped
append_escaped-escaped out [] = sym (append-nil out)
append_escaped-escaped out (c ∷ s) =
    append_escaped-escaped (out ++ escaped_char c) s ∙ append_assoc out (escaped_char c) (escaped s)

unescape-escaped_char :
    (allow_null : Bool) (c : ℕ) (s ret : Bytes)
    → IsAllowed allow_null c
    → unescape allow_null fresh (escaped_char c ++ s) ret
      ≡ unescape allow_null fresh s (ret ++ (c ∷ []))
unfolding unescape escaped_char move escape_move
unescape-escaped_char allow_null c s ret h = ground (arith, append-nil ret)

unescape-escaped :
    (allow_null : Bool) (s rest ret : Bytes)
    → All (IsAllowed allow_null) s
    → unescape allow_null fresh (escaped s ++ (b'"' ∷ rest)) ret ≡ some (ret ++ s, rest)
unfolding escaped
unescape-escaped allow_null [] rest ret h =
    unfold unescape move in ap (λ t. some (t, rest)) (sym (append-nil ret))
unescape-escaped allow_null (c ∷ s) rest ret (hc, hs) =
    ap (λ t. unescape allow_null fresh t ret)
      (append_assoc (escaped_char c) (escaped s) (b'"' ∷ rest))
    ∙ unescape-escaped_char allow_null c (escaped s ++ (b'"' ∷ rest)) ret hc
    ∙ unescape-escaped allow_null s rest (ret ++ (c ∷ [])) hs
    ∙ ap (λ t. some (t, rest)) (append_assoc ret (c ∷ []) s)

-- `json_unescape_string` gives back every string that `json_append_escaped` wrote, and stops behind
-- the closing quote; where null bytes are not allowed, the string has none.
pub unescape-append_escaped :
    (allow_null : Bool) (s rest : Bytes)
    → All (IsAllowed allow_null) s
    → unescape allow_null fresh (append_escaped [] s ++ (b'"' ∷ rest)) [] ≡ some (s, rest)
unescape-append_escaped allow_null s rest h =
    rw (append_escaped-escaped [] s) (unescape-escaped allow_null s rest [] h)
