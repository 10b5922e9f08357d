-- ===== src/Strings/Replace.antt =====
-- `do_replace_substrings` of lib/string.cpp.
use lfz.Prelude.{
  ℕ, zero, suc, ◌+◌, Bool, true, false, ◌&&◌, Bytes, [], ◌∷◌, ◌++◌, length, take, drop, ◌==◌,
  if◌then◌else◌, is_empty, Option, none, some,
}
use mathlib.Core.Option

-- Whether a text starts with another.
unfoldable pub is_prefix : Bytes → Bytes → Bool
is_prefix [] s = true
is_prefix (x ∷ xs) [] = false
is_prefix (x ∷ xs) (c ∷ s) = x == c && is_prefix xs s

-- `find` of a text; `none` is npos.
unfoldable pub find_text : Bytes → Bytes → Option ℕ
find_text needle [] = if is_empty needle then some 0 else none
find_text needle (c ∷ s) = elim (is_prefix needle (c ∷ s)) [
  | true ↦ some 0
  | false ↦ Option.map suc (find_text needle s)
]

unfoldable pub find_text_from : Bytes → Bytes → ℕ → Option ℕ
find_text_from needle s from = Option.map (λ n. from + n) (find_text needle (drop from s))

-- `replace(pos, n, text)`.
unfoldable pub replace_at : Bytes → ℕ → ℕ → Bytes → Bytes
replace_at s pos n text = take pos s ++ (text ++ drop (pos + n) s)

-- Each round takes units off the rest, so one more than there are is enough.
unfoldable pub replace_loop : ℕ → Bytes → Bytes → Bytes → Option ℕ → Bytes
replace_loop zero needle text s at = s
replace_loop (suc rounds) needle text s none = s
replace_loop (suc rounds) needle text s (some pos) =
    let t = replace_at s pos (length needle) text in
    replace_loop rounds needle text t (find_text_from needle t (pos + length text))

abbrev pub is_found : Option ℕ → Bool
is_found none = false
is_found (some n) = true

unfoldable pub replace_substrings : Bytes → Bytes → Bytes → Bool × Bytes
replace_substrings s needle text = if is_empty needle then (false, s) else (
  is_found (find_text needle s),
  replace_loop (suc (length s)) needle text s (find_text needle s),
)
