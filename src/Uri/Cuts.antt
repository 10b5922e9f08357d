-- ===== src/Uri/Cuts.antt =====
-- The cuts that `uri::parse` makes, on text that `uri::to_string` printed.
use lfz.Prelude.{ℕ, ◌≡◌, refl, ap, ◌∙◌, arith, true, false, not, ◌&&◌}
use lfz.Prelude.{Bytes, [], ◌∷◌, ◌++◌, ◌==◌, some, All, length}
use lfz.Prelude.{get_or, is_empty, Lacks, elem, find_if, find-append, find-none}
use lfz.Prelude.{take-at, drop-after, append-nil, append_assoc, Bool-cases, inl, inr, ==_iff}
use lfz.Prelude.{if◌then◌else◌}
use lfz.Encode.Percent.{is_unreserved, percent_encode, percent_encode_char, percent_decode}
use lfz.Encode.Percent.RoundTrip.{IsText, percent_decode-encode}
use lfz.Encode.Percent.Escaped.{is_empty-percent_encode}
use lfz.Uri.{Uri, left, split_fragment, split_query, split_scheme, alpha, scheme_chars, set_path}

pub split_fragment-print :
    (t fragment : Bytes) (u : Uri)
    → Lacks b'#' t
    → u.fragment_ ≡ []
    → split_fragment (t ++ (if is_empty fragment then [] else b'#' ∷ fragment), u)
      ≡ (t, record u { fragment_ = fragment })
unfolding split_fragment
split_fragment-print t [] u h unset =
    rw (append-nil t)
      (rw (find-none b'#' t h, split_fragment) (ap (λ f. (t, record u { fragment_ = f })) unset))
split_fragment-print t (c ∷ s) u h unset =
    rw (find-append b'#' t (c ∷ s) h, split_fragment)
      (rw (take-at t (c ∷ s) b'#', drop-after t (c ∷ s) b'#'))

pub split_query-print :
    (t query : Bytes) (u : Uri)
    → Lacks b'?' t
    → u.query_ ≡ []
    → split_query (t ++ (if is_empty query then [] else b'?' ∷ query), u)
      ≡ (t, record u { query_ = query })
unfolding split_query
split_query-print t [] u h unset =
    rw (append-nil t)
      (rw (find-none b'?' t h, split_query) (ap (λ f. (t, record u { query_ = f })) unset))
split_query-print t (c ∷ s) u h unset =
    rw (find-append b'?' t (c ∷ s) h, split_query)
      (rw (take-at t (c ∷ s) b'?', drop-after t (c ∷ s) b'?'))

abbrev pub IsScheme : Bytes → Type 0
IsScheme [] = Unit
IsScheme (c ∷ s) = (elem c alpha ≡ true) × All (λ x. elem x scheme_chars ≡ true) s

pub elem_ne :
    (c x : ℕ) (chars : Bytes) → elem c chars ≡ false → elem x chars ≡ true → (x == c) ≡ false
elem_ne c x chars h hx = elim (Bool-cases (x == c)) [
  | inl e ↦ let same = (==_iff x c).0 e in cc
  | inr e ↦ e
]

find_delim :
    (s t : Bytes)
    → All (λ x. elem x scheme_chars ≡ true) s
    → find_if (λ c. not (elem c scheme_chars)) (s ++ (b':' ∷ t)) ≡ some (length s)
unfolding find_if
find_delim [] t h = unfold elem in refl
find_delim (x ∷ s) t (hx, hs) = rw (hx, find_delim s t hs, find_if)

get_or-at : (s t : Bytes) (c : ℕ) → get_or (s ++ (c ∷ t)) (length s) 0 ≡ c
get_or-at [] t c = refl
get_or-at (x ∷ s) t c = get_or-at s t c

-- Text that starts with no letter has no scheme.
abbrev pub NoScheme : Bytes → Type 0
NoScheme t = (not (is_empty t) && elem (get_or t 0 0) alpha) ≡ false

scheme_at :
    (c : ℕ) (s t : Bytes) (u : Uri)
    → IsScheme (c ∷ s)
    → split_scheme (c ∷ (s ++ (b':' ∷ t)), u) ≡ (t, record u { scheme_ = c ∷ s })
unfolding split_scheme
scheme_at c s t u (hc, hs) =
    let colon : (get_or (s ++ (b':' ∷ t)) (length s) 0 == b':') ≡ true =
      (==_iff _ _).1 (get_or-at s t b':') in
    rw (hc, split_scheme)
      (rw (find_delim s t hs, colon, split_scheme)
        (rw (take-at (c ∷ s) t b':', drop-after (c ∷ s) t b':')))

pub split_scheme-print :
    (scheme t : Bytes) (u : Uri)
    → IsScheme scheme
    → NoScheme t
    → u.scheme_ ≡ []
    → split_scheme ((if is_empty scheme then [] else scheme ++ (b':' ∷ [])) ++ t, u)
      ≡ (t, record u { scheme_ = scheme })
unfolding split_scheme
split_scheme-print [] t u h plain unset =
    rw (plain, split_scheme) (ap (λ f. (t, record u { scheme_ = f })) unset)
split_scheme-print (c ∷ s) t u h plain unset =
    ap (λ x. split_scheme (x, u)) (append_assoc (c ∷ s) (b':' ∷ []) t) ∙ scheme_at c s t u h

-- A path, and a host or none before it: without a host a path must not begin with two slashes.
abbrev pub IsPath : Bytes → Type 0
IsPath [] = Unit
IsPath (c ∷ s) = c ≡ b'/'

pub encode-slash : (s : Bytes) → percent_encode true (b'/' ∷ s) ≡ b'/' ∷ percent_encode true s
unfolding percent_encode percent_encode_char is_unreserved
encode-slash s = refl

pub NoScheme-path : (s : Bytes) → IsPath s → NoScheme (percent_encode true s)
unfolding percent_encode elem
NoScheme-path [] h = refl
NoScheme-path (c ∷ s) h = rw (h, encode-slash s)

set_path_whole :
    (t : Bytes) (u : Uri)
    → is_empty t ≡ false
    → set_path (left t u)
      ≡ (not (is_empty (percent_decode false t)), record u { path_ = percent_decode false t })
unfolding set_path
set_path_whole [] u h = cc h
set_path_whole (c ∷ s) u h = ground arith

pub set_path-encode :
    (path : Bytes) (u : Uri)
    → All IsText path
    → u.path_ ≡ []
    → set_path (left (percent_encode true path) u) ≡ (true, record u { path_ = path })
set_path-encode [] u h unset =
    unfold percent_encode set_path in ap (λ t. (true, record u { path_ = t })) unset
set_path-encode (c ∷ s) u h unset =
    set_path_whole (percent_encode true (c ∷ s)) u (is_empty-percent_encode true (c ∷ s) h)
    ∙ rw (percent_decode-encode true false (c ∷ s) h)
