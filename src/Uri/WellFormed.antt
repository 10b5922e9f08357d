-- ===== src/Uri/WellFormed.antt =====
-- URIs whose text means the same URI, and the characters that their parts are printed with.
use lfz.Prelude.{ℕ, ◌<◌, ◌≡◌, Bool, true, false, not, ◌||◌}
use lfz.Prelude.{Bytes, [], ◌∷◌, ◌++◌, ◌==◌, All, All-append, All-map}
use lfz.Prelude.{get_or, is_empty, Lacks, elem}
use lfz.Prelude.{◌⊎◌}
use lfz.Prelude.{if◌then◌else◌}
use lfz.Encode.Percent.{percent_encode}
use lfz.Encode.Percent.RoundTrip.{IsText}
use lfz.Encode.Percent.Escaped.{is_escaped, percent_encode-IsEscaped, IsEscaped-Lacks}
use lfz.Uri.{Uri, alpha, scheme_chars}
use lfz.Uri.Print.{print_scheme, print_host, print_userinfo}
use lfz.Uri.Print.{get_authority, print_port}
use lfz.Uri.Userinfo.{IsKept}
use lfz.Uri.Port.{port-Lacks}
use lfz.Uri.Cuts.{IsScheme, IsPath, elem_ne}

-- What the members of a URI promise, so that the printed text means the same URI.
pub record IsUri (u : Uri) : Type 0 where
  pub scheme : IsScheme u.scheme_
  pub user : All IsText u.user_
  pub pass : All IsText u.pass_
  pub host : All IsText u.host_
  pub path : All IsText u.path_
  pub kept : IsKept u.user_ u.pass_
  pub port : u.port_ < 65536
  -- Without a host there is no authority.
  pub no_authority : is_empty u.host_ ≡ true → (u.user_ ≡ []) × (u.pass_ ≡ []) × (u.port_ ≡ 0)
  pub rooted : IsPath u.path_
  -- Without a host a path does not begin with two slashes.
  pub one_slash : is_empty u.host_ ≡ true → (get_or u.path_ 1 0 == b'/') ≡ false
  pub query : Lacks b'#' u.query_

-- A character that no part before the query has.
abbrev IsDelimiter : ℕ → Type 0
IsDelimiter c =
    (is_escaped false c ≡ false)
    × ((b':' == c) ≡ false)
    × ((b'@' == c) ≡ false)
    × ((c < b'0') ⊎ (b'9' < c))

pub Lacks-if :
    (c : ℕ) (b : Bool) (s t : Bytes) → Lacks c s → Lacks c t → Lacks c (if b then s else t)
Lacks-if c true s t hs ht = hs
Lacks-if c false s t hs ht = ht

pub Lacks-append : (c : ℕ) (s t : Bytes) → Lacks c s → Lacks c t → Lacks c (s ++ t)
Lacks-append c = All-append (λ x. (x == c) ≡ false)

encoded-Lacks :
    (c : ℕ) (keep_slashes : Bool) (s : Bytes)
    → is_escaped keep_slashes c ≡ false
    → All IsText s
    → Lacks c (percent_encode keep_slashes s)
encoded-Lacks c keep_slashes s h hs =
    IsEscaped-Lacks keep_slashes c (percent_encode keep_slashes s) h
      (percent_encode-IsEscaped keep_slashes s hs)

module _ (c : ℕ) (delimiter : IsDelimiter c) (v : Uri) (h : IsUri v) where
  userinfo-Lacks : Lacks c (print_userinfo v)
  unfolding print_userinfo
  userinfo-Lacks =
      let (escaped, colon, at, _) = delimiter in
      Lacks-append c _ _
        (Lacks-append c _ _ (encoded-Lacks c false v.user_ escaped h.user) (
          Lacks-if c (is_empty v.pass_) _ _ tt
            (colon, encoded-Lacks c false v.pass_ escaped h.pass)))
        (Lacks-if c (not (is_empty v.user_) || not (is_empty v.pass_)) _ _ (at, tt) tt)

  pub authority-Lacks : Lacks c (get_authority true v)
  unfolding get_authority print_port
  authority-Lacks =
      let (escaped, colon, at, digits) = delimiter in
      Lacks-if c (is_empty v.host_) _ _ tt (
        Lacks-append c _ _
          (Lacks-append c _ _ userinfo-Lacks (encoded-Lacks c false v.host_ escaped h.host))
          (port-Lacks c v.port_ colon digits))

scheme-Lacks :
    (c : ℕ) (scheme : Bytes)
    → IsScheme scheme
    → (b':' == c) ≡ false
    → elem c alpha ≡ false
    → elem c scheme_chars ≡ false
    → Lacks c (if is_empty scheme then [] else scheme ++ (b':' ∷ []))
scheme-Lacks c [] h colon no_letter no_char = tt
scheme-Lacks c (x ∷ s) (hx, hs) colon no_letter no_char = (
  elem_ne c x alpha no_letter hx,
  Lacks-append c s (b':' ∷ [])
      (All-map (λ y. elem y scheme_chars ≡ true) (λ y. (y == c) ≡ false) s
        (λ y. elem_ne c y scheme_chars no_char) hs)
      (colon, tt),
)

-- What is printed before the query has neither `?` nor `#`.
pub hierarchy-Lacks :
    (c : ℕ) (v : Uri)
    → IsUri v
    → IsDelimiter c
    → is_escaped true c ≡ false
    → (b'/' == c) ≡ false
    → elem c alpha ≡ false
    → elem c scheme_chars ≡ false
    → Lacks c (print_scheme v ++ (print_host v ++ percent_encode true v.path_))
unfolding print_scheme print_host
hierarchy-Lacks c v h delimiter escaped slash no_letter no_char =
    Lacks-append c _ _ (scheme-Lacks c v.scheme_ h.scheme (delimiter.1) no_letter no_char) (
      Lacks-append c _ _
        (Lacks-if c (is_empty v.host_) _ _ tt (slash, (slash, authority-Lacks c delimiter v h)))
        (encoded-Lacks c true v.path_ escaped h.path))
