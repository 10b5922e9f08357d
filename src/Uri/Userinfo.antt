-- ===== src/Uri/Userinfo.antt =====
-- The user information of a URI, printed and read back.
use lfz.Prelude.{◌≡◌, refl, ap, ◌∙◌, arith, true, false, not}
use lfz.Prelude.{Bytes, [], ◌∷◌, ◌++◌, ◌&&◌, ◌||◌, ◌==◌, All, All-append}
use lfz.Prelude.{is_empty, find-append, find-none, Lacks}
use lfz.Prelude.{take-at, drop-after, append-nil, append_assoc}
use lfz.Prelude.{if◌then◌else◌}
use lfz.Encode.Percent.{is_unreserved, percent_encode}
use lfz.Encode.Percent.RoundTrip.{IsText, percent_decode-encode}
use lfz.Encode.Percent.Escaped.{is_escaped, percent_encode-IsEscaped, IsEscaped-Lacks}
use lfz.Encode.Percent.Escaped.{percent_encode-unreserved, is_empty-percent_encode}
use lfz.Uri.{Uri, left, split_userinfo, set_userinfo, set_credentials}

-- A text cut at the first `@`, and at the first `:` before it.
userinfo_at :
    (info rest : Bytes) (u : Uri)
    → Lacks b'@' info
    → split_userinfo (info ++ (b'@' ∷ rest)) u ≡ set_userinfo info rest u
unfolding split_userinfo
userinfo_at info rest u h = rw (
  find-append b'@' info rest h,
  take-at info rest b'@',
  drop-after info rest b'@',
  split_userinfo,
)

credentials_at :
    (user pass rest : Bytes) (u : Uri)
    → Lacks b':' user
    → set_userinfo (user ++ (b':' ∷ pass)) rest u ≡ set_credentials user pass rest u
unfolding set_userinfo
credentials_at user pass rest u h =
    rw (
      find-append b':' user pass h,
      take-at user pass b':',
      drop-after user pass b':',
      set_userinfo,
    )

user_only :
    (user rest : Bytes) (u : Uri)
    → Lacks b':' user
    → set_userinfo user rest u ≡ left rest (record u { user_ = user })
unfolding set_userinfo
user_only user rest u h = rw (find-none b':' user h, set_userinfo)

no_userinfo : (rest : Bytes) (u : Uri) → Lacks b'@' rest → split_userinfo rest u ≡ left rest u
unfolding split_userinfo
no_userinfo rest u h = rw (find-none b'@' rest h, split_userinfo)

-- Both credentials are decoded again.
credentials-decoded :
    (user pass rest : Bytes) (u : Uri)
    → All IsText user
    → All IsText pass
    → set_credentials (percent_encode false user) (percent_encode false pass) rest u
      ≡ left rest (record u { user_ = user; pass_ = pass })
unfolding set_credentials
credentials-decoded user pass rest u hu hp =
    let user_kept : (is_empty user && not (is_empty user)) ≡ false = ground arith in
    let pass_kept : (is_empty pass && not (is_empty pass)) ≡ false = ground arith in
    rw (
      percent_decode-encode false false user hu,
      percent_decode-encode false false pass hp,
      is_empty-percent_encode false user hu,
      is_empty-percent_encode false pass hp,
      user_kept,
      pass_kept,
      set_credentials,
    )

module _ (user pass rest : Bytes) (u : Uri) where
  userinfo-encoded :
      All IsText user
      → All IsText pass
      → split_userinfo
          ((percent_encode false user ++ (b':' ∷ percent_encode false pass)) ++ (b'@' ∷ rest))
          u
        ≡ left rest (record u { user_ = user; pass_ = pass })
  unfolding is_escaped is_unreserved
  userinfo-encoded hu hp =
      let user_escaped = percent_encode-IsEscaped false user hu in
      let pass_escaped = percent_encode-IsEscaped false pass hp in
      userinfo_at (percent_encode false user ++ (b':' ∷ percent_encode false pass)) rest u (
        All-append (λ x. (x == b'@') ≡ false) (percent_encode false user)
          (b':' ∷ percent_encode false pass)
          (IsEscaped-Lacks false b'@' (percent_encode false user) refl user_escaped)
          (refl, IsEscaped-Lacks false b'@' (percent_encode false pass) refl pass_escaped))
      ∙ credentials_at (percent_encode false user) (percent_encode false pass) rest u
          (IsEscaped-Lacks false b':' (percent_encode false user) refl user_escaped)
      ∙ credentials-decoded user pass rest u hu hp

  userinfo-unreserved :
      All IsText user
      → All (λ c. is_unreserved c ≡ true) user
      → split_userinfo (percent_encode false user ++ (b'@' ∷ rest)) u
        ≡ left rest (record u { user_ = user })
  unfolding is_escaped is_unreserved
  userinfo-unreserved hu plain =
      let escaped = percent_encode-IsEscaped false user hu in
      let no_at = IsEscaped-Lacks false b'@' (percent_encode false user) refl escaped in
      let no_colon = IsEscaped-Lacks false b':' (percent_encode false user) refl escaped in
      userinfo_at (percent_encode false user) rest u no_at
      ∙ user_only (percent_encode false user) rest u no_colon
      ∙ ap (λ t. left rest (record u { user_ = t })) (percent_encode-unreserved false user plain)

-- A user name without a password is not decoded again, so it has to stand for itself.
abbrev pub IsKept : Bytes → Bytes → Type 0
IsKept user pass = is_empty pass ≡ true → All (λ c. is_unreserved c ≡ true) user

pub split_userinfo-print :
    (user pass rest : Bytes) (u : Uri)
    → All IsText user
    → All IsText pass
    → IsKept user pass
    → Lacks b'@' rest
    → u.user_ ≡ []
    → u.pass_ ≡ []
    → split_userinfo
        ((percent_encode false user
            ++ (if is_empty pass then [] else b':' ∷ percent_encode false pass)
            ++ (if not (is_empty user) || not (is_empty pass) then b'@' ∷ [] else []))
          ++ rest)
        u
      ≡ left rest (record u { user_ = user; pass_ = pass })
split_userinfo-print [] [] rest u hu hp kept h nu np =
    unfold percent_encode in
    no_userinfo rest u h
    ∙ ap (λ t. left rest (record u { user_ = t })) nu
    ∙ ap (λ t. left rest (record u { user_ = []; pass_ = t })) np
split_userinfo-print (x ∷ s) [] rest u hu hp kept h nu np =
    let user = x ∷ s in
    rw
      (
        append-nil (percent_encode false user),
        append_assoc (percent_encode false user) (b'@' ∷ []) rest,
      )
      (userinfo-unreserved user [] rest u hu (kept refl)
        ∙ ap (λ t. left rest (record u { user_ = user; pass_ = t })) np)
split_userinfo-print [] (y ∷ t) rest u hu hp kept h nu np =
    let pass = y ∷ t in
    rw
      (append_assoc (percent_encode false [] ++ (b':' ∷ percent_encode false pass)) (b'@' ∷ [])
        rest)
      (userinfo-encoded [] pass rest u hu hp)
split_userinfo-print (x ∷ s) (y ∷ t) rest u hu hp kept h nu np =
    let user = x ∷ s in
    let pass = y ∷ t in
    rw
      (append_assoc (percent_encode false user ++ (b':' ∷ percent_encode false pass)) (b'@' ∷ [])
        rest)
      (userinfo-encoded user pass rest u hu hp)
