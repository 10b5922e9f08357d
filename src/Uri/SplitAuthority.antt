-- ===== src/Uri/SplitAuthority.antt =====
-- The step of `uri::parse` that takes the authority off the text.
use lfz.Prelude.{ℕ, suc, ◌+◌, ◌-◌, ◌≡◌, refl, sym, ap, ◌∙◌, arith, true, false}
use lfz.Prelude.{Bytes, [], ◌∷◌, ◌++◌, ◌==◌, All, length, take, drop}
use lfz.Prelude.{get_or, is_empty, Lacks, find_from, find-append, find-none}
use lfz.Prelude.{take-at, append-nil, Bool-cases, inl, inr}
use lfz.Encode.Percent.{is_unreserved, percent_encode, percent_encode_char}
use lfz.Encode.Percent.RoundTrip.{IsText}
use lfz.Encode.Percent.Escaped.{is_escaped}
use lfz.Uri.{Uri, left}
use lfz.Uri.{split_authority, after_authority, parse_authority}
use lfz.Uri.Print.{print_host}
use lfz.Uri.Print.{get_authority}
use lfz.Uri.Authority.{parse_authority-get_authority}
use lfz.Uri.WellFormed.{IsUri, authority-Lacks}
use lfz.Uri.Cuts.{IsPath, encode-slash}

drop-length : (s t : Bytes) → drop (length s) (s ++ t) ≡ t
drop-length [] t = refl
drop-length (x ∷ s) t = drop-length s t

drop_authority : (a b : ℕ) (s t : Bytes) → drop (2 + length s) (a ∷ b ∷ (s ++ t)) ≡ t
drop_authority a b s t =
    let same : 2 + length s ≡ suc (suc (length s)) = omega arith in rw same (drop-length s t)

take_authority : (s t : Bytes) (c : ℕ) → take (2 + length s - 2) (s ++ (c ∷ t)) ≡ s
take_authority s t c =
    let same : 2 + length s - 2 ≡ length s = omega arith in rw same (take-at s t c)

authority_slash :
    (authority path : Bytes) (u : Uri)
    → Lacks b'/' authority
    → split_authority (b'/' ∷ b'/' ∷ (authority ++ (b'/' ∷ path)), u)
      ≡ after_authority (b'/' ∷ path) (parse_authority authority u)
unfolding split_authority find_from
authority_slash authority s u h =
    rw (find-append b'/' authority s h, split_authority)
      (rw (drop_authority b'/' b'/' authority (b'/' ∷ s), take_authority authority s b'/'))

-- An authority is told from the path behind it.
authority_at :
    (authority path : Bytes) (u : Uri)
    → Lacks b'/' authority
    → IsPath path
    → split_authority (b'/' ∷ b'/' ∷ (authority ++ path), u)
      ≡ after_authority path (parse_authority authority u)
unfolding split_authority find_from
authority_at authority [] u h rooted =
    ap (λ t. split_authority (b'/' ∷ b'/' ∷ t, u)) (append-nil authority)
    ∙ rw (find-none b'/' authority h, split_authority)
authority_at authority (c ∷ s) u h rooted =
    ap (λ x. split_authority (b'/' ∷ b'/' ∷ (authority ++ (x ∷ s)), u)) rooted
    ∙ authority_slash authority s u h
    ∙ ap (λ x. after_authority (x ∷ s) (parse_authority authority u)) (sym rooted)

no_authority_at :
    (path : Bytes) (u : Uri)
    → (get_or path 1 0 == b'/') ≡ false
    → split_authority (path, u) ≡ left path u
unfolding split_authority
no_authority_at path u h = elim (Bool-cases (get_or path 0 0 == b'/')) [
  | inl e ↦ rw (e, h, split_authority)
  | inr e ↦ rw (e, split_authority)
]

nil : (s : Bytes) → is_empty s ≡ true → s ≡ []
nil [] h = refl
nil (c ∷ s) h = cc h

first-percent_encode :
    (s : Bytes)
    → All IsText s
    → (get_or s 0 0 == b'/') ≡ false
    → (get_or (percent_encode true s) 0 0 == b'/') ≡ false
unfolding percent_encode percent_encode_char
first-percent_encode [] h e = refl
first-percent_encode (c ∷ s) (hc, hs) e = ground arith

second-percent_encode :
    (path : Bytes)
    → IsPath path
    → All IsText path
    → (get_or path 1 0 == b'/') ≡ false
    → (get_or (percent_encode true path) 1 0 == b'/') ≡ false
second-percent_encode [] rooted h e = unfold percent_encode in refl
second-percent_encode (c ∷ s) rooted (hc, hs) e =
    rw (rooted, encode-slash s) (first-percent_encode s hs e)

keep_members :
    (u : Uri) (user pass host : Bytes) (port : ℕ)
    → u.user_ ≡ user
    → u.pass_ ≡ pass
    → u.host_ ≡ host
    → u.port_ ≡ port
    → u ≡ record u { user_ = user; pass_ = pass; host_ = host; port_ = port }
keep_members u user pass host port hu hp hh hn = rw (← hu, ← hp, ← hh, ← hn)

IsPath-encode : (s : Bytes) → IsPath s → IsPath (percent_encode true s)
IsPath-encode [] h = unfold percent_encode in tt
IsPath-encode (c ∷ s) h = rw (h, encode-slash s) refl

kept_by :
    (u v : Uri)
    → IsUri v
    → is_empty v.host_ ≡ true
    → u.user_ ≡ []
    → u.pass_ ≡ []
    → u.host_ ≡ []
    → u.port_ ≡ 0
    → u ≡ record u { user_ = v.user_; pass_ = v.pass_; host_ = v.host_; port_ = v.port_ }
kept_by u v h e nu np nh unset =
    let (no_user, no_pass, no_port) = h.no_authority e in
    keep_members u v.user_ v.pass_ v.host_ v.port_ (nu ∙ sym no_user) (np ∙ sym no_pass)
      (nh ∙ sym (nil v.host_ e)) (unset ∙ sym no_port)

pub split_authority-print :
    (u v : Uri)
    → IsUri v
    → u.user_ ≡ []
    → u.pass_ ≡ []
    → u.host_ ≡ []
    → u.port_ ≡ 0
    → split_authority (print_host v ++ percent_encode true v.path_, u)
      ≡ left
          (percent_encode true v.path_)
          (record u { user_ = v.user_; pass_ = v.pass_; host_ = v.host_; port_ = v.port_ })
unfolding print_host after_authority is_escaped is_unreserved
split_authority-print u v h nu np nh unset = elim (Bool-cases (is_empty v.host_)) [
  | inl e ↦ rw e (
      no_authority_at (percent_encode true v.path_) u
        (second-percent_encode v.path_ h.rooted h.path (h.one_slash e))
      ∙ ap (left (percent_encode true v.path_)) (kept_by u v h e nu np nh unset))
  | inr e ↦ rw e (
      authority_at (get_authority true v) (percent_encode true v.path_) u
        (authority-Lacks b'/' (refl, refl, refl, inl (omega arith)) v h)
        (IsPath-encode v.path_ h.rooted)
      ∙ rw (
        parse_authority-get_authority u v h.user h.pass h.host h.kept h.port e nu np unset,
        after_authority,
      ))
]
