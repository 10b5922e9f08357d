-- ===== src/Uri/Resolve/Paths.antt =====
-- What `uri::resolve` makes of a reference, and equality of URIs.
use lfz.Prelude.{
  ◌≢◌, ◌⊎◌, if◌then◌else◌, ◌≡◌, ◌↔◌, refl, ap, ◌∙◌, arith, Bool, true, false, not, ◌&&◌, Bytes, [],
}
use lfz.Prelude.{◌∷◌, ◌++◌, is_empty, ◌==◌, ==_iff, Lacks, take-at, Bool-cases, inl, inr}
use lfz.Prelude.{rfind-append, rfind, get_or}
use mathlib.Core.Path.{subst⁻¹}
use lfz.Uri.{Uri}
use lfz.Uri.Resolve.{same_text, resolved_path, adopt, resolve, uri_equals}

pub same_text_iff : (s t : Bytes) → (same_text s t ≡ true) ↔ (s ≡ t)
unfolding same_text
same_text_iff [] [] = ((λ h. refl), (λ h. refl))
same_text_iff [] (y ∷ t) = ((λ h. cc h), (λ h. cc h))
same_text_iff (x ∷ s) [] = ((λ h. cc h), (λ h. cc h))
same_text_iff (x ∷ s) (y ∷ t) =
    let (same, back) = same_text_iff s t in
    (
      (λ h. grind (arith, same)),
      (λ e. let head : x ≡ y = cc e in let tail : s ≡ t = cc e in grind (arith, back tail)),
    )

abbrev pub other_scheme : Uri → Uri → Bool
other_scheme u base = not (is_empty u.scheme_) && not (same_text u.scheme_ base.scheme_)

resolve-other : (u base : Uri) → other_scheme u base ≡ true → resolve u base ≡ u
unfolding resolve
resolve-other u base e = rw (e, resolve)

-- A reference to the document itself becomes the base, with the reference's fragment.
pub resolve_same_document :
    (base : Uri) (fragment : Bytes)
    → resolve
        (record {
          scheme_ = [];
          user_ = [];
          pass_ = [];
          host_ = [];
          port_ = 0;
          path_ = [];
          query_ = [];
          fragment_ = fragment;
        })
        base
      ≡ record base { fragment_ = fragment }
unfolding resolve adopt resolved_path
resolve_same_document base fragment = refl

slash_inside : (s t : Bytes) → is_empty (s ++ (b'/' ∷ t)) ≡ false
slash_inside [] t = refl
slash_inside (x ∷ s) t = refl

resolved_at :
    (path directory file host : Bytes)
    → is_empty path ≡ false
    → (get_or path 0 0 == b'/') ≡ false
    → Lacks b'/' file
    → resolved_path path (directory ++ (b'/' ∷ file)) host ≡ directory ++ path
unfolding resolved_path rfind
resolved_at [] directory file host nonempty relative h = cc nonempty
resolved_at (c ∷ s) directory file host nonempty relative h =
    rw (relative, slash_inside directory file, rfind-append b'/' directory file h, resolved_path)
      (rw (take-at directory file b'/'))

-- The three kinds of reference paths, with the path and the query that the result gets.
abbrev pub Kinds : Bytes → Bytes → Bytes → Bytes → Bytes → (Bytes → Bytes → Type 0) → Type 0
Kinds path query base_path base_query directory P =
    ((path ≡ []) × P base_path (if is_empty query then base_query else query))
    ⊎ ((is_empty path ≡ false) × (get_or path 0 0 ≡ b'/') × P path query)
    ⊎ ((is_empty path ≡ false) × (get_or path 0 0 ≢ b'/') × P (directory ++ path) query)

path_kinds :
    (path query directory file base_query host : Bytes)
    → Lacks b'/' file
    → Kinds path query (directory ++ (b'/' ∷ file)) base_query directory (λ p q.
      (resolved_path path (directory ++ (b'/' ∷ file)) host ≡ p)
      × ((if is_empty path && is_empty query then base_query else query) ≡ q))
unfolding resolved_path
path_kinds [] query directory file base_query host h = inl (refl, (refl, refl))
path_kinds (c ∷ s) query directory file base_query host h = elim (Bool-cases (c == b'/')) [
  | inl e ↦ inr (inl (refl, (==_iff c b'/').0 e, (rw (e, resolved_path) refl, refl)))
  | inr e ↦ inr (
      inr (
        refl,
        (λ same. ground (arith, e, same)),
        (resolved_at (c ∷ s) directory file host refl e h, refl),
      ))
]

-- The result of `resolve`: the base with a path, a query and the fragment of the reference.
abbrev pub Becomes : Uri → Uri → Bytes → Bytes → Type 0
Becomes u base path query =
    resolve u base ≡ record base { path_ = path; query_ = query; fragment_ = u.fragment_ }

becomes :
    (u base : Uri) (path query : Bytes)
    → other_scheme u base ≡ false
    → u.host_ ≡ []
    → resolved_path u.path_ base.path_ base.host_ ≡ path
    → (if is_empty u.path_ && is_empty u.query_ then base.query_ else u.query_) ≡ query
    → Becomes u base path query
unfolding resolve adopt
becomes u base path query other no_host e f =
    rw (other, no_host, resolve)
      (ap (λ p. record (adopt u base) { path_ = p }) e
        ∙ ap (λ q. record (adopt u base) { path_ = path; query_ = q }) f)

-- A reference without a host, and with no scheme or the one of the base, against a base whose path has
-- a slash, becomes the base with the fragment of the reference. Where its path is empty, the path
-- stays, and so does the query unless the reference has one. Otherwise the query is the one of the
-- reference; a path that begins with a slash replaces the one of the base, and any other is put
-- straight behind what stands before the last slash of that path, without the slash.
pub resolve_reference :
    (u base : Uri) (directory file : Bytes)
    → other_scheme u base ≡ false
    → u.host_ ≡ []
    → base.path_ ≡ directory ++ (b'/' ∷ file)
    → Lacks b'/' file
    → Kinds u.path_ u.query_ base.path_ base.query_ directory (Becomes u base)
resolve_reference u base directory file other no_host shape h =
    let kinds =
      subst⁻¹
        (λ t. Kinds u.path_ u.query_ t base.query_ directory (λ p q.
          (resolved_path u.path_ t base.host_ ≡ p)
          × ((if is_empty u.path_ && is_empty u.query_ then base.query_ else u.query_) ≡ q)))
        shape (path_kinds u.path_ u.query_ directory file base.query_ base.host_ h) in
    elim kinds [
      | inl (none_given, (e, f)) ↦ inl (none_given, becomes u base _ _ other no_host e f)
      | inr (inl (given, at, (e, f))) ↦ inr (inl (given, at, becomes u base _ _ other no_host e f))
      | inr (inr (given, at, (e, f))) ↦ inr (inr (given, at, becomes u base _ _ other no_host e f))
    ]

all_eight :
    (a b c d e f g h : Bool)
    → (a && b && c && d && e && f && g && h) ≡ true
    → (a ≡ true)
      × (b ≡ true)
      × (c ≡ true)
      × (d ≡ true)
      × (e ≡ true)
      × (f ≡ true)
      × (g ≡ true)
      × (h ≡ true)
all_eight a b c d e f g h all = ground (arith, all)

self_text : (s : Bytes) → same_text s s ≡ true
self_text s = (same_text_iff s s).1 refl

uri_equals_self : (u : Uri) → uri_equals u u ≡ true
unfolding uri_equals
uri_equals_self u =
    let same_port : (u.port_ == u.port_) ≡ true = (==_iff u.port_ u.port_).1 refl in
    rw (
      self_text u.scheme_,
      self_text u.user_,
      self_text u.pass_,
      self_text u.host_,
      same_port,
      self_text u.path_,
      self_text u.query_,
      self_text u.fragment_,
    )

equal_members :
    (u v : Uri)
    → u.scheme_ ≡ v.scheme_
    → u.user_ ≡ v.user_
    → u.pass_ ≡ v.pass_
    → u.host_ ≡ v.host_
    → u.port_ ≡ v.port_
    → u.path_ ≡ v.path_
    → u.query_ ≡ v.query_
    → u.fragment_ ≡ v.fragment_
    → u ≡ v
equal_members u v h1 h2 h3 h4 h5 h6 h7 h8 = cc

-- `operator==` holds exactly of equal URIs.
pub uri_equals_iff : (u v : Uri) → (uri_equals u v ≡ true) ↔ (u ≡ v)
unfolding uri_equals
uri_equals_iff u v = (members, (λ e. rw e (uri_equals_self v)))
  where
    members : uri_equals u v ≡ true → u ≡ v
    members h =
        let (scheme, user, pass, host, port, path, query, fragment) =
          all_eight (same_text u.scheme_ v.scheme_) (same_text u.user_ v.user_)
            (same_text u.pass_ v.pass_) (same_text u.host_ v.host_) (u.port_ == v.port_)
            (same_text u.path_ v.path_) (same_text u.query_ v.query_)
            (same_text u.fragment_ v.fragment_) h in
        equal_members u v ((same_text_iff _ _).0 scheme) ((same_text_iff _ _).0 user)
          ((same_text_iff _ _).0 pass) ((same_text_iff _ _).0 host) ((==_iff _ _).0 port)
          ((same_text_iff _ _).0 path) ((same_text_iff _ _).0 query)
          ((same_text_iff _ _).0 fragment)
