-- ===== src/Uri/Resolve.antt =====
-- `uri::resolve`, `uri::empty` and `operator==` of lib/uri.cpp.
pub mod Paths
use lfz.Prelude.{ℕ, Bool, true, false, not, ◌&&◌, Bytes, [], ◌∷◌, ◌++◌, is_empty, ◌==◌}
use lfz.Prelude.{if◌then◌else◌, rfind, none, some, take}
use lfz.Uri.{Uri}

unfoldable pub same_text : Bytes → Bytes → Bool
same_text [] [] = true
same_text [] (y ∷ t) = false
same_text (x ∷ s) [] = false
same_text (x ∷ s) (y ∷ t) = x == y && same_text s t

-- The path of a reference that has one, with the base's path and host.
unfoldable pub resolved_path : Bytes → Bytes → Bytes → Bytes
resolved_path [] base_path base_host = base_path
resolved_path (c ∷ path) base_path base_host =
    if c == b'/'
    then c ∷ path
    else if is_empty base_path && not (is_empty base_host)
    then b'/' ∷ c ∷ path
    else elim (rfind b'/' base_path) [
      | none ↦ c ∷ path
      | some pos ↦ take pos base_path ++ (c ∷ path)
    ]

-- The assignments of `resolve` behind its early returns.
unfoldable pub adopt : Uri → Uri → Uri
adopt u base = record u {
  scheme_ = base.scheme_;
  host_ = base.host_;
  port_ = base.port_;
  user_ = base.user_;
  pass_ = base.pass_;
  path_ = resolved_path u.path_ base.path_ base.host_;
  query_ = if is_empty u.path_ && is_empty u.query_ then base.query_ else u.query_;
}

unfoldable pub resolve : Uri → Uri → Uri
resolve u base =
    if not (is_empty u.scheme_) && not (same_text u.scheme_ base.scheme_)
    then u
    else if not (is_empty u.host_)
    then record u { scheme_ = base.scheme_ }
    else adopt u base

unfoldable pub empty : Uri → Bool
empty u = is_empty u.host_ && is_empty u.path_

unfoldable pub uri_equals : Uri → Uri → Bool
uri_equals u v =
    same_text u.scheme_ v.scheme_
    && same_text u.user_ v.user_
    && same_text u.pass_ v.pass_
    && same_text u.host_ v.host_
    && u.port_ == v.port_
    && same_text u.path_ v.path_
    && same_text u.query_ v.query_
    && same_text u.fragment_ v.fragment_
