-- ===== src/Uri.antt =====
-- The class `uri` of lib/uri.cpp and lib/libfilezilla/uri.hpp.
pub mod Print
pub mod Resolve
pub mod Userinfo
pub mod Port
pub mod Authority
pub mod Cuts
pub mod WellFormed
pub mod SplitAuthority
pub mod RoundTrip
mod Tests
use lfz.Prelude.{ℕ, zero, suc, ◌+◌, ◌-◌, Bool, true, false, not, ◌&&◌, ◌||◌, Bytes, [], ◌∷◌, codes}
use lfz.Prelude.{Option, none, some, length, take, drop, get_or, is_empty, ◌==◌, if◌then◌else◌}
use lfz.Prelude.{find, find_if, find_from, rfind, elem, to_integral}
use mathlib.Core.Option
use lfz.Encode.Percent.{percent_decode}
use lfz.IpUtils.AddressType.{AddressType, unknown, ipv4, ipv6, get_address_type}

pub record Uri : Type 0 where
  pub scheme_ : Bytes
  pub user_ : Bytes
  pub pass_ : Bytes
  pub host_ : Bytes
  pub port_ : ℕ
  pub path_ : Bytes
  pub query_ : Bytes
  pub fragment_ : Bytes

-- `uri() noexcept = default`.
abbrev pub empty_uri : Uri
empty_uri = record {
  scheme_ = [];
  user_ = [];
  pass_ = [];
  host_ = [];
  port_ = 0;
  path_ = [];
  query_ = [];
  fragment_ = [];
}

abbrev pub alpha : Bytes
alpha = codes "abcdefghijklmnopqrstuvwxyzABCDEFGHIJKLMNOPQRSTUVWXYZ"

abbrev pub digit : Bytes
digit = codes "01234567890"

abbrev pub scheme_chars : Bytes
scheme_chars = codes "abcdefghijklmnopqrstuvwxyzABCDEFGHIJKLMNOPQRSTUVWXYZ0123456789+-."

-- Where a parser stands: refused, or at the text that is left; with the members set so far.
pub data Progress : Type 0 where
  refused : Uri → Progress
  left : Bytes → Uri → Progress

unfoldable pub split_fragment : Bytes × Uri → Bytes × Uri
split_fragment (text, u) = elim (find b'#' text) [
  | none ↦ (text, u)
  | some pos ↦ (take pos text, record u { fragment_ = drop (pos + 1) text })
]

unfoldable pub split_query : Bytes × Uri → Bytes × Uri
split_query (text, u) = elim (find b'?' text) [
  | none ↦ (text, u)
  | some pos ↦ (take pos text, record u { query_ = drop (pos + 1) text })
]

-- `find_first_not_of(scheme, 1)`.
abbrev pub scheme_delim : Bytes → Option ℕ
scheme_delim text = Option.map suc (find_if (λ c. not (elem c scheme_chars)) (drop 1 text))

unfoldable pub split_scheme : Bytes × Uri → Bytes × Uri
split_scheme (text, u) =
    if not (is_empty text) && elem (get_or text 0 0) alpha
    then elim (scheme_delim text) [
      | none ↦ (text, u)
      | some pos ↦
          if get_or text pos 0 == b':'
          then (drop (pos + 1) text, record u { scheme_ = take pos text })
          else (text, u)
    ]
    else (text, u)

-- The two texts around the `:` of the user information.
unfoldable pub set_credentials : Bytes → Bytes → Bytes → Uri → Progress
set_credentials user pass authority u =
    if is_empty (percent_decode false user) && not (is_empty user)
    then refused (record u { user_ = percent_decode false user })
    else if is_empty (percent_decode false pass) && not (is_empty pass)
    then refused (record u { user_ = percent_decode false user; pass_ = percent_decode false pass })
    else left authority
        (record u { user_ = percent_decode false user; pass_ = percent_decode false pass })

unfoldable pub set_userinfo : Bytes → Bytes → Uri → Progress
set_userinfo userinfo authority u = elim (find b':' userinfo) [
  | none ↦ left authority (record u { user_ = userinfo })
  | some pos ↦ set_credentials (take pos userinfo) (drop (pos + 1) userinfo) authority u
]

unfoldable pub split_userinfo : Bytes → Uri → Progress
split_userinfo authority u = elim (find b'@' authority) [
  | none ↦ left authority u
  | some pos ↦ set_userinfo (take pos authority) (drop (pos + 1) authority) u
]

-- `to_integral<unsigned short>`, with its error value 0.
unfoldable pub port_number : Bytes → ℕ
port_number text = elim (to_integral 65536 text) [ none ↦ 0 | some n ↦ n ]

unfoldable pub split_port : Bytes × Uri → Bytes × Uri
split_port (authority, u) = elim (rfind b':' authority) [
  | none ↦ (authority, u)
  | some pos ↦ elim (find_if (λ c. not (elem c digit)) (drop (pos + 1) authority)) [
    | none ↦ (take pos authority, record u { port_ = port_number (drop (pos + 1) authority) })
    | some _ ↦ (authority, u)
  ]
]

abbrev pub is_ipv6 : AddressType → Bool
is_ipv6 unknown = false
is_ipv6 ipv4 = false
is_ipv6 ipv6 = true

-- A host in brackets has to end in one and to be an IPv6 address.
unfoldable pub bad_literal : Bytes → Bool
bad_literal authority =
    not (is_empty authority)
    && get_or authority 0 0 == b'['
    && (not (get_or authority (length authority - 1) 0 == b']')
        || not (is_ipv6 (get_address_type authority)))

unfoldable pub set_host : Bytes × Uri → Bool × Uri
set_host (authority, u) =
    if bad_literal authority
    then (false, u)
    else if is_empty (percent_decode false authority) && not (is_empty authority)
    then (false, record u { host_ = percent_decode false authority })
    else (true, record u { host_ = percent_decode false authority })

unfoldable pub finish_authority : Progress → Bool × Uri
finish_authority (refused u) = (false, u)
finish_authority (left authority u) = set_host (split_port (authority, u))

unfoldable pub parse_authority : Bytes → Uri → Bool × Uri
parse_authority authority u = finish_authority (split_userinfo authority u)

-- `in` behind the call of `parse_authority`.
unfoldable pub after_authority : Bytes → Bool × Uri → Progress
after_authority text (false, u) = refused u
after_authority text (true, u) = left text u

unfoldable pub split_authority : Bytes × Uri → Progress
split_authority (text, u) =
    if get_or text 0 0 == b'/' && get_or text 1 0 == b'/'
    then elim (find_from b'/' text 2) [
      | none ↦ after_authority [] (parse_authority (drop 2 text) u)
      | some pos ↦
          after_authority (drop pos text) (parse_authority (take (pos - 2) (drop 2 text)) u)
    ]
    else left text u

unfoldable pub set_path : Progress → Bool × Uri
set_path (refused u) = (false, u)
set_path (left [] u) = (true, u)
set_path (left (c ∷ s) u) =
    if is_empty (percent_decode false (c ∷ s))
    then (false, record u { path_ = percent_decode false (c ∷ s) })
    else (true, record u { path_ = percent_decode false (c ∷ s) })

-- The members that a refused text has set stay set.
unfoldable pub parse : Bytes → Uri → Bool × Uri
parse text u = set_path (split_authority (split_scheme (split_query (split_fragment (text, u)))))

abbrev pub or_empty_uri : Bool × Uri → Uri
or_empty_uri (true, u) = u
or_empty_uri (false, u) = empty_uri

-- `uri(std::string_view const&)`.
unfoldable pub make_uri : Bytes → Uri
make_uri text = or_empty_uri (parse text empty_uri)
