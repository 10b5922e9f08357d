-- ===== src/Uri/Print.antt =====
-- The functions of lib/uri.cpp that print a URI and its parts.
use lfz.Prelude.{Bool, true, false, not, ◌&&◌, ◌||◌, Bytes, [], ◌∷◌, ◌++◌, is_empty, ◌==◌}
use lfz.Prelude.{if◌then◌else◌, to_string}
use lfz.Encode.Percent.{percent_encode}
use lfz.Uri.{Uri}

-- The user information with its `@`.
unfoldable pub print_userinfo : Uri → Bytes
print_userinfo u =
    percent_encode false u.user_
    ++ (if is_empty u.pass_ then [] else b':' ∷ percent_encode false u.pass_)
    ++ (if not (is_empty u.user_) || not (is_empty u.pass_) then b'@' ∷ [] else [])

unfoldable pub print_port : Uri → Bytes
print_port u = if u.port_ == 0 then [] else b':' ∷ to_string u.port_

unfoldable pub get_authority : Bool → Uri → Bytes
get_authority with_userinfo u =
    if is_empty u.host_
    then []
    else (if with_userinfo then print_userinfo u else [])
      ++ percent_encode false u.host_
      ++ print_port u

unfoldable pub print_scheme : Uri → Bytes
print_scheme u = if is_empty u.scheme_ then [] else u.scheme_ ++ (b':' ∷ [])

unfoldable pub print_host : Uri → Bytes
print_host u = if is_empty u.host_ then [] else b'/' ∷ b'/' ∷ get_authority true u

unfoldable pub print_query : Uri → Bytes
print_query u = if is_empty u.query_ then [] else b'?' ∷ u.query_

unfoldable pub print_fragment : Uri → Bytes
print_fragment u = if is_empty u.fragment_ then [] else b'#' ∷ u.fragment_

unfoldable pub uri_to_string : Bool → Uri → Bytes
uri_to_string with_query u =
    ((print_scheme u ++ (print_host u ++ percent_encode true u.path_))
      ++ (if with_query then print_query u else []))
    ++ (if with_query then print_fragment u else [])

unfoldable pub get_request : Bool → Uri → Bytes
get_request with_query u =
    let request = percent_encode true u.path_ in
    if not (is_empty request) && not (is_empty u.query_) && with_query
    then request ++ (b'?' ∷ u.query_)
    else request
