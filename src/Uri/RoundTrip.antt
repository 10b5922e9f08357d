-- ===== src/Uri/RoundTrip.antt =====
-- `uri::parse` on what `uri::to_string` printed.
use lfz.Prelude.{◌≡◌, refl, arith, true}
use lfz.Prelude.{[], ◌∷◌, ◌++◌}
use lfz.Prelude.{is_empty, elem}
use lfz.Prelude.{Bool-cases, inl, inr}
use lfz.Encode.Percent.{is_unreserved, percent_encode}
use lfz.Encode.Percent.Escaped.{is_escaped}
use lfz.Uri.{Uri}
use lfz.Uri.{parse, empty_uri}
use lfz.Uri.Print.{print_scheme, print_host, print_query, print_fragment}
use lfz.Uri.Print.{uri_to_string}
use lfz.Uri.WellFormed.{IsUri, hierarchy-Lacks, Lacks-append, Lacks-if}
use lfz.Uri.SplitAuthority.{split_authority-print}
use lfz.Uri.Cuts.{NoScheme, NoScheme-path, set_path-encode}
use lfz.Uri.Cuts.{split_fragment-print, split_query-print, split_scheme-print}

NoScheme-hierarchy : (v : Uri) → IsUri v → NoScheme (print_host v ++ percent_encode true v.path_)
unfolding print_host elem
NoScheme-hierarchy v h = elim (Bool-cases (is_empty v.host_)) [
  | inl e ↦ rw e (NoScheme-path v.path_ h.rooted)
  | inr e ↦ rw e
]

-- parse reads back, into an empty URI, what to_string printed with a query of every URI with: a scheme
-- that split_scheme can read, no null bytes in user, password, host and path, a user name of
-- unreserved characters only where there is no password, a host wherever there is a user, a password
-- or a port, a port below 65536, a path that is empty or begins with a slash, and without a host not
-- with two, and no # in the query. Without a password parse keeps the user name as it stands and does
-- not percent-decode it, which is why a name as in user%20name@host is not read back.
pub parse-to_string : (v : Uri) → IsUri v → parse (uri_to_string true v) empty_uri ≡ (true, v)
unfolding parse uri_to_string print_query print_fragment print_scheme is_escaped is_unreserved elem
parse-to_string v h =
    let with_fragment = record empty_uri { fragment_ = v.fragment_ } in
    let with_query = record with_fragment { query_ = v.query_ } in
    let hierarchy = print_scheme v ++ (print_host v ++ percent_encode true v.path_) in
    let no_hash =
      hierarchy-Lacks b'#' v h (refl, refl, refl, inl (omega arith)) refl refl refl refl in
    let no_question =
      hierarchy-Lacks b'?' v h (refl, refl, refl, inr (omega arith)) refl refl refl refl in
    let query_no_hash =
      Lacks-append b'#' hierarchy (print_query v) no_hash
        (Lacks-if b'#' (is_empty v.query_) [] (b'?' ∷ v.query_) tt (refl, h.query)) in
    rw (split_fragment-print (hierarchy ++ print_query v) v.fragment_ empty_uri query_no_hash refl)
      (rw (split_query-print hierarchy v.query_ with_fragment no_question refl) (
        rw
          (split_scheme-print v.scheme_ (print_host v ++ percent_encode true v.path_) with_query
            h.scheme (NoScheme-hierarchy v h) refl)
          (rw
            (split_authority-print (record with_query { scheme_ = v.scheme_ }) v h refl refl refl
              refl)
            (set_path-encode v.path_ (record v { path_ = [] }) h.path refl))))
