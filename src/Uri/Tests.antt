-- ===== src/Uri/Tests.antt =====
-- The theorems on URIs at concrete URIs, and runs.
use lfz.Prelude.{◌≡◌, refl, arith, true, codes, elem, []}
use lfz.Uri.{Uri, empty_uri, parse}
use lfz.Uri.Print.{uri_to_string}
use lfz.Uri.WellFormed.{IsUri}
use lfz.Uri.RoundTrip.{parse-to_string}
use lfz.Uri.Resolve.Paths.{Kinds, Becomes, resolve_reference}

-- "ftp://a%20b:c@host:2100/d/e%3F?q#f"
abbrev sample : Uri
sample = record {
  scheme_ = codes "ftp";
  user_ = codes "a b";
  pass_ = codes "c";
  host_ = codes "host";
  port_ = 2100;
  path_ = codes "/d/e?";
  query_ = codes "q";
  fragment_ = codes "f";
}

abbrev relative : Uri
relative = record empty_uri { path_ = codes "g" }

sample-IsUri : IsUri sample
unfolding elem
sample-IsUri = record {
  scheme = (refl, (refl, (refl, tt)));
  user = omega arith;
  pass = omega arith;
  host = omega arith;
  path = omega arith;
  kept = λ e. cc;
  port = omega arith;
  no_authority = λ e. cc;
  rooted = refl;
  one_slash = λ e. cc;
  query = (refl, tt);
}

parse-to_string_example : parse (uri_to_string true sample) empty_uri ≡ (true, sample)
parse-to_string_example = parse-to_string sample sample-IsUri

-- Against "/d/e?", "g" gives "/dg".
resolve_reference_example :
    Kinds (codes "g") [] (codes "/d/e?") (codes "q") (codes "/d") (Becomes relative sample)
resolve_reference_example =
    resolve_reference relative sample (codes "/d") (codes "e?") refl refl refl (refl, (refl, tt))
