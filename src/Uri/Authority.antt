-- ===== src/Uri/Authority.antt =====
-- The authority of a URI, printed and read back.
use lfz.Prelude.{◌<◌, ◌≡◌, refl, arith, true, false}
use lfz.Prelude.{[], ◌++◌, ◌==◌, All, All-append}
use lfz.Prelude.{is_empty}
use lfz.Prelude.{append_assoc}
use lfz.Prelude.{inr}
use lfz.Encode.Percent.{is_unreserved, percent_encode}
use lfz.Encode.Percent.RoundTrip.{IsText}
use lfz.Encode.Percent.Escaped.{is_escaped, percent_encode-IsEscaped, IsEscaped-Lacks}
use lfz.Uri.{Uri}
use lfz.Uri.{parse_authority, finish_authority}
use lfz.Uri.Userinfo.{IsKept, split_userinfo-print}
use lfz.Uri.Port.{port-Lacks, split_port-print, set_host-encode}
use lfz.Uri.Print.{print_userinfo, print_port, get_authority}

pub parse_authority-get_authority :
    (u v : Uri)
    → All IsText v.user_
    → All IsText v.pass_
    → All IsText v.host_
    → IsKept v.user_ v.pass_
    → v.port_ < 65536
    → is_empty v.host_ ≡ false
    → u.user_ ≡ []
    → u.pass_ ≡ []
    → u.port_ ≡ 0
    → parse_authority (get_authority true v) u
      ≡ (true, record u { user_ = v.user_; pass_ = v.pass_; host_ = v.host_; port_ = v.port_ })
unfolding parse_authority get_authority print_userinfo print_port finish_authority is_escaped
    is_unreserved
parse_authority-get_authority u v hu hp hh kept small host nu np unset =
    let encoded = percent_encode false v.host_ in
    let escaped = percent_encode-IsEscaped false v.host_ hh in
    let no_at =
      All-append (λ x. (x == b'@') ≡ false) encoded (print_port v)
        (IsEscaped-Lacks false b'@' encoded refl escaped)
        (port-Lacks b'@' v.port_ refl (inr (omega arith))) in
    let split =
      split_userinfo-print v.user_ v.pass_ (encoded ++ print_port v) u hu hp kept no_at nu np in
    rw (host, append_assoc (print_userinfo v) encoded (print_port v), split, finish_authority)
      (rw
        (split_port-print encoded v.port_ (record u { user_ = v.user_; pass_ = v.pass_ })
          (IsEscaped-Lacks false b':' encoded refl escaped) small unset)
        (set_host-encode v.host_ (record u { user_ = v.user_; pass_ = v.pass_; port_ = v.port_ })
          hh))
