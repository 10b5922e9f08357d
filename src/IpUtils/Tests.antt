-- ===== src/IpUtils/Tests.antt =====
-- The theorems on addresses at concrete texts, and runs.
use lfz.Prelude.{◌≡◌, ◌⊎◌, refl, arith, false, [], codes, to_string, find_from, rfind_to}
use lfz.Encode.Hex.{int_to_hex_char}
use lfz.IpUtils.Routable.{is_routable_address}
use lfz.IpUtils.Routable.Mapped.{is_routable_address-octets}
use lfz.IpUtils.LongForm.{
  lower_digit, lower_group, left_loop, right_loop, long_form_between, get_ipv6_long_form,
}
use lfz.IpUtils.LongForm.Shape.{IsLongForm, get_ipv6_long_form_shape}
use lfz.IpUtils.LongForm.Refused.{trailing_colons_refused}

get_ipv6_long_form_shape_example :
    (get_ipv6_long_form (codes "[4::1]") ≡ []) ⊎ IsLongForm (get_ipv6_long_form (codes "[4::1]"))
get_ipv6_long_form_shape_example = get_ipv6_long_form_shape (codes "[4::1]")

trailing_colons_refused_example : get_ipv6_long_form (codes "fe80::") ≡ []
trailing_colons_refused_example =
    trailing_colons_refused b'f' (codes "e80") (refl, (refl, (refl, (refl, tt)))) refl

is_routable_address-octets_example :
    (is_routable_address (codes "10.0.0.1") ≡ false)
    × (is_routable_address (codes "::ffff:a00:1") ≡ false)
unfolding to_string int_to_hex_char lower_digit lower_group left_loop right_loop long_form_between
    get_ipv6_long_form find_from rfind_to
is_routable_address-octets_example =
    is_routable_address-octets 10 0 0 1 (codes "::ffff:a00:1") (omega arith) (omega arith)
      (omega arith) (omega arith) (omega arith) refl
