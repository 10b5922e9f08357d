-- ===== src/IpUtils/AddressType.antt =====
-- `do_get_address_type`. `segment` is an int in the code, where more than nine digits may overflow;
-- here it has no bound.
pub mod Dotted
use lfz.Prelude.{
  ℕ, ◌+◌, ◌-◌, ◌*◌, ◌&&◌, ◌||◌, not, Bool, true, false, Bytes, [], ◌∷◌, ltb, ◌==◌, is_empty,
}
use lfz.Prelude.{if◌then◌else◌, Option, none, some}
use lfz.IpUtils.LongForm.{get_ipv6_long_form}

pub data AddressType : Type 0 where
  unknown ipv4 ipv6 : AddressType

-- `i + 1 < address.size() && address[i + 1] == '.'`
abbrev pub dot_follows : Bytes → Bool
dot_follows [] = false
dot_follows (c ∷ s) = c == b'.'

-- The loop over the units that are left, with `segment` and `dotcount`; `none` is an early return.
unfoldable pub ipv4_loop : Bytes → ℕ → ℕ → Option (ℕ × ℕ)
ipv4_loop [] segment dotcount = some (segment, dotcount)
ipv4_loop (c ∷ s) segment dotcount =
    let at_dot = ipv4_loop s 0 (dotcount + 1) in
    let at_digit = ipv4_loop s (segment * 10 + c - b'0') dotcount in
    if c == b'.'
    then (if dot_follows s
        then none
        else if ltb 255 segment
        then none
        else if dotcount == 0 && segment == 0
        then none
        else at_dot)
    else if ltb c b'0' || ltb b'9' c
    then none
    else at_digit

-- The checks behind the loop.
unfoldable pub ipv4_verdict : Option (ℕ × ℕ) → AddressType
ipv4_verdict none = unknown
ipv4_verdict (some (segment, dotcount)) =
    if not (dotcount == 3) then unknown else if ltb 255 segment then unknown else ipv4

unfoldable pub get_address_type : Bytes → AddressType
unfolding ipv4_loop ipv4_verdict
get_address_type address =
    if not (is_empty (get_ipv6_long_form address))
    then ipv6
    else ipv4_verdict (ipv4_loop address 0 0)
