-- ===== src/IpUtils/Routable.antt =====
-- `do_is_routable_address`.
mod Depth
pub mod Octets
pub mod Mapped
use lfz.Prelude.{
  ℕ, ◌+◌, ◌*◌, ◌&&◌, ◌||◌, not, Bool, true, false, Bytes, [], ◌∷◌, ◌++◌, take, drop, get_or,
}
use lfz.Prelude.{
  length, codes, leb, ltb, ◌==◌, if◌then◌else◌, none, some, find, to_string, to_integral, bit_and,
}
use lfz.IpUtils.LongForm.{get_ipv6_long_form}
use lfz.IpUtils.AddressType.{unknown, ipv4, ipv6, get_address_type}
use lfz.Encode.Hex.{hex_char_to_int}

-- `==` of two strings.
abbrev pub same : Bytes → Bytes → Bool
same [] [] = true
same [] (y ∷ ys) = false
same (x ∷ xs) [] = false
same (x ∷ xs) (y ∷ ys) = x == y && same xs ys

-- `hex_char_to_int` of a digit of a long form, where it cannot be -1.
abbrev pub hex_at : Bytes → ℕ → ℕ
hex_at s i = elim (hex_char_to_int (get_or s i 0)) [ none ↦ 0 | some d ↦ d ]

abbrev pub byte_at : Bytes → ℕ → ℕ
byte_at s i = hex_at s i * 16 + hex_at s (i + 1)

-- The IPv4 text of a mapped address.
unfoldable pub mapped_ipv4 : Bytes → Bytes
mapped_ipv4 s =
    to_string (byte_at s 30)
    ++ (b'.'
        ∷ (to_string (byte_at s 32)
            ++ (b'.' ∷ (to_string (byte_at s 35) ++ (b'.' ∷ to_string (byte_at s 37))))))

-- The IPv4 branch, for a text that is an IPv4 address.
unfoldable pub is_routable_ipv4 : Bytes → Bool
is_routable_ipv4 address =
    if ltb (length address) 7
    then false
    else if same (take 3 address) (codes "127")
        || same (take 3 address) (codes "10.")
        || same (take 7 address) (codes "192.168")
        || same (take 7 address) (codes "169.254")
    then false
    else if same (take 3 address) (codes "172")
    then elim (find b'.' (drop 4 address)) [
      | none ↦ false
      | some pos ↦ if ltb 3 pos then false else elim (to_integral 256 (take pos (drop 4 address))) [
        | none ↦ true
        | some segment ↦ not (leb 16 segment && leb segment 31)
      ]
    ]
    else true

-- The IPv6 branch; `rec` is the recursive call, on the text of a mapped address.
unfoldable pub is_routable_ipv6 : (Bytes → Bool) → Bytes → Bool
is_routable_ipv6 rec address =
    let s = get_ipv6_long_form address in
    if not (length s == 39)
    then false
    else if get_or s 0 0 == b'0'
    then (if same s (codes "0000:0000:0000:0000:0000:0000:0000:0000")
        then false
        else if same s (codes "0000:0000:0000:0000:0000:0000:0000:0001")
        then false
        else if same (take 30 s) (codes "0000:0000:0000:0000:0000:ffff:")
        then rec (mapped_ipv4 s)
        else true)
    else if get_or s 0 0 == b'f'
    then (if get_or s 1 0 == b'e'
        then not (bit_and (hex_at s 2) 0xc == 0x8)
        else if get_or s 1 0 == b'c' || get_or s 1 0 == b'd'
        then false
        else true)
    else true

-- One call, with the recursive call as a parameter.
unfoldable pub is_routable_step : (Bytes → Bool) → Bytes → Bool
is_routable_step rec address = elim (get_address_type address) [
  | ipv6 ↦ is_routable_ipv6 rec address
  | ipv4 ↦ is_routable_ipv4 address
  | unknown ↦ false
]

-- A call of depth two, which is enough for the one recursive call on a mapped address.
unfoldable pub is_routable_address : Bytes → Bool
unfolding is_routable_step
is_routable_address = is_routable_step (is_routable_step (λ _. false))
