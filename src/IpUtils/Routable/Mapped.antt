-- ===== src/IpUtils/Routable/Mapped.antt =====
-- `is_routable_address` on IPv4 addresses, dotted or mapped into IPv6.
use lfz.Prelude.{
  ℕ, ◌∙◌, ap, ◌<◌, ◌/◌, ◌%◌, ◌≡◌, refl, arith, true, false, not, Bytes, [], ◌∷◌, ◌++◌, codes, Bool,
}
use lfz.Encode.Hex.{int_to_hex_char, hex_char_to_int}
use lfz.IpUtils.LongForm.{get_ipv6_long_form}
use lfz.IpUtils.AddressType.{ipv6, get_address_type}
use lfz.IpUtils.AddressType.Dotted.{dotted}
use lfz.IpUtils.Routable.{
  byte_at, mapped_ipv4, is_routable_ipv6, is_routable_step, is_routable_address,
}
use lfz.IpUtils.Routable.Octets.{is_local, step-dotted}

abbrev hex : ℕ → ℕ
hex = int_to_hex_char true

-- The long form of the IPv6 address into which an IPv4 address is mapped.
abbrev pub mapped : ℕ → ℕ → ℕ → ℕ → Bytes
mapped a b c d =
    codes "0000:0000:0000:0000:0000:ffff:"
    ++ (hex (a / 16)
        ∷ hex (a % 16)
        ∷ hex (b / 16)
        ∷ hex (b % 16)
        ∷ b':'
        ∷ hex (c / 16)
        ∷ hex (c % 16)
        ∷ hex (d / 16)
        ∷ hex (d % 16)
        ∷ [])

module _ (a b c d : ℕ) (ha : a < 256) (hb : b < 256) (hc : c < 256) (hd : d < 256) where
  bytes_read :
      (byte_at (mapped a b c d) 30 ≡ a)
      × (byte_at (mapped a b c d) 32 ≡ b)
      × (byte_at (mapped a b c d) 35 ≡ c)
      × (byte_at (mapped a b c d) 37 ≡ d)
  unfolding int_to_hex_char hex_char_to_int
  bytes_read = (ground (arith, ha), ground (arith, hb), ground (arith, hc), ground (arith, hd))

  mapped_ipv4-mapped : mapped_ipv4 (mapped a b c d) ≡ dotted a b c d
  unfolding mapped_ipv4
  mapped_ipv4-mapped = let (p, q, r, s) = bytes_read in rw (p, q, r, s)

  is_routable_ipv6-mapped :
      (rec : Bytes → Bool) (address : Bytes)
      → get_ipv6_long_form address ≡ mapped a b c d
      → is_routable_ipv6 rec address ≡ rec (dotted a b c d)
  unfolding is_routable_ipv6
  is_routable_ipv6-mapped rec address e = rw (e, is_routable_ipv6) (ap rec mapped_ipv4-mapped)

-- An IPv4 address of four octets of which the first is not 0, written dotted, or as a text whose long
-- form is the IPv6 address into which it is mapped, is routable unless its first octet is 127 or 10,
-- or its first two are 192 and 168, 169 and 254, or 172 and one from 16 to 31.
pub is_routable_address-octets :
    (a b c d : ℕ) (address : Bytes)
    → 0 < a
    → a < 256
    → b < 256
    → c < 256
    → d < 256
    → get_ipv6_long_form address ≡ mapped a b c d
    → (is_routable_address (dotted a b c d) ≡ not (is_local a b))
      × (is_routable_address address ≡ not (is_local a b))
unfolding is_routable_address get_address_type
is_routable_address-octets a b c d address pos ha hb hc hd e =
    let type : get_address_type address ≡ ipv6 = rw (e, get_address_type) refl in
    let step = is_routable_step (λ _. false) in
    (
      step-dotted a b c d ha hb hc hd step pos,
      unfold is_routable_step in
          rw (type, is_routable_step)
            (is_routable_ipv6-mapped a b c d ha hb hc hd step address e
              ∙ step-dotted a b c d ha hb hc hd (λ _. false) pos),
    )
