-- ===== src/IpUtils/Routable/Depth.antt =====
-- The recursive call of `do_is_routable_address`.
use lfz.Prelude.{
  ℕ, ◌+◌, ◌<◌, ◌≡◌, refl, ap, arith, Bool, false, Bytes, [], Option, none, some, get_or,
}
use lfz.Encode.Hex.{hex_char_to_int}
use lfz.IpUtils.LongForm.{get_ipv6_long_form}
use lfz.IpUtils.AddressType.{ipv4, ipv6, unknown, ipv4_loop, ipv4_verdict, get_address_type}
use lfz.IpUtils.AddressType.Dotted.{dotted_not_ipv6}
use lfz.IpUtils.Routable.{byte_at, mapped_ipv4, is_routable_ipv4, is_routable_ipv6}
use lfz.IpUtils.Routable.{is_routable_step, is_routable_address}

digit_value : ℕ → ℕ
digit_value c = elim (hex_char_to_int c) [ none ↦ 0 | some d ↦ d ]

digit_value_bound : (c : ℕ) → digit_value c < 16
unfolding digit_value hex_char_to_int
digit_value_bound c = ground arith

byte_at_bound : (s : Bytes) (i : ℕ) → byte_at s i < 256
unfolding digit_value
byte_at_bound s i =
    omega (arith, digit_value_bound (get_or s i 0), digit_value_bound (get_or s (i + 1) 0))

mapped_not_ipv6 : (s : Bytes) → get_ipv6_long_form (mapped_ipv4 s) ≡ []
unfolding mapped_ipv4
mapped_not_ipv6 s =
    dotted_not_ipv6 (byte_at s 30) (byte_at s 32) (byte_at s 35) (byte_at s 37) (byte_at_bound s 30)
      (byte_at_bound s 32) (byte_at_bound s 35) (byte_at_bound s 37)

verdict_calls_nothing :
    (read : Option (ℕ × ℕ)) (a b c d : Bool)
    → (elim (ipv4_verdict read) [ ipv6 ↦ a | ipv4 ↦ c | unknown ↦ d ])
      ≡ (elim (ipv4_verdict read) [ ipv6 ↦ b | ipv4 ↦ c | unknown ↦ d ])
unfolding ipv4_verdict
verdict_calls_nothing none a b c d = refl
verdict_calls_nothing (some (segment, dotcount)) a b c d = ground arith

mapped_verdict :
    (s : Bytes) → get_address_type (mapped_ipv4 s) ≡ ipv4_verdict (ipv4_loop (mapped_ipv4 s) 0 0)
unfolding get_address_type
mapped_verdict s = rw (mapped_not_ipv6 s, get_address_type)

-- Whatever the recursive call would do, it is not made on a mapped text.
mapped_calls_nothing :
    (f g : Bytes → Bool) (s : Bytes)
    → is_routable_step f (mapped_ipv4 s) ≡ is_routable_step g (mapped_ipv4 s)
unfolding is_routable_step
mapped_calls_nothing f g s =
    rw (mapped_verdict s, is_routable_step)
      (verdict_calls_nothing (ipv4_loop (mapped_ipv4 s) 0 0) (is_routable_ipv6 f (mapped_ipv4 s))
        (is_routable_ipv6 g (mapped_ipv4 s)) (is_routable_ipv4 (mapped_ipv4 s)) false)

ipv6_nested :
    (f g : Bytes → Bool) (address : Bytes)
    → is_routable_ipv6 (is_routable_step f) address ≡ is_routable_ipv6 (is_routable_step g) address
unfolding is_routable_ipv6
ipv6_nested f g address = rw (mapped_calls_nothing f g (get_ipv6_long_form address))

step_same :
    (f g : Bytes → Bool) (address : Bytes)
    → is_routable_ipv6 f address ≡ is_routable_ipv6 g address
    → is_routable_step f address ≡ is_routable_step g address
unfolding is_routable_step
step_same f g address e =
    ap
      (λ b. elim (get_address_type address) [
        | ipv6 ↦ b
        | ipv4 ↦ is_routable_ipv4 address
        | unknown ↦ false
      ])
      e

-- `is_routable_address` satisfies the recursion of the code: one call, with itself as the recursive
-- call, on every text.
is_routable_address_recursion :
    (address : Bytes) → is_routable_address address ≡ is_routable_step is_routable_address address
unfolding is_routable_address
is_routable_address_recursion address =
    step_same (is_routable_step (λ _. false)) (is_routable_step (is_routable_step (λ _. false)))
      address (ipv6_nested (λ _. false) (is_routable_step (λ _. false)) address)
