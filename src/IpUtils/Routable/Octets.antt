-- ===== src/IpUtils/Routable/Octets.antt =====
-- `is_routable_address` on dotted decimal addresses.
use lfz.Prelude.{
  ℕ, ◌+◌, ◌≤◌, ◌<◌, ◌/◌, ◌%◌, ◌≡◌, refl, some, inl, inr, Bool-cases, Bool, true, false, ◌&&◌, arith,
  ◌||◌, not, Bytes, [], ◌∷◌, ◌++◌, ltb, leb, ◌==◌, length, length-append, to_string, find,
  to_integral, find_if, if◌then◌else◌, suc, take, codes, three_digits, to_string_three,
}
use mathlib.Core.Path.{subst⁻¹}
use lfz.IpUtils.AddressType.Dotted.{dotted, octet_shape, dotted-ipv4}
use lfz.IpUtils.Routable.{same, is_routable_ipv4, is_routable_step}

-- The addresses of the host itself, of private networks and of a single link, by the first two octets.
abbrev pub is_local : ℕ → ℕ → Bool
is_local a b =
    a == 127
    || a == 10
    || (a == 192 && b == 168)
    || (a == 169 && b == 254)
    || (a == 172 && leb 16 b && leb b 31)

abbrev Octets : ℕ → ℕ → Bytes → Bytes → Bytes → Type 0
Octets a b rest s t = is_routable_ipv4 (s ++ (b'.' ∷ (t ++ (b'.' ∷ rest)))) ≡ not (is_local a b)

-- A printed octet has one, two or three digits, and not more than it needs.
octet_digits :
    (n : ℕ) (P : Bytes → Type 0)
    → n < 256
    → (n < 10 → P ((b'0' + n) ∷ []))
    → (10 ≤ n → n < 100 → P ((b'0' + n / 10) ∷ (b'0' + n % 10) ∷ []))
    → (100 ≤ n → P ((b'0' + n / 100) ∷ (b'0' + n / 10 % 10) ∷ (b'0' + n % 10) ∷ []))
    → P (to_string n)
unfolding three_digits
octet_digits n P h one two three =
    subst⁻¹ P (to_string_three n (omega arith)) (elim (Bool-cases (ltb n 10)) [
      | inl e ↦ rw e (one (ground arith))
      | inr more ↦ elim (Bool-cases (ltb n 100)) [
        | inl e ↦ rw (more, e) (two (ground arith) (ground arith))
        | inr e ↦ rw (more, e) (three (ground arith))
      ]
    ])

module _ (a b : ℕ) (rest : Bytes) (hb : b < 256) (h : 3 ≤ length rest) where
  one_digit : a < 10 → Octets a b rest ((b'0' + a) ∷ []) (to_string b)
  unfolding is_routable_ipv4
  one_digit ha =
      octet_digits b (Octets a b rest ((b'0' + a) ∷ [])) hb (λ few. ground (arith, ha, h, few))
        (λ some_more few. ground (arith, ha, h, few)) (λ many. ground (arith, ha, h))

  two_digits :
      10 ≤ a → a < 100 → Octets a b rest ((b'0' + a / 10) ∷ (b'0' + a % 10) ∷ []) (to_string b)
  unfolding is_routable_ipv4
  two_digits more ha =
      octet_digits b (Octets a b rest ((b'0' + a / 10) ∷ (b'0' + a % 10) ∷ [])) hb
        (λ few. ground (arith, more, ha, h, few))
        (λ some_more few. ground (arith, more, ha, h, few)) (λ many. ground (arith, more, ha, h))

-- What the code finds in the text from the second octet on.
record IsSecond (b : ℕ) (u : Bytes) : Type 0 where
  at_168 : same (take 3 u) (codes "168") ≡ (b == 168)
  at_254 : same (take 3 u) (codes "254") ≡ (b == 254)
  dot : ℕ
  found : find b'.' u ≡ some dot
  few : ltb 3 dot ≡ false
  read : to_integral 256 (take dot u) ≡ some b

octet-IsSecond : (b : ℕ) (rest : Bytes) → b < 256 → IsSecond b (to_string b ++ (b'.' ∷ rest))
unfolding find find_if to_integral
octet-IsSecond b rest hb =
    octet_digits b (λ t. IsSecond b (t ++ (b'.' ∷ rest))) hb
      (λ less. record {
        at_168 = ground (arith, less);
        at_254 = ground (arith, less);
        dot = 1;
        found = ground (arith, less);
        few = refl;
        read = ground (arith, less);
      })
      (λ more less. record {
        at_168 = ground (arith, less);
        at_254 = ground (arith, less);
        dot = 2;
        found = ground (arith, less);
        few = refl;
        read = ground (arith, less);
      })
      (λ more. record {
        at_168 = ground (arith, hb, more);
        at_254 = ground (arith, hb, more);
        dot = 3;
        found = ground (arith, hb);
        few = refl;
        read = ground (arith, hb);
      })

-- The comparisons with the digits of the first octet.
module _ (a : ℕ) (more : 100 ≤ a) (ha : a < 256) where
  at_127 :
      same ((b'0' + a / 100) ∷ (b'0' + a / 10 % 10) ∷ (b'0' + a % 10) ∷ []) (codes "127")
      ≡ (a == 127)
  at_127 = ground (arith, more, ha)

  at_172 :
      same ((b'0' + a / 100) ∷ (b'0' + a / 10 % 10) ∷ (b'0' + a % 10) ∷ []) (codes "172")
      ≡ (a == 172)
  at_172 = ground (arith, more, ha)

  at_10 :
      same ((b'0' + a / 100) ∷ (b'0' + a / 10 % 10) ∷ (b'0' + a % 10) ∷ []) (codes "10.") ≡ false
  at_10 = ground (arith, more, ha)

  at_192 :
      (r : Bool)
      → (b'0' + a / 100 == b'1' && (b'0' + a / 10 % 10 == b'9' && (b'0' + a % 10 == b'2' && r)))
        ≡ (a == 192 && r)
  at_192 r = ground (arith, more, ha)

  at_169 :
      (r : Bool)
      → (b'0' + a / 100 == b'1' && (b'0' + a / 10 % 10 == b'6' && (b'0' + a % 10 == b'9' && r)))
        ≡ (a == 169 && r)
  at_169 r = ground (arith, more, ha)

  verdicts :
      (b : ℕ)
      → (if a == 127 || false || (a == 192 && b == 168) || (a == 169 && b == 254)
          then false
          else if a == 172
          then not (leb 16 b && leb b 31)
          else true)
        ≡ not (is_local a b)
  verdicts b = ground (arith, more)

  three_digits_first :
      (b : ℕ) (u : Bytes)
      → 3 ≤ length u
      → IsSecond b u
      → is_routable_ipv4 ((b'0' + a / 100) ∷ (b'0' + a / 10 % 10) ∷ (b'0' + a % 10) ∷ b'.' ∷ u)
        ≡ not (is_local a b)
  unfolding is_routable_ipv4
  three_digits_first b u h v =
      let long : ltb (suc (suc (suc (suc (length u))))) 7 ≡ false = ground (arith, h) in
      rw
        (
          v.found,
          v.few,
          v.read,
          v.at_168,
          v.at_254,
          long,
          at_127,
          at_172,
          at_10,
          at_192 (b == 168),
          at_169 (b == 254),
        )
        (verdicts b)

octets_long : (c d : ℕ) → c < 256 → d < 256 → 3 ≤ length (to_string c ++ (b'.' ∷ to_string d))
octets_long c d hc hd =
    let (c_all, c_some) = octet_shape c hc in
    let (d_all, d_some) = octet_shape d hd in
    omega (arith, length-append (to_string c) (b'.' ∷ to_string d))

module _ (a b c d : ℕ) (ha : a < 256) (hb : b < 256) (hc : c < 256) (hd : d < 256) where
  is_routable_ipv4-dotted : is_routable_ipv4 (dotted a b c d) ≡ not (is_local a b)
  is_routable_ipv4-dotted =
      let rest = to_string c ++ (b'.' ∷ to_string d) in
      let long = octets_long c d hc hd in
      octet_digits a (λ s. Octets a b rest s (to_string b)) ha
        (λ less. one_digit a b rest hb long less)
        (λ more less. two_digits a b rest hb long more less)
        (λ more.
          three_digits_first a more ha b (to_string b ++ (b'.' ∷ rest))
            (omega (arith, long, length-append (to_string b) (b'.' ∷ rest)))
            (octet-IsSecond b rest hb))

  pub step-dotted :
      (rec : Bytes → Bool) → 0 < a → is_routable_step rec (dotted a b c d) ≡ not (is_local a b)
  unfolding is_routable_step
  step-dotted rec pos =
      rw (dotted-ipv4 a b c d pos ha hb hc hd, is_routable_step) is_routable_ipv4-dotted
