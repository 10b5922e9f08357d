-- ===== src/IpUtils/AddressType/Dotted.antt =====
-- `do_get_address_type` on dotted decimal texts.
use lfz.Prelude.{
  ℕ, ◌+◌, ◌*◌, ◌≤◌, ◌<◌, ◌/◌, ◌%◌, ◌≡◌, refl, sym, some, All-append, All-map, length-append,
  append-nil, ap, ◌∙◌, inl, inr, Bool-cases, All, ◌&&◌, arith, false, ◌||◌, Bytes, [], ◌∷◌, ◌++◌,
  ltb, ◌==◌, length, to_string, three_digits, to_string_three,
}
use mathlib.Core.Path.{subst⁻¹}
use lfz.IpUtils.LongForm.{get_ipv6_long_form}
use lfz.IpUtils.LongForm.Refused.{plain_refused}
use lfz.IpUtils.AddressType.{ipv4, dot_follows, ipv4_loop, get_address_type}

-- Three octets with a dot behind each, and a text.
abbrev pub octets_before : ℕ → ℕ → ℕ → Bytes → Bytes
octets_before a b c t =
    to_string a ++ (b'.' ∷ (to_string b ++ (b'.' ∷ (to_string c ++ (b'.' ∷ t)))))

-- `a.b.c.d`
abbrev pub dotted : ℕ → ℕ → ℕ → ℕ → Bytes
dotted a b c d = octets_before a b c (to_string d)

-- A printed octet has one, two or three digits.
octet_cases :
    (n : ℕ) (P : Bytes → Type 0)
    → n < 256
    → (n < 10 → P ((b'0' + n) ∷ []))
    → (n < 100 → P ((b'0' + n / 10) ∷ (b'0' + n % 10) ∷ []))
    → P ((b'0' + n / 100) ∷ (b'0' + n / 10 % 10) ∷ (b'0' + n % 10) ∷ [])
    → P (to_string n)
unfolding three_digits
octet_cases n P h one two three =
    subst⁻¹ P (to_string_three n (omega arith)) (elim (Bool-cases (ltb n 10)) [
      | inl e ↦ rw e (one (ground arith))
      | inr more ↦ elim (Bool-cases (ltb n 100)) [
        | inl e ↦ rw (more, e) (two (ground arith))
        | inr e ↦ rw (more, e) three
      ]
    ])

digit_read :
    (d segment m k : ℕ) (s : Bytes)
    → d < 10
    → segment * 10 + d ≡ m
    → ipv4_loop ((b'0' + d) ∷ s) segment k ≡ ipv4_loop s m k
unfolding ipv4_loop
digit_read d segment m k s h e =
    let no_dot : (b'0' + d == b'.') ≡ false = ground arith in
    let is_digit : (ltb (b'0' + d) b'0' || ltb b'9' (b'0' + d)) ≡ false = ground arith in
    rw (no_dot, is_digit) (ap (λ (m : ℕ). ipv4_loop s m k) (omega arith))

-- Reading the digits of an octet.
octet_read : (n k : ℕ) (s : Bytes) → n < 256 → ipv4_loop (to_string n ++ s) 0 k ≡ ipv4_loop s n k
octet_read n k s h =
    octet_cases n (λ t. ipv4_loop (t ++ s) 0 k ≡ ipv4_loop s n k) h
      (λ few. digit_read n 0 n k s few (omega arith))
      (λ few.
        digit_read (n / 10) 0 (n / 10) k _ (omega arith) (omega arith)
        ∙ digit_read (n % 10) (n / 10) n k s (omega arith) (omega arith))
      (digit_read (n / 100) 0 (n / 100) k _ (omega arith) (omega arith)
        ∙ digit_read (n / 10 % 10) (n / 100) (n / 10) k _ (omega arith) (omega arith)
        ∙ digit_read (n % 10) (n / 10) n k s (omega arith) (omega arith))

-- A unit of a dotted text.
abbrev IsDotted : ℕ → Type 0
IsDotted c = (b'.' ≤ c) × (c ≤ b'9')

pub octet_shape : (n : ℕ) → n < 256 → All IsDotted (to_string n) × (1 ≤ length (to_string n))
octet_shape n h =
    octet_cases n (λ t. All IsDotted t × (1 ≤ length t)) h (λ few. omega arith) (λ few. omega arith)
      (omega arith)

front_digit : (n : ℕ) (s : Bytes) → n < 256 → dot_follows (to_string n ++ s) ≡ false
front_digit n s h =
    octet_cases n (λ t. dot_follows (t ++ s) ≡ false) h (λ few. ground arith) (λ few. ground arith)
      (ground arith)

dot_read :
    (n k d : ℕ) (s : Bytes)
    → n < 256
    → (k ≡ 0 → 0 < n)
    → d < 256
    → ipv4_loop (b'.' ∷ (to_string d ++ s)) n k ≡ ipv4_loop s d (k + 1)
unfolding ipv4_loop
dot_read n k d s h first hd =
    let small : ltb 255 n ≡ false = ground arith in
    let fine : (k == 0 && n == 0) ≡ false = ground (arith, first) in
    rw (front_digit d s hd, small, fine) (octet_read d (k + 1) s hd)

module _ (a b c : ℕ) (ha : a < 256) (hb : b < 256) (hc : c < 256) where
  octets_shape :
      (t : Bytes)
      → All IsDotted t
      → All IsDotted (octets_before a b c t) × (5 ≤ length (octets_before a b c t))
  octets_shape t t_all =
      let (a_all, a_some) = octet_shape a ha in
      let (b_all, b_some) = octet_shape b hb in
      let (c_all, c_some) = octet_shape c hc in
      let dot : IsDotted b'.' = omega arith in
      let at_c = All-append IsDotted _ _ c_all (dot, t_all) in
      let at_b = All-append IsDotted _ _ b_all (dot, at_c) in
      (
        All-append IsDotted _ _ a_all (dot, at_b),
        omega (
          arith,
          length-append (to_string a)
              (b'.' ∷ (to_string b ++ (b'.' ∷ (to_string c ++ (b'.' ∷ t))))),
          length-append (to_string b) (b'.' ∷ (to_string c ++ (b'.' ∷ t))),
          length-append (to_string c) (b'.' ∷ t),
        ),
      )

  octets_not_ipv6 : (t : Bytes) → All IsDotted t → get_ipv6_long_form (octets_before a b c t) ≡ []
  octets_not_ipv6 t t_all =
      let (all, long) = octets_shape t t_all in
      plain_refused _ (All-map IsDotted _ _ (λ x h. ground arith) all)
        (All-map IsDotted _ _ (λ x h. ground arith) all) long

  octets_read :
      (t : Bytes) → 0 < a → ipv4_loop (octets_before a b c t) 0 0 ≡ ipv4_loop (b'.' ∷ t) c 2
  octets_read t pos =
      octet_read a 0 _ ha
      ∙ dot_read a 0 b _ ha (λ _. pos) hb
      ∙ dot_read b 1 c _ hb (λ e. absurd (omega arith)) hc

  dotted_read : (d : ℕ) → 0 < a → d < 256 → ipv4_loop (dotted a b c d) 0 0 ≡ some (d, 3)
  dotted_read d pos hd =
      octets_read (to_string d) pos
      ∙ ap (λ (t : Bytes). ipv4_loop (b'.' ∷ t) c 2) (sym (append-nil (to_string d)))
      ∙ dot_read c 2 d [] hc (λ e. absurd (omega arith)) hd
      ∙ (unfold ipv4_loop in refl)

  last_dot_read : 0 < a → ipv4_loop (octets_before a b c []) 0 0 ≡ some (0, 3)
  unfolding ipv4_loop
  last_dot_read pos = let small : ltb 255 c ≡ false = ground arith in octets_read [] pos ∙ rw small

pub dotted_not_ipv6 :
    (a b c d : ℕ) → a < 256 → b < 256 → c < 256 → d < 256 → get_ipv6_long_form (dotted a b c d) ≡ []
dotted_not_ipv6 a b c d ha hb hc hd =
    let (d_all, _) = octet_shape d hd in octets_not_ipv6 a b c ha hb hc (to_string d) d_all

-- Every dotted decimal of four octets of which the first is not 0 is an IPv4 address.
pub dotted-ipv4 :
    (a b c d : ℕ)
    → 0 < a
    → a < 256
    → b < 256
    → c < 256
    → d < 256
    → get_address_type (dotted a b c d) ≡ ipv4
unfolding get_address_type
dotted-ipv4 a b c d pos ha hb hc hd =
    let small : ltb 255 d ≡ false = ground arith in
    let (d_all, _) = octet_shape d hd in
    rw (
      octets_not_ipv6 a b c ha hb hc (to_string d) d_all,
      dotted_read a b c ha hb hc d pos hd,
      small,
    )

-- A text of only three octets with a dot behind each is taken for an IPv4 address as well.
pub three_octets-ipv4 :
    (a b c : ℕ)
    → 0 < a
    → a < 256
    → b < 256
    → c < 256
    → get_address_type (octets_before a b c []) ≡ ipv4
unfolding get_address_type
three_octets-ipv4 a b c pos ha hb hc =
    rw (octets_not_ipv6 a b c ha hb hc [] tt, last_dot_read a b c ha hb hc pos)
