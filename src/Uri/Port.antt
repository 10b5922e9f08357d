-- ===== src/Uri/Port.antt =====
-- The host and the port of a URI, printed and read back.
use lfz.Prelude.{ℕ, ◌+◌, ◌<◌, ◌≡◌, refl, sym, ap, ◌∙◌, arith, true, false, not}
use lfz.Prelude.{Bytes, [], ◌∷◌, ◌++◌, ◌&&◌, ◌==◌, none, All, All-map}
use lfz.Prelude.{length, drop, is_empty, Lacks, elem, find_if}
use lfz.Prelude.{
  take-at, drop-after, rfind-none, rfind-append, find_if-none, append-nil, to_string, rfind,
}
use lfz.Prelude.{if◌then◌else◌, Bool-cases, inl, inr, ◌⊎◌, ==_iff}
use lfz.Prelude.Digits.{IsDigit, to_string-IsDigit, to_integral-to_string}
use lfz.Encode.Percent.{is_unreserved, percent_encode}
use lfz.Encode.Percent.RoundTrip.{IsText, percent_decode-encode}
use lfz.Encode.Percent.Escaped.{IsEscaped, is_escaped, percent_encode-IsEscaped, IsEscaped-Lacks}
use lfz.Encode.Percent.Escaped.{is_empty-percent_encode}
use lfz.Uri.{Uri, split_port, set_host}
use lfz.Uri.{port_number, digit, bad_literal}

digit-elem : (c : ℕ) → IsDigit c → not (elem c digit) ≡ false
unfolding elem
digit-elem c h = ground arith

digit-not_colon : (c : ℕ) → IsDigit c → (c == b':') ≡ false
digit-not_colon c h = ground arith

-- A printed port has no `@` and no slash.
pub port-Lacks :
    (c port : ℕ)
    → (b':' == c) ≡ false
    → (c < b'0') ⊎ (b'9' < c)
    → Lacks c (if port == 0 then [] else b':' ∷ to_string port)
port-Lacks c port colon h = elim (Bool-cases (port == 0)) [
  | inl e ↦ rw e tt
  | inr e ↦ rw e (
    colon,
    All-map IsDigit (λ x. (x == c) ≡ false) (to_string port) (λ x d. ground arith)
        (to_string-IsDigit port),
  )
]

-- A host and the digits of a port are told apart again.
split_at :
    (host digits : Bytes) (u : Uri)
    → All IsDigit digits
    → split_port (host ++ (b':' ∷ digits), u) ≡ (host, record u { port_ = port_number digits })
unfolding split_port rfind
split_at host digits u h =
    let no_colon = All-map IsDigit (λ x. (x == b':') ≡ false) digits digit-not_colon h in
    let all_digits = All-map IsDigit (λ x. not (elem x digit) ≡ false) digits digit-elem h in
    let behind : find_if (λ c. not (elem c digit))
          (drop (length host + 1) (host ++ (b':' ∷ digits)))
        ≡ none =
      rw (drop-after host digits b':') (find_if-none (λ c. not (elem c digit)) digits all_digits) in
    rw (rfind-append b':' host digits no_colon, split_port)
      (rw (behind, split_port) (rw (take-at host digits b':', drop-after host digits b':')))

no_port : (host : Bytes) (u : Uri) → Lacks b':' host → split_port (host, u) ≡ (host, u)
unfolding split_port rfind
no_port host u h = rw (rfind-none b':' host h, split_port)

-- `host[:port]` is read as the host, still encoded, and the port.
pub split_port-print :
    (host : Bytes) (port : ℕ) (u : Uri)
    → Lacks b':' host
    → port < 65536
    → u.port_ ≡ 0
    → split_port (host ++ (if port == 0 then [] else b':' ∷ to_string port), u)
      ≡ (host, record u { port_ = port })
unfolding port_number
split_port-print host port u h small unset = elim (Bool-cases (port == 0)) [
  | inl e ↦
      rw (e, append-nil host)
        (no_port host u h
          ∙ ap (λ p. (host, record u { port_ = p })) (unset ∙ sym ((==_iff port 0).0 e)))
  | inr e ↦ rw e (
      split_at host (to_string port) u (to_string-IsDigit port)
      ∙ rw (to_integral-to_string port small, port_number))
]

bad_literal-escaped : (s : Bytes) → All (IsEscaped false) s → bad_literal s ≡ false
unfolding bad_literal is_escaped is_unreserved
bad_literal-escaped [] h = refl
bad_literal-escaped (c ∷ s) h =
    let (first, _) = IsEscaped-Lacks false b'[' (c ∷ s) refl h in rw (first, bad_literal)

pub set_host-encode :
    (host : Bytes) (u : Uri)
    → All IsText host
    → set_host (percent_encode false host, u) ≡ (true, record u { host_ = host })
unfolding set_host
set_host-encode host u h =
    let kept : (is_empty host && not (is_empty host)) ≡ false = ground arith in
    rw (
      bad_literal-escaped (percent_encode false host) (percent_encode-IsEscaped false host h),
      percent_decode-encode false false host h,
      is_empty-percent_encode false host h,
      kept,
      set_host,
    )
