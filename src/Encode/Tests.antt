-- ===== src/Encode/Tests.antt =====
-- The encoders' theorems at concrete texts, and runs.
use lfz.Prelude.{◌≡◌, refl, arith, true, false, [], ◌∷◌, codes}
use lfz.Encode.Hex.{hex_encode, hex_decode}
use lfz.Encode.Hex.RoundTrip.{hex_decode-encode}
use lfz.Encode.Base64.{base64_encode, base64_decode, decode_outcome, stuck}
use lfz.Encode.Base64.Tables.{Base64Type}
use lfz.Encode.Base64.RoundTrip.{base64_decode-encode}
use lfz.Encode.Base32.{base32_encode, base32_decode}
use lfz.Encode.Base32.Tables
use lfz.Encode.Base32.RoundTrip.{base32_decode-encode}
use lfz.Encode.Percent.{percent_encode, percent_decode}
use lfz.Encode.Percent.RoundTrip.{percent_decode-encode}

base64_runs : base64_encode (codes "foob") Base64Type.standard true ≡ codes "Zm9vYg=="
unfolding base64_encode lfz.Encode.Base64.base64_encode_append lfz.Encode.Base64.base64_groups
    lfz.Encode.Base64.Tables.base64_chars
base64_runs = refl

hex_decode-encode_example :
    hex_decode (hex_encode true (0 ∷ 0xab ∷ 0xff ∷ [])) ≡ 0 ∷ 0xab ∷ 0xff ∷ []
hex_decode-encode_example = hex_decode-encode true (0 ∷ 0xab ∷ 0xff ∷ []) (omega arith)

base64_decode-encode_example :
    base64_decode (base64_encode (0xfb ∷ 0xff ∷ 0 ∷ 1 ∷ []) Base64Type.url false)
    ≡ 0xfb ∷ 0xff ∷ 0 ∷ 1 ∷ []
base64_decode-encode_example =
    base64_decode-encode Base64Type.url false (0xfb ∷ 0xff ∷ 0 ∷ 1 ∷ []) (omega arith)

base32_decode-encode_example :
    base32_decode
      (base32_encode (codes "lfz!") Tables.Base32Type.locale_safe true)
      Tables.Base32Type.locale_safe
    ≡ codes "lfz!"
base32_decode-encode_example =
    base32_decode-encode Tables.Base32Type.locale_safe true (codes "lfz!") (omega arith)

percent_decode-encode_example :
    percent_decode false (percent_encode true (codes "/a b%c")) ≡ codes "/a b%c"
percent_decode-encode_example = percent_decode-encode true false (codes "/a b%c") (omega arith)
