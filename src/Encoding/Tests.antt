-- ===== src/Encoding/Tests.antt =====
-- The theorems on percent-encoding at a concrete password.
use potato_etl.Base.{◌≡◌, refl, true, false, some, codes, Text, All, arith}
use potato_etl.Encoding.{pct_encode, decode_from, pct_decode}
use potato_etl.Encoding.RoundTrip.{IsBytes, is_delimiter, pct_decode-pct_encode, pct_encode-plain}

abbrev password : Text
password = codes "p@ss:w/rd#1%2"

encodes_password : pct_encode password ≡ codes "p%40ss%3Aw%2Frd%231%252"
unfolding pct_encode
encodes_password = refl

leaves_invalid_sequence : decode_from (codes "100%zz%4") ≡ codes "100%zz%4"
unfolding decode_from
leaves_invalid_sequence = refl

password-IsBytes : IsBytes password
password-IsBytes = omega arith

pct_decode-pct_encode_example : pct_decode (λ _. true) (pct_encode password) ≡ some password
pct_decode-pct_encode_example = pct_decode-pct_encode (λ _. true) password password-IsBytes refl

pct_encode-plain_example : All (λ c. is_delimiter c ≡ false) (pct_encode password)
pct_encode-plain_example = pct_encode-plain password password-IsBytes
