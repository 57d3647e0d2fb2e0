-- ===== src/Encoding.antt =====
-- common/src/config/encoding.rs: percent-encoding of user names and passwords. A text is the list
-- of its UTF-8 bytes.
pub mod RoundTrip
mod Tests
use potato_etl.Base.{
  ◌>>=◌, ℕ, zero, suc, ◌+◌, ◌-◌, ◌*◌, ◌/◌, ◌%◌, Bool, true, false, ◌&&◌, ◌||◌, Option, none, some,
  List, [], ◌∷◌, ◌++◌, Text, codes, ◌==◌, leb, if◌then◌else◌, any,
}

-- `SAFE.contains(&byte)`
unfoldable pub is_safe : ℕ → Bool
is_safe byte =
    any (λ c. c == byte)
      (codes "ABCDEFGHIJKLMNOPQRSTUVWXYZabcdefghijklmnopqrstuvwxyz0123456789-._~!$&'()*+,;=")

-- An upper-case hexadecimal digit, as `{:02X}` writes it.
unfoldable pub hex_digit : ℕ → ℕ
hex_digit n = if leb n 9 then b'0' + n else b'A' + (n - 10)

unfoldable pub pct_encode : Text → Text
unfolding is_safe hex_digit
pct_encode [] = []
pct_encode (byte ∷ s) =
    (if is_safe byte then byte ∷ [] else b'%' ∷ hex_digit (byte / 16) ∷ hex_digit (byte % 16) ∷ [])
    ++ pct_encode s

-- `char::to_digit(16)`
unfoldable pub to_digit : ℕ → Option ℕ
to_digit c =
    if leb b'0' c && leb c b'9'
    then some (c - b'0')
    else if leb b'A' c && leb c b'F'
    then some (c - b'A' + 10)
    else if leb b'a' c && leb c b'f'
    then some (c - b'a' + 10)
    else none

-- `u8::from_str_radix(hex_str, 16)` on two bytes: a leading `+` is a sign. (Two bytes that are not
-- valid UTF-8 hold no digit, so the source's `from_utf8` check before it changes nothing.)
unfoldable pub from_str_radix : ℕ → ℕ → Option ℕ
unfolding to_digit
from_str_radix x y =
    if x == b'+' then to_digit y else do high ← to_digit x; low ← to_digit y; some (high * 16 + low)

-- The loop of `pct_decode` over the bytes from `i` on. A `%` with two bytes behind it is decoded if
-- they are a number; any other byte is copied.
unfoldable pub decode_from : Text → Text
unfolding from_str_radix
decode_from [] = []
decode_from (b ∷ x ∷ y ∷ rest) =
    let copied = b ∷ decode_from (x ∷ y ∷ rest) in
    let after = decode_from rest in
    if b == b'%'
    then elim (from_str_radix x y) [ none ↦ copied | some byte ↦ byte ∷ after ]
    else copied
decode_from (b ∷ rest) = b ∷ decode_from rest

-- `is_utf8` is `String::from_utf8(..).is_ok()`; `none` is its error.
unfoldable pub pct_decode : (Text → Bool) → Text → Option Text
unfolding decode_from
pct_decode is_utf8 s = let out = decode_from s in if is_utf8 out then some out else none
