-- ===== src/Encoding/RoundTrip.antt =====
-- Decoding undoes encoding, and what encoding produces is safe in a URL's userinfo.
use potato_etl.Base.{
  holds_below, holds_below_lem, ◌<◌, not, any, codes, ◌&&◌, ◌/◌, ◌%◌, ◌==◌, some, Bool, Bool-cases,
  inl, inr, true, false, ap, ℕ, ◌≡◌, ◌≢◌, refl, [], ◌∷◌, Text, All, arith,
}
use potato_etl.Encoding.{
  is_safe, hex_digit, pct_encode, to_digit, from_str_radix, decode_from, pct_decode,
}

abbrev pub IsBytes : Text → Type 0
IsBytes = All (λ b. b < 256)

decode_from-copy : (b : ℕ) (s : Text) → b ≢ b'%' → decode_from (b ∷ s) ≡ b ∷ decode_from s
unfolding decode_from
decode_from-copy b [] h = refl
decode_from-copy b (x ∷ []) h = refl
decode_from-copy b (x ∷ y ∷ s) h = ground arith

false_of_not : (b : Bool) → not b ≡ true → b ≡ false
false_of_not true h = cc
false_of_not false h = refl

false_of_nand : (a b : Bool) → a ≡ true → not (a && b) ≡ true → b ≡ false
false_of_nand a b h k = ground arith

is_safe-ne_percent : (b : ℕ) → is_safe b ≡ true → b ≢ b'%'
unfolding is_safe
is_safe-ne_percent b h = λ e. let k : is_safe b'%' ≡ true = rw e at h in cc k

to_digit-hex_digit : (n : ℕ) → n < 16 → to_digit (hex_digit n) ≡ some n
unfolding to_digit hex_digit
to_digit-hex_digit n h = ground arith

hex_digit-ne_plus : (n : ℕ) → (hex_digit n == b'+') ≡ false
unfolding hex_digit
hex_digit-ne_plus n = ground arith

from_str_radix-hex_digit :
    (b : ℕ) → b < 256 → from_str_radix (hex_digit (b / 16)) (hex_digit (b % 16)) ≡ some b
unfolding from_str_radix
from_str_radix-hex_digit b h =
    rw
      (
        hex_digit-ne_plus,
        to_digit-hex_digit (b / 16) (omega arith),
        to_digit-hex_digit (b % 16) (omega arith),
      )
      (ap some (omega arith))

decode_from-pct_encode : (s : Text) → IsBytes s → decode_from (pct_encode s) ≡ s
unfolding pct_encode decode_from
decode_from-pct_encode [] h = refl
decode_from-pct_encode (b ∷ s) h = elim (Bool-cases (is_safe b)) [
  | inl safe ↦ rw safe (
      rw (
        decode_from-copy b (pct_encode s) (is_safe-ne_percent b safe),
        decode_from-pct_encode s h.1,
      ))
  | inr unsafe ↦ rw unsafe (rw (from_str_radix-hex_digit b h.0, decode_from-pct_encode s h.1))
]

-- Decoding an encoded text gives the text back, whatever characters it holds: `%` too.
pub pct_decode-pct_encode :
    (is_utf8 : Text → Bool) (s : Text)
    → IsBytes s
    → is_utf8 s ≡ true
    → pct_decode is_utf8 (pct_encode s) ≡ some s
unfolding pct_decode
pct_decode-pct_encode is_utf8 s h valid = rw (decode_from-pct_encode s h, valid)

-- The delimiters of a URL around its userinfo.
abbrev pub is_delimiter : ℕ → Bool
is_delimiter c = any (λ d. d == c) (codes ":@/#?[] ")

delimiters_unsafe : holds_below (λ b. not (is_safe b && is_delimiter b)) 256 ≡ true
unfolding holds_below is_safe
delimiters_unsafe = refl

hex_digits_plain : holds_below (λ n. not (is_delimiter (hex_digit n))) 16 ≡ true
unfolding holds_below hex_digit
hex_digits_plain = refl

hex_digit-plain : (n : ℕ) → n < 16 → is_delimiter (hex_digit n) ≡ false
hex_digit-plain n h =
    false_of_not _ (holds_below_lem (λ m. not (is_delimiter (hex_digit m))) 16 n h hex_digits_plain)

is_safe-plain : (b : ℕ) → b < 256 → is_safe b ≡ true → is_delimiter b ≡ false
is_safe-plain b h safe =
    false_of_nand (is_safe b) (is_delimiter b) safe
      (holds_below_lem (λ c. not (is_safe c && is_delimiter c)) 256 b h delimiters_unsafe)

-- An encoded text holds no delimiter, so it cannot end the userinfo or the host early.
pub pct_encode-plain : (s : Text) → IsBytes s → All (λ c. is_delimiter c ≡ false) (pct_encode s)
unfolding pct_encode
pct_encode-plain [] h = tt
pct_encode-plain (b ∷ s) h = elim (Bool-cases (is_safe b)) [
  | inl safe ↦ rw safe (is_safe-plain b h.0 safe, pct_encode-plain s h.1)
  | inr unsafe ↦ rw unsafe (
    refl,
    (
      hex_digit-plain (b / 16) (omega arith),
      (hex_digit-plain (b % 16) (omega arith), pct_encode-plain s h.1),
    ),
  )
]

-- Against the comment of `pct_decode`: a `+` and one digit after a `%` are decoded, not left.
pub decode_from-plus :
    (y : ℕ) (rest : Text) {v : ℕ}
    → to_digit y ≡ some v
    → decode_from (b'%' ∷ b'+' ∷ y ∷ rest) ≡ v ∷ decode_from rest
unfolding decode_from from_str_radix
decode_from-plus y rest h = rw h
