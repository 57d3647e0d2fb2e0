-- ===== src/Unicode.antt =====
-- What the program uses of the standard library's Unicode tables: a parameter of the model, with
-- the documented behaviour on ASCII as its laws. `ascii_tables` meets them.
use potato_etl.Base.{ℕ, ◌+◌, ◌<◌, ◌≡◌, refl, Bool, ◌&&◌, ◌||◌, map, Text, leb, if◌then◌else◌, All}

-- `u8::is_ascii_digit`, `char::is_ascii_digit`
abbrev pub is_ascii_digit : ℕ → Bool
is_ascii_digit c = leb b'0' c && leb c b'9'

abbrev pub is_ascii_alphabetic : ℕ → Bool
is_ascii_alphabetic c = leb b'a' c && leb c b'z' || leb b'A' c && leb c b'Z'

abbrev pub ascii_lower : ℕ → ℕ
ascii_lower c = if leb b'A' c && leb c b'Z' then c + 32 else c

abbrev pub IsAscii : Text → Type 0
IsAscii = All (λ c. c < 128)

pub record Unicode : Type 0 where
  -- `char::is_alphabetic`, `char::is_numeric`, `str::to_lowercase`
  pub is_alphabetic : ℕ → Bool
  pub is_numeric : ℕ → Bool
  pub to_lowercase : Text → Text
  pub alphabetic_ascii : (c : ℕ) → c < 128 → is_alphabetic c ≡ is_ascii_alphabetic c
  pub numeric_ascii : (c : ℕ) → c < 128 → is_numeric c ≡ is_ascii_digit c
  pub lowercase_ascii : (s : Text) → IsAscii s → to_lowercase s ≡ map ascii_lower s

-- `char::is_alphanumeric`
abbrev pub is_alphanumeric : Unicode → ℕ → Bool
is_alphanumeric u c = u.is_alphabetic c || u.is_numeric c

-- Tables that know ASCII alone, to evaluate the model on concrete texts.
abbrev pub ascii_tables : Unicode
ascii_tables = record {
  is_alphabetic = is_ascii_alphabetic;
  is_numeric = is_ascii_digit;
  to_lowercase = map ascii_lower;
  alphabetic_ascii = λ c h. refl;
  numeric_ascii = λ c h. refl;
  lowercase_ascii = λ s h. refl;
}
