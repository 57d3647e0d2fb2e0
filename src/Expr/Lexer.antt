-- ===== src/Expr/Lexer.antt =====
-- common/src/transform/expr/tokens.rs: the tokenizer, over the characters from `i` on.
pub mod Total
mod Tests
use potato_etl.Base.{
  ok_or, is_empty, ℕ, zero, suc, ◌+◌, ◌-◌, ◌*◌, ◌^◌, Bool, true, false, ◌||◌, Option, none, some,
  List, [], ◌∷◌, ◌++◌, Text, codes, ◌==◌, ltb, any, if◌then◌else◌, Result, ok, err, out_of_fuel,
  then_ok, length,
}
use potato_etl.Base.Int.{pos}
use potato_etl.Unicode.{Unicode, is_ascii_digit, is_alphanumeric}
use potato_etl.Expr.Syntax.{Tok, Expr, Error}
use potato_etl.Expr.Parser.{parse_tokens}

-- `while i < chars.len() && p(chars[i])`: the characters that pass, and the rest
unfoldable pub span : (ℕ → Bool) → Text → Text × Text
span p [] = ([], [])
span p (c ∷ s) = let (word, rest) = span p s in if p c then (c ∷ word, rest) else ([], c ∷ s)

-- `'n' => '\n', 't' => '\t', c => c`
unfoldable pub escape : ℕ → ℕ
escape c = if c == b'n' then 10 else if c == b't' then 9 else c

-- `s.push(c)` in front of what the rest of the loop collects
unfoldable pub keep : ℕ → Option (Text × Text) → Option (Text × Text)
keep c none = none
keep c (some (body, rest)) = some (c ∷ body, rest)

-- The body of a string literal up to its closing quote; `none` is an unterminated one. A backslash
-- (92) that is not the last character escapes the next one.
unfoldable pub string_body : ℕ → Text → Option (Text × Text)
unfolding escape keep
string_body quote [] = none
string_body quote (c ∷ []) = if c == quote then some ([], []) else none
string_body quote (c ∷ d ∷ s) =
    let escaped = keep (escape d) (string_body quote s) in
    let plain = keep c (string_body quote (d ∷ s)) in
    if c == quote then some ([], d ∷ s) else if c == 92 then escaped else plain

-- The value of decimal digits, the most significant first.
unfoldable pub decimal : ℕ → Text → ℕ
decimal acc [] = acc
decimal acc (c ∷ s) = decimal (acc * 10 + (c - b'0')) s

-- `s.parse::<i64>()` on digits
unfoldable pub parse_int : Text → Option ℕ
unfolding decimal
parse_int s = let v = decimal 0 s in if ltb v (2 ^ 63) then some v else none

-- A two-character operator if the next character is `=`, else a one-character one.
unfoldable pub or_equal : {F : Type 0} → Tok F → Tok F → Text → Option (Tok F) × Text
or_equal with_equal alone [] = (some alone, [])
or_equal with_equal alone (c ∷ s) = if c == b'=' then (some with_equal, s) else (some alone, c ∷ s)

-- The tokens of one character.
unfoldable pub single : {F : Type 0} → ℕ → Option (Tok F)
single c =
    if c == b'+'
    then some Tok.plus
    else if c == b'*'
    then some Tok.star
    else if c == b'/'
    then some Tok.slash
    else if c == b'('
    then some Tok.lparen
    else if c == b')'
    then some Tok.rparen
    else if c == b','
    then some Tok.comma
    else if c == b'.'
    then some Tok.dot
    else if c == b'['
    then some Tok.lbracket
    else if c == b']'
    then some Tok.rbracket
    else if c == b'-'
    then some Tok.minus
    else none

unfoldable pub is_space : ℕ → Bool
is_space c = c == 32 || (c == 9 || (c == 13 || c == 10))

module _ (u : Unicode) {F : Type 0} (parse_float : Text → Option F) where
  unfoldable pub is_word_char : ℕ → Bool
  is_word_char c = is_alphanumeric u c || c == b'_'

  -- `!=`
  unfoldable pub bang : Text → Result Error (Option (Tok F) × Text)
  bang [] = err Error.unexpected_bang
  bang (c ∷ s) = if c == b'=' then ok (some Tok.ne, s) else err Error.unexpected_bang

  unfoldable pub string_token : ℕ → Text → Result Error (Option (Tok F) × Text)
  unfolding string_body
  string_token quote s =
      then_ok (ok_or Error.unterminated_string (string_body quote s))
        λ (body, rest). ok (some (Tok.str body), rest)

  -- `$name`
  unfoldable pub env_token : Text → Result Error (Option (Tok F) × Text)
  unfolding span is_word_char
  env_token s =
      let (word, rest) = span is_word_char s in
      if is_empty word then err Error.expected_name else ok (some (Tok.env_var word), rest)

  -- A float once its point is met, with the digits before it.
  unfoldable pub float_token : Text → Text → Result Error (Option (Tok F) × Text)
  unfolding span
  float_token digits s =
      let (fraction, rest) = span is_ascii_digit s in
      then_ok (ok_or Error.bad_number (parse_float (digits ++ b'.' ∷ fraction)))
        λ x. ok (some (Tok.float x), rest)

  unfoldable pub int_token : Text → Text → Result Error (Option (Tok F) × Text)
  unfolding parse_int
  int_token digits rest =
      then_ok (ok_or Error.bad_number (parse_int digits)) λ v. ok (some (Tok.int (pos v)), rest)

  -- An integer or a float, from the digits and what follows them.
  unfoldable pub number_from : Text → Text → Result Error (Option (Tok F) × Text)
  unfolding float_token int_token
  number_from digits [] = int_token digits []
  number_from digits (c ∷ s) = if c == b'.' then float_token digits s else int_token digits (c ∷ s)

  unfoldable pub number_token : Text → Result Error (Option (Tok F) × Text)
  unfolding span number_from
  number_token s = let (digits, rest) = span is_ascii_digit s in number_from digits rest

  unfoldable pub word_token : Text → Result Error (Option (Tok F) × Text)
  unfolding span is_word_char
  word_token s = let (word, rest) = span is_word_char s in ok (some (Tok.ident word), rest)

  -- The arms of the tokenizer after the one-character tokens.
  unfoldable pub other_token : ℕ → Text → Result Error (Option (Tok F) × Text)
  unfolding or_equal bang string_token env_token number_token word_token
  other_token c s =
      if c == b'<'
      then ok (or_equal Tok.le Tok.lt s)
      else if c == b'>'
      then ok (or_equal Tok.ge Tok.gt s)
      else if c == b'='
      then ok (or_equal Tok.eq_eq Tok.eq_eq s)
      else if c == b'!'
      then bang s
      else if c == 34 || c == 39
      then string_token c s
      else if c == b'$'
      then env_token s
      else if is_ascii_digit c
      then number_token (c ∷ s)
      else if u.is_alphabetic c || c == b'_'
      then word_token (c ∷ s)
      else err Error.unexpected_character

  -- One round of the loop of `tokenize`: a token, or none for a space, and the characters left.
  unfoldable pub next : ℕ → Text → Result Error (Option (Tok F) × Text)
  unfolding is_space single other_token
  next c s =
      if is_space c
      then ok (none, s)
      else elim (single {F = F} c) [ none ↦ other_token c s | some t ↦ ok (some t, s) ]

  abbrev pub push : Option (Tok F) → List (Tok F) → List (Tok F)
  push none ts = ts
  push (some t) ts = t ∷ ts

  unfoldable pub tokenize_from : ℕ → Text → Result Error (List (Tok F))
  unfolding next
  tokenize_from zero s = out_of_fuel
  tokenize_from (suc f) [] = ok (Tok.eof ∷ [])
  tokenize_from (suc f) (c ∷ s) =
      then_ok (next c s) λ (t, rest). then_ok (tokenize_from f rest) λ ts. ok (push t ts)

  -- A round reads a character at least, so there are no more rounds than characters.
  unfoldable pub tokenize : Text → Result Error (List (Tok F))
  unfolding tokenize_from
  tokenize s = tokenize_from (suc (length s)) s

  unfoldable pub parse : Text → Result Error (Expr F)
  unfolding tokenize parse_tokens
  parse s = then_ok (tokenize s) λ ts. parse_tokens u ts
