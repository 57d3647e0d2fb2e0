-- ===== src/Expr/Lexer/Total.antt =====
-- The tokenizer ends on every text, its tokens end with `eof`, and so parsing ends on every text.
use potato_etl.Base.{
  Ensures-ok_or, is_empty, if◌then◌else◌, ℕ, zero, suc, ◌<◌, ◌≤◌, ◌≡◌, ◌≢◌, refl, Bool, true, false,
  ◌||◌, Option, none, some, List, [], ◌∷◌, ◌++◌, Text, length, arith, ◌==◌, Option-cases, inl, inr,
  Result, out_of_fuel, Ensures, holds, fails, Ensures-then, Ensures-if, Ensures-ne-out_of_fuel,
}
use potato_etl.Unicode.{Unicode, is_ascii_digit}
use potato_etl.Expr.Syntax.{Tok, Error}
use potato_etl.Expr.Parser.Total.Steps.{EndsEof}
use potato_etl.Expr.Parser.Total.{parse_tokens-Ensures}
use potato_etl.Expr.Lexer.{
  parse_int, span, keep, string_body, or_equal, single, is_space, is_word_char, bang, string_token,
  env_token, float_token, int_token, number_from, number_token, word_token, other_token, next, push,
  tokenize_from, tokenize, parse,
}

length-span : (p : ℕ → Bool) (s : Text) → length (span p s).1 ≤ length s
unfolding span
length-span p [] = omega arith
length-span p (c ∷ s) = ground (arith, length-span p s)

length-span_hit :
    (p : ℕ → Bool) (c : ℕ) (s : Text) → p c ≡ true → length (span p (c ∷ s)).1 ≤ length s
unfolding span
length-span_hit p c s h = rw h (length-span p s)

-- What is left of the text, if there is a result.
abbrev Leaves : ℕ → Option (Text × Text) → Type 0
Leaves n none = Unit {0}
Leaves n (some (body, rest)) = length rest ≤ n

Leaves-keep : (n m c : ℕ) (r : Option (Text × Text)) → n ≤ m → Leaves n r → Leaves m (keep c r)
unfolding keep
Leaves-keep n m c none b h = tt
Leaves-keep n m c (some (body, rest)) b h = omega arith

Leaves-if :
    (n : ℕ) (b : Bool) (r r' : Option (Text × Text))
    → Leaves n r
    → Leaves n r'
    → Leaves n (if b then r else r')
Leaves-if n true r r' h h' = h
Leaves-if n false r r' h h' = h'

string_body-Leaves : (quote : ℕ) (s : Text) → Leaves (length s) (string_body quote s)
unfolding string_body
string_body-Leaves quote [] = tt
string_body-Leaves quote (c ∷ []) = Leaves-if _ (c == quote) _ _ (omega arith) tt
string_body-Leaves quote (c ∷ d ∷ s) = Leaves-if _ (c == quote) _ _ (omega arith) (
    Leaves-if _ (c == 92) _ _
      (Leaves-keep (length s) _ _ _ (omega arith) (string_body-Leaves quote s))
      (Leaves-keep (suc (length s)) _ _ _ (omega arith) (string_body-Leaves quote (d ∷ s))))

length-or_equal : {F : Type 0} (t t' : Tok F) (s : Text) → length (or_equal t t' s).1 ≤ length s
unfolding or_equal
length-or_equal t t' [] = omega arith
length-or_equal t t' (c ∷ s) = ground arith

module _ (u : Unicode) {F : Type 0} (parse_float : Text → Option F) where
  -- A round leaves no more than `n` characters.
  abbrev Shrinks : ℕ → Result Error (Option (Tok F) × Text) → Type 0
  Shrinks n = Ensures (λ r. length r.1 ≤ n)

  bang-Shrinks : (s : Text) → Shrinks (length s) (bang u parse_float s)
  unfolding bang
  bang-Shrinks [] = fails
  bang-Shrinks (c ∷ s) = Ensures-if (c == b'=') (λ _. holds (omega arith)) (λ _. fails)

  string_token-Shrinks :
      (quote : ℕ) (s : Text) → Shrinks (length s) (string_token u parse_float quote s)
  unfolding string_token
  string_token-Shrinks quote s =
      Ensures-then
        (Ensures-ok_or {P = λ r. length r.1 ≤ length s} _ (string_body quote s)
          λ r e. (let h = string_body-Leaves quote s in rw e at h))
        λ r h. holds h

  env_token-Shrinks : (s : Text) → Shrinks (length s) (env_token u parse_float s)
  unfolding env_token
  env_token-Shrinks s =
      Ensures-if (is_empty (span (is_word_char u parse_float) s).0) (λ _. fails)
        (λ _. holds (length-span (is_word_char u parse_float) s))

  int_token-Shrinks :
      (digits rest : Text) (n : ℕ)
      → length rest ≤ n
      → Shrinks n (int_token u parse_float digits rest)
  unfolding int_token
  int_token-Shrinks digits rest n h =
      Ensures-then (Ensures-ok_or {P = λ _. Unit {0}} Error.bad_number (parse_int digits) λ v e. tt)
        λ v _. holds h

  float_token-Shrinks :
      (digits s : Text) (n : ℕ) → length s ≤ n → Shrinks n (float_token u parse_float digits s)
  unfolding float_token
  float_token-Shrinks digits s n h =
      Ensures-then
        (Ensures-ok_or {P = λ _. Unit {0}} Error.bad_number
          (parse_float (digits ++ b'.' ∷ (span is_ascii_digit s).0)) λ v e. tt)
        λ v _. holds (omega (arith, length-span is_ascii_digit s))

  number_from-Shrinks :
      (digits s : Text) (n : ℕ) → length s ≤ n → Shrinks n (number_from u parse_float digits s)
  unfolding number_from
  number_from-Shrinks digits [] n h = int_token-Shrinks digits [] n h
  number_from-Shrinks digits (c ∷ s) n h =
      Ensures-if (c == b'.') (λ _. float_token-Shrinks digits s n (omega arith))
        (λ _. int_token-Shrinks digits (c ∷ s) n h)

  number_token-Shrinks :
      (c : ℕ) (s : Text)
      → is_ascii_digit c ≡ true
      → Shrinks (length s) (number_token u parse_float (c ∷ s))
  unfolding number_token
  number_token-Shrinks c s h =
      number_from-Shrinks (span is_ascii_digit (c ∷ s)).0 (span is_ascii_digit (c ∷ s)).1 (length s)
        (length-span_hit is_ascii_digit c s h)

  word_token-Shrinks :
      (c : ℕ) (s : Text)
      → (u.is_alphabetic c || c == b'_') ≡ true
      → Shrinks (length s) (word_token u parse_float (c ∷ s))
  unfolding word_token
  word_token-Shrinks c s h =
      holds (length-span_hit (is_word_char u parse_float) c s (unfold is_word_char in ground arith))

  other_token-Shrinks : (c : ℕ) (s : Text) → Shrinks (length s) (other_token u parse_float c s)
  unfolding other_token
  other_token-Shrinks c s =
      Ensures-if (c == b'<') (λ _. holds (length-or_equal Tok.le Tok.lt s))
        λ _.
          Ensures-if (c == b'>') (λ _. holds (length-or_equal Tok.ge Tok.gt s))
            λ _.
              Ensures-if (c == b'=') (λ _. holds (length-or_equal Tok.eq_eq Tok.eq_eq s))
                λ _.
                  Ensures-if (c == b'!') (λ _. bang-Shrinks s)
                    λ _.
                      Ensures-if (c == 34 || c == 39) (λ _. string_token-Shrinks c s)
                        λ _.
                          Ensures-if (c == b'$') (λ _. env_token-Shrinks s)
                            λ _. Ensures-if (is_ascii_digit c) (number_token-Shrinks c s) λ _.
                              Ensures-if (u.is_alphabetic c || c == b'_') (word_token-Shrinks c s)
                                (λ _. fails)

  next-Shrinks : (c : ℕ) (s : Text) → Shrinks (length s) (next u parse_float c s)
  unfolding next
  next-Shrinks c s =
      Ensures-if (is_space c) (λ _. holds (omega arith))
        λ _. elim (Option-cases (single {F = F} c)) [
          | inl e ↦ rw e (other_token-Shrinks c s)
          | inr (t, e) ↦ rw e (holds (omega arith))
        ]

  EndsEof-push :
      (t : Option (Tok F)) (ts : List (Tok F)) → EndsEof ts → EndsEof (push u parse_float t ts)
  EndsEof-push none ts h = h
  EndsEof-push (some t) [] h = absurd h
  EndsEof-push (some t) (t' ∷ ts) h = h

  tokenize_from-EndsEof :
      (f : ℕ) (s : Text) → length s < f → Ensures EndsEof (tokenize_from u parse_float f s)
  unfolding tokenize_from
  tokenize_from-EndsEof zero s h = elim h [ ]
  tokenize_from-EndsEof (suc f) [] h = holds refl
  tokenize_from-EndsEof (suc f) (c ∷ s) h = Ensures-then (next-Shrinks c s) λ (t, rest) l.
      Ensures-then (tokenize_from-EndsEof f rest (omega arith)) λ ts k. holds (EndsEof-push t ts k)

  -- The tokenizer ends on every text, with an error or with tokens that end with `eof`.
  pub tokenize-EndsEof : (s : Text) → Ensures EndsEof (tokenize u parse_float s)
  unfolding tokenize
  tokenize-EndsEof s = tokenize_from-EndsEof (suc (length s)) s (omega arith)

  -- Parsing a text always ends, with an expression or an error: neither the tokenizer nor the
  -- parser runs out of the fuel that the model gives them.
  pub parse-ne-out_of_fuel : (s : Text) → parse u parse_float s ≢ out_of_fuel
  unfolding parse
  parse-ne-out_of_fuel s =
      Ensures-ne-out_of_fuel (Ensures-then (tokenize-EndsEof s) λ ts h. parse_tokens-Ensures u ts h)
