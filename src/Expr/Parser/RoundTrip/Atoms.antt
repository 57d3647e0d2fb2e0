-- ===== src/Expr/Parser/RoundTrip/Atoms.antt =====
-- Reading the expressions that are one primary: literals, variables and column paths.
use potato_etl.Base.{
  ℕ, zero, suc, ◌<◌, ◌≡◌, refl, true, false, none, some, List, [], ◌∷◌, ◌++◌, Text, codes, length,
  arith, ok, Bool-cases, inl, inr, append_assoc, append-nil, ◌==◌, length-append, ==_iff,
}
use potato_etl.Base.Int.{ℤ}
use potato_etl.Unicode.{Unicode}
use potato_etl.Expr.Syntax.{Tok, Expr}
use potato_etl.Expr.Parser.{
  peek, step, is_lparen, is_dot, dotted, is_word, keyword, primary_ident, postfix,
}
use potato_etl.Expr.Parser.Printer.{split_dots, print_parts, is_reserved}
use potato_etl.Expr.Parser.RoundTrip.Levels.{step-cons, binds, Stops, StartsPostfix}

join_dots : Text → List Text → Text
join_dots col [] = col
join_dots col (part ∷ parts) = join_dots (col ++ b'.' ∷ part) parts

join_dots-split_dots :
    (before s : Text) → join_dots (before ++ (split_dots s).0) (split_dots s).1 ≡ before ++ s
unfolding join_dots split_dots
join_dots-split_dots before [] = refl
join_dots-split_dots before (c ∷ s) = elim (Bool-cases (c == b'.')) [
  | inl e ↦
      let c_dot : c ≡ b'.' = (==_iff c b'.').0 e in
      let ih = join_dots-split_dots (before ++ b'.' ∷ []) s in
      rw e (rw (append-nil before, c_dot) (simp append_assoc at ih))
  | inr e ↦ let ih = join_dots-split_dots (before ++ c ∷ []) s in rw e (simp append_assoc at ih)
]

module _ {F : Type 0} where
  dotted-print_parts :
      (parts : List Text) (g : ℕ) (col : Text) (t : Tok F) (rest : List (Tok F))
      → length (print_parts parts ++ t ∷ rest) < g
      → is_dot t ≡ false
      → dotted g col (print_parts parts ++ t ∷ rest) ≡ ok (join_dots col parts, t ∷ rest)
  unfolding dotted print_parts join_dots
  dotted-print_parts parts zero col t rest l d = absurd (omega arith)
  dotted-print_parts [] (suc g) col t rest l d = rw (d)
  dotted-print_parts (part ∷ parts) (suc g) col t rest l d =
      rw (step-cons (Tok.ident part) (print_parts parts) t rest)
        (dotted-print_parts parts g (col ++ b'.' ∷ part) t rest (omega arith) d)

pub is_word-not_reserved :
    (u : Unicode) (F : Type 0) (w : Text)
    → is_reserved u w ≡ false
    → is_word u {F = F} (codes "not") (Tok.ident w) ≡ false
unfolding is_word is_reserved
is_word-not_reserved u F w h = ground arith

module _ (u : Unicode) {F : Type 0} where
  pub int-StartsPostfix : (v : ℤ) → StartsPostfix u {F = F} (Tok.int v ∷ []) (Expr.int v)
  unfolding postfix peek step
  int-StartsPostfix v f g t rest b l s = (g, omega arith, refl)

  pub float-StartsPostfix : (x : F) → StartsPostfix u {F = F} (Tok.float x ∷ []) (Expr.float x)
  unfolding postfix peek step
  float-StartsPostfix x f g t rest b l s = (g, omega arith, refl)

  pub str-StartsPostfix : (x : Text) → StartsPostfix u {F = F} (Tok.str x ∷ []) (Expr.str x)
  unfolding postfix peek step
  str-StartsPostfix x f g t rest b l s = (g, omega arith, refl)

  -- A word whose lower case is a keyword is that literal.
  pub word-StartsPostfix :
      (w : Text) (e : Expr F)
      → keyword u (u.to_lowercase w) ≡ some e
      → StartsPostfix u {F = F} (Tok.ident w ∷ []) e
  unfolding postfix peek step
  word-StartsPostfix w e k f g t rest b l s = (g, omega arith, rw (k, primary_ident))

  pub true-StartsPostfix : StartsPostfix u {F = F} (Tok.ident (codes "true") ∷ []) (Expr.bool true)
  unfolding keyword
  true-StartsPostfix =
      word-StartsPostfix (codes "true") _ (rw (u.lowercase_ascii (codes "true") (omega arith)))

  pub false-StartsPostfix :
      StartsPostfix u {F = F} (Tok.ident (codes "false") ∷ []) (Expr.bool false)
  unfolding keyword
  false-StartsPostfix =
      word-StartsPostfix (codes "false") _ (rw (u.lowercase_ascii (codes "false") (omega arith)))

  pub null-StartsPostfix : StartsPostfix u {F = F} (Tok.ident (codes "null") ∷ []) Expr.null
  unfolding keyword
  null-StartsPostfix =
      word-StartsPostfix (codes "null") _ (rw (u.lowercase_ascii (codes "null") (omega arith)))

  pub is_dot-Stops : (t : Tok F) → Stops u 8 t → is_dot t ≡ false
  unfolding binds
  is_dot-Stops t s = ground arith

  pub is_lparen-Stops : (t : Tok F) → Stops u 8 t → is_lparen t ≡ false
  unfolding binds
  is_lparen-Stops t s = ground arith

  pub env_var-StartsPostfix :
      (name : Text) → StartsPostfix u {F = F} (Tok.env_var name ∷ []) (Expr.env_var name)
  unfolding postfix peek step
  env_var-StartsPostfix name f g t rest b l s =
      (g, omega arith, rw (is_dot-Stops t s, is_lparen-Stops t s))

  pub column_ref-StartsPostfix :
      (name col : Text)
      → StartsPostfix u {F = F}
          (Tok.env_var name ∷ Tok.dot ∷ Tok.ident col ∷ [])
          (Expr.column_ref name col)
  unfolding postfix peek step
  column_ref-StartsPostfix name col f g t rest b l s = (g, omega arith, refl)

  pub keyword-not_reserved :
      (w : Text) → is_reserved u w ≡ false → keyword u {F = F} (u.to_lowercase w) ≡ none
  unfolding keyword is_reserved
  keyword-not_reserved w h = ground arith

  pub is_lparen-parts :
      (parts : List Text) (t : Tok F) (rest : List (Tok F))
      → is_lparen t ≡ false
      → is_lparen (peek (print_parts parts ++ t ∷ rest)) ≡ false
  unfolding peek print_parts
  is_lparen-parts [] t rest h = h
  is_lparen-parts (part ∷ parts) t rest h = refl

  pub column-StartsPostfix :
      (col : Text)
      → is_reserved u (split_dots col).0 ≡ false
      → StartsPostfix u {F = F}
          (Tok.ident (split_dots col).0 ∷ print_parts (split_dots col).1)
          (Expr.column col)
  unfolding postfix peek
  column-StartsPostfix col h f g t rest b l s =
      let first = (split_dots col).0 in
      let parts = (split_dots col).1 in
      let path = dotted-print_parts parts g first t rest (omega arith) (is_dot-Stops t s) in
      (
        g,
        omega (arith, length-append (print_parts parts) (t ∷ rest)),
        rw (keyword-not_reserved first h, primary_ident)
            (rw (step-cons (Tok.ident first) (print_parts parts) t rest) (
              rw (is_lparen-parts parts t rest (is_lparen-Stops t s))
                (rw (path, join_dots-split_dots [] col)))),
      )
