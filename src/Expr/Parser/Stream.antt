-- ===== src/Expr/Parser/Stream.antt =====
-- The parser's state and its steps, the operators, and the loops that the levels share.
use potato_etl.Base.{
  ℕ, zero, suc, Bool, true, false, Option, none, some, List, [], ◌∷◌, ◌++◌, Text, if◌then◌else◌,
  Result, ok, err, out_of_fuel, then_ok,
}
use potato_etl.Expr.Syntax.{Tok, BinOp, Expr, Error}

abbrev pub Parser : Type 0 → Type 0 → Type 0
Parser F A = List (Tok F) → Result Error (A × List (Tok F))

module _ {F A B : Type 0} where
  infixl 1 ◌>>=◌ ◌>>◌
  abbrev pub ◌>>=◌ : Parser F A → (A → Parser F B) → Parser F B
  p >>= f = λ ts. then_ok (p ts) λ (a, rest). f a rest

  abbrev pub ◌>>◌ : Parser F A → Parser F B → Parser F B
  p >> q = p >>= λ _. q

module _ {F A : Type 0} where
  abbrev pub pure : A → Parser F A
  pure a ts = ok (a, ts)

  abbrev pub fail : Error → Parser F A
  fail e ts = err e

  abbrev pub run : List (Tok F) → Parser F A → Result Error (A × List (Tok F))
  run ts p = p ts

module _ {F : Type 0} where
  -- The token at `pos`. (The tokens end with `eof`, so there is one.)
  unfoldable pub peek : List (Tok F) → Tok F
  peek [] = Tok.eof
  peek (t ∷ ts) = t

  -- One token on, but never past the last.
  unfoldable pub step : List (Tok F) → List (Tok F)
  step [] = []
  step (t ∷ []) = t ∷ []
  step (t ∷ t' ∷ ts) = t' ∷ ts

  unfoldable pub advance : Parser F (Tok F)
  unfolding peek step
  advance ts = ok (peek ts, step ts)

  unfoldable pub expect_ident : Parser F Text
  unfolding advance
  expect_ident = do
    t ← advance
    elim t [ Tok.ident s ↦ pure s | _ ↦ fail Error.expected_identifier ]

  abbrev pub is_lparen : Tok F → Bool
  is_lparen Tok.lparen = true
  is_lparen _ = false

  abbrev pub is_rparen : Tok F → Bool
  is_rparen Tok.rparen = true
  is_rparen _ = false

  abbrev pub is_lbracket : Tok F → Bool
  is_lbracket Tok.lbracket = true
  is_lbracket _ = false

  abbrev pub is_rbracket : Tok F → Bool
  is_rbracket Tok.rbracket = true
  is_rbracket _ = false

  abbrev pub is_comma : Tok F → Bool
  is_comma Tok.comma = true
  is_comma _ = false

  abbrev pub is_dot : Tok F → Bool
  is_dot Tok.dot = true
  is_dot _ = false

  abbrev pub is_minus : Tok F → Bool
  is_minus Tok.minus = true
  is_minus _ = false

  abbrev pub is_eof : Tok F → Bool
  is_eof Tok.eof = true
  is_eof _ = false

  -- `eat(expected)`: the test of the expected token is passed in.
  unfoldable pub eat : (Tok F → Bool) → Parser F Bool
  unfolding peek step
  eat expected ts = if expected (peek ts) then ok (true, step ts) else ok (false, ts)

  -- `if !self.eat(expected) { bail!(..) }`
  unfoldable pub expect : (Tok F → Bool) → Error → Parser F (Unit {0})
  unfolding eat
  expect expected e = do found ← eat expected; λ ts. if found then ok (tt, ts) else err e

  -- The operators of each loop.
  unfoldable pub cmp_op : Tok F → Option BinOp
  cmp_op Tok.eq_eq = some BinOp.eq
  cmp_op Tok.ne = some BinOp.ne
  cmp_op Tok.lt = some BinOp.lt
  cmp_op Tok.le = some BinOp.le
  cmp_op Tok.gt = some BinOp.gt
  cmp_op Tok.ge = some BinOp.ge
  cmp_op _ = none

  unfoldable pub add_op : Tok F → Option BinOp
  add_op Tok.plus = some BinOp.add
  add_op Tok.minus = some BinOp.sub
  add_op _ = none

  unfoldable pub mul_op : Tok F → Option BinOp
  mul_op Tok.star = some BinOp.mul
  mul_op Tok.slash = some BinOp.div
  mul_op _ = none

  -- The loop that `or_expr`, `and_expr`, `add_expr` and `mul_expr` share: while the next token is an
  -- operator, another operand is read and joined on the right of what there is.
  unfoldable pub binary_loop :
      (Tok F → Option BinOp) → Parser F (Expr F) → ℕ → Expr F → Parser F (Expr F)
  unfolding advance
  binary_loop op_of operand zero left ts = out_of_fuel
  binary_loop op_of operand (suc f) left ts = elim (op_of (peek ts)) [
    | none ↦ ok (left, ts)
    | some op ↦
        run ts do advance; right ← operand; binary_loop op_of operand f (Expr.bin_op op left right)
  ]

  unfoldable pub binary : (Tok F → Option BinOp) → Parser F (Expr F) → ℕ → Parser F (Expr F)
  unfolding binary_loop
  binary op_of operand f = do left ← operand; binary_loop op_of operand f left

  -- `while self.eat(&Tok::Dot) { .. }` of a column path
  unfoldable pub dotted : ℕ → Text → Parser F Text
  unfolding eat expect_ident
  dotted zero col ts = out_of_fuel
  dotted (suc f) col ts =
      let more = run (step ts) do next ← expect_ident; dotted f (col ++ b'.' ∷ next)
      in if is_dot (peek ts) then more else ok (col, ts)
