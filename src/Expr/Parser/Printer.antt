-- ===== src/Expr/Parser/Printer.antt =====
-- A printer of expressions to tokens, with no more parentheses than the grammar in the comments of
-- ast.rs needs. It is the independent description that the parser is checked against.
use potato_etl.Base.{
  ℕ, suc, ◌≡◌, Bool, true, false, ◌||◌, List, [], ◌∷◌, ◌++◌, Text, codes, text_eq, ltb, ◌==◌,
  if◌then◌else◌,
}
use potato_etl.Unicode.{Unicode}
use potato_etl.Expr.Syntax.{Tok, BinOp, UnaryOp, Expr, Args, no_args, arg}

-- The levels: 0 or, 1 and, 2 not, 3 comparison, 4 sum, 5 product, 6 negation, 7 postfix.
abbrev pub op_level : BinOp → ℕ
op_level BinOp.or = 0
op_level BinOp.and = 1
op_level BinOp.add = 4
op_level BinOp.sub = 4
op_level BinOp.mul = 5
op_level BinOp.div = 5
op_level _ = 3

-- The level of the left operand: the operator's own where it associates to the left.
abbrev pub left_level : BinOp → ℕ
left_level BinOp.or = 0
left_level BinOp.and = 1
left_level BinOp.add = 4
left_level BinOp.sub = 4
left_level BinOp.mul = 5
left_level BinOp.div = 5
left_level _ = 4

abbrev pub right_level : BinOp → ℕ
right_level op = suc (op_level op)

abbrev pub unary_level : UnaryOp → ℕ
unary_level UnaryOp.not = 2
unary_level UnaryOp.neg = 6

abbrev pub level_of : {F : Type 0} → Expr F → ℕ
level_of (Expr.bin_op op a b) = op_level op
level_of (Expr.unary op a) = unary_level op
level_of _ = 7

abbrev pub op_tok : {F : Type 0} → BinOp → Tok F
op_tok BinOp.or = Tok.ident (codes "or")
op_tok BinOp.and = Tok.ident (codes "and")
op_tok BinOp.add = Tok.plus
op_tok BinOp.sub = Tok.minus
op_tok BinOp.mul = Tok.star
op_tok BinOp.div = Tok.slash
op_tok BinOp.eq = Tok.eq_eq
op_tok BinOp.ne = Tok.ne
op_tok BinOp.lt = Tok.lt
op_tok BinOp.le = Tok.le
op_tok BinOp.gt = Tok.gt
op_tok BinOp.ge = Tok.ge

abbrev pub unary_tok : {F : Type 0} → UnaryOp → Tok F
unary_tok UnaryOp.not = Tok.ident (codes "not")
unary_tok UnaryOp.neg = Tok.minus

-- The parts of a column path between its dots.
unfoldable pub split_dots : Text → Text × List Text
split_dots [] = ([], [])
split_dots (c ∷ s) =
    let (part, parts) = split_dots s in if c == b'.' then ([], part ∷ parts) else (c ∷ part, parts)

unfoldable pub print_parts : {F : Type 0} → List Text → List (Tok F)
print_parts [] = []
print_parts (part ∷ parts) = Tok.dot ∷ Tok.ident part ∷ print_parts parts

abbrev pub wrap : {F : Type 0} → Bool → List (Tok F) → List (Tok F)
wrap true w = Tok.lparen ∷ (w ++ Tok.rparen ∷ [])
wrap false w = w

-- `print_body` prints an expression; as an operand at level `p` it is wrapped if its own is lower.
unfoldable mutual
  pub print_body : {F : Type 0} → Expr F → List (Tok F)
  print_body (Expr.int v) = Tok.int v ∷ []
  print_body (Expr.float x) = Tok.float x ∷ []
  print_body (Expr.str s) = Tok.str s ∷ []
  print_body (Expr.bool true) = Tok.ident (codes "true") ∷ []
  print_body (Expr.bool false) = Tok.ident (codes "false") ∷ []
  print_body Expr.null = Tok.ident (codes "null") ∷ []
  print_body (Expr.column col) = Tok.ident (split_dots col).0 ∷ print_parts (split_dots col).1
  print_body (Expr.bin_op op a b) =
      wrap (ltb (level_of a) (left_level op)) (print_body a)
      ++ op_tok op ∷ wrap (ltb (level_of b) (right_level op)) (print_body b)
  print_body (Expr.unary op a) =
      unary_tok op ∷ wrap (ltb (level_of a) (unary_level op)) (print_body a)
  print_body (Expr.call func args) = Tok.ident func ∷ Tok.lparen ∷ print_args args
  print_body (Expr.index e i) =
      wrap (ltb (level_of e) 7) (print_body e) ++ Tok.lbracket ∷ (print_body i ++ Tok.rbracket ∷ [])
  print_body (Expr.env_var name) = Tok.env_var name ∷ []
  print_body (Expr.column_ref step col) = Tok.env_var step ∷ Tok.dot ∷ Tok.ident col ∷ []

  pub print_args : {F : Type 0} → Args F → List (Tok F)
  print_args no_args = Tok.rparen ∷ []
  print_args (arg a rest) = print_body a ++ print_more rest

  pub print_more : {F : Type 0} → Args F → List (Tok F)
  print_more no_args = Tok.rparen ∷ []
  print_more (arg a rest) = Tok.comma ∷ (print_body a ++ print_more rest)

-- The whole input of the parser.
unfoldable pub print : {F : Type 0} → Expr F → List (Tok F)
unfolding print_body split_dots print_parts
print e = print_body e ++ Tok.eof ∷ []

module _ (u : Unicode) where
  -- Words that do not stand for a column or a function.
  unfoldable pub is_reserved : Text → Bool
  unfolding text_eq
  is_reserved w =
      let lower = u.to_lowercase w in
      text_eq lower (codes "true")
      || (text_eq lower (codes "false")
          || (text_eq lower (codes "null") || text_eq lower (codes "not")))

  -- What the tokens of an expression can say: a column's first name and a function's name are not
  -- reserved, and a function's name is in lower case.
  unfoldable mutual
    unfolding split_dots is_reserved

    pub IsPrintable : {F : Type 0} → Expr F → Type 0
    IsPrintable (Expr.column col) = is_reserved (split_dots col).0 ≡ false
    IsPrintable (Expr.bin_op op a b) = IsPrintable a × IsPrintable b
    IsPrintable (Expr.unary op a) = IsPrintable a
    IsPrintable (Expr.call func args) =
        (u.to_lowercase func ≡ func) × (is_reserved func ≡ false) × ArePrintable args
    IsPrintable (Expr.index e i) = IsPrintable e × IsPrintable i
    IsPrintable _ = Unit {0}

    pub ArePrintable : {F : Type 0} → Args F → Type 0
    ArePrintable no_args = Unit {0}
    ArePrintable (arg a rest) = IsPrintable a × ArePrintable rest
