-- ===== src/Expr/Parser/RoundTrip/Operands.antt =====
-- A printed expression as an operand: wrapped or not, it is read at the operand's level.
use potato_etl.Base.{
  subst, ℕ, suc, ◌<◌, ◌≤◌, ◌≡◌, refl, ap, true, false, some, List, [], ◌∷◌, ◌++◌, codes, arith,
  Bool-cases, inl, inr, ltb, ◌==◌,
}
use potato_etl.Unicode.{Unicode}
use potato_etl.Expr.Syntax.{Tok, BinOp, UnaryOp, Expr}
use potato_etl.Expr.Parser.{is_word, cmp_op, or_op, and_op, add_op, mul_op}
use potato_etl.Expr.Parser.Printer.{op_level, level_of, op_tok, wrap, print_body}
use potato_etl.Expr.Parser.RoundTrip.Levels.{
  HeadIs, binds, is_left, op_of_level, Reads, StartsLoop, StartsPostfix, HeadFits, StartsLoop-Reads,
  HeadFits-down, Reads-down, paren-StartsPostfix, Reads-StartsPostfix,
}

module _ (u : Unicode) (F : Type 0) where
  -- The printed expression is read at its level, and starts the loop of that level.
  pub record Natural (w : List (Tok F)) (e : Expr F) : Type 0 where
    pub reads : Reads u (level_of e) w e
    pub head : HeadIs (HeadFits u (level_of e)) w
    pub loop : is_left (level_of e) ≡ true → StartsLoop u (level_of e) w e
    pub chain : level_of e ≡ 7 → StartsPostfix u w e

  pub level_of-le : (e : Expr F) → level_of e ≤ 7
  level_of-le (Expr.bin_op op a b) = op_level-le op
    where
      op_level-le : (o : BinOp) → op_level o ≤ 7
      op_level-le BinOp.or = omega arith
      op_level-le _ = omega arith
  level_of-le (Expr.unary UnaryOp.not a) = omega arith
  level_of-le (Expr.unary UnaryOp.neg a) = omega arith
  level_of-le _ = omega arith

  pub HeadFits-append :
      (p : ℕ) (w v : List (Tok F)) → HeadIs (HeadFits u p) w → HeadIs (HeadFits u p) (w ++ v)
  HeadFits-append p [] v h = absurd h
  HeadFits-append p (t ∷ w) v h = h

  pub lparen-head : (p : ℕ) → HeadFits u {F = F} p Tok.lparen
  unfolding is_word
  lparen-head p = (λ _. refl, λ _. refl, refl)

  abbrev pub operand_tokens : ℕ → Expr F → List (Tok F)
  operand_tokens p e = wrap (ltb (level_of e) p) (print_body e)

  module _ (e : Expr F) (n : Natural (print_body e) e) where
    pub whole-Reads : Reads u 0 (print_body e) e
    whole-Reads =
        Reads-down u (level_of e) 0 (print_body e) e (omega arith) (level_of-le e) n.head n.reads

    pub paren-chain : StartsPostfix u (Tok.lparen ∷ (print_body e ++ Tok.rparen ∷ [])) e
    paren-chain = paren-StartsPostfix u (print_body e) e whole-Reads

    -- As an operand at level `p`, wrapped or not, the expression is read at that level.
    pub operand-Reads : (p : ℕ) → p ≤ 7 → Reads u p (operand_tokens p e) e
    operand-Reads p b = elim (Bool-cases (ltb (level_of e) p)) [
      | inl low ↦ rw low (
          let w = Tok.lparen ∷ (print_body e ++ Tok.rparen ∷ []) in
          Reads-down u 7 p w e b (omega arith) (lparen-head 7)
            (Reads-StartsPostfix u w e paren-chain))
      | inr high ↦ rw high (
          Reads-down u (level_of e) p (print_body e) e (ground arith) (level_of-le e) n.head
            n.reads)
    ]

    pub operand-head : (p : ℕ) → p ≤ 7 → HeadIs (HeadFits u p) (operand_tokens p e)
    operand-head p b = elim (Bool-cases (ltb (level_of e) p)) [
      | inl low ↦ rw low (lparen-head p)
      | inr high ↦ rw high (HeadFits-down u p (level_of e) (print_body e) (ground arith) n.head)
    ]

    -- As a left operand it starts the loop: by its own loop, or as an operand of the next level.
    pub operand-StartsLoop :
        (p : ℕ) → p < 7 → is_left p ≡ true → StartsLoop u p (operand_tokens p e) e
    operand-StartsLoop p b left = elim (Bool-cases (level_of e == p)) [
      | inl same ↦
          let q : level_of e ≡ p = ground arith in
          let not_low : ltb (level_of e) p ≡ false = ground arith in
          rw not_low (subst (λ (r : ℕ). StartsLoop u r (print_body e) e) q (n.loop (rw q left)))
      | inr other ↦ StartsLoop-Reads u p (operand_tokens p e) e (
          let same_wrap : ltb (level_of e) (suc p) ≡ ltb (level_of e) p = ground arith in
          rw (← same_wrap) (operand-Reads (suc p) b))
    ]

    pub operand-StartsPostfix : StartsPostfix u (operand_tokens 7 e) e
    operand-StartsPostfix = elim (Bool-cases (ltb (level_of e) 7)) [
      | inl low ↦ rw low paren-chain
      | inr high ↦ rw high (n.chain (let b = level_of-le e in ground arith))
    ]

  -- An expression of level 7.
  pub postfix-Natural :
      (w : List (Tok F)) (e : Expr F)
      → level_of e ≡ 7
      → HeadIs (HeadFits u 7) w
      → StartsPostfix u w e
      → Natural w e
  postfix-Natural w e seven h c = record {
    reads = rw seven (Reads-StartsPostfix u w e c);
    head = rw seven h;
    loop = λ left. cc (ap is_left seven);
    chain = λ _. c;
  }

  pub op_of_level-op_tok :
      (op : BinOp)
      → is_left (op_level op) ≡ true
      → op_of_level u {F = F} (op_level op) (op_tok op) ≡ some op
  unfolding or_op and_op add_op mul_op
  op_of_level-op_tok BinOp.or h = rw (u.lowercase_ascii (codes "or") (omega arith))
  op_of_level-op_tok BinOp.and h = rw (u.lowercase_ascii (codes "and") (omega arith))
  op_of_level-op_tok BinOp.add h = refl
  op_of_level-op_tok BinOp.sub h = refl
  op_of_level-op_tok BinOp.mul h = refl
  op_of_level-op_tok BinOp.div h = refl
  op_of_level-op_tok _ h = cc

  pub binds-op_tok : (op : BinOp) → binds u {F = F} (op_tok op) ≡ suc (op_level op)
  unfolding binds
  binds-op_tok BinOp.or = rw (u.lowercase_ascii (codes "or") (omega arith))
  binds-op_tok BinOp.and = rw (u.lowercase_ascii (codes "and") (omega arith))
  binds-op_tok _ = refl

  pub cmp_op-op_tok : (op : BinOp) → op_level op ≡ 3 → cmp_op {F = F} (op_tok op) ≡ some op
  unfolding cmp_op
  cmp_op-op_tok BinOp.or h = absurd (omega arith)
  cmp_op-op_tok BinOp.and h = absurd (omega arith)
  cmp_op-op_tok BinOp.add h = absurd (omega arith)
  cmp_op-op_tok BinOp.sub h = absurd (omega arith)
  cmp_op-op_tok BinOp.mul h = absurd (omega arith)
  cmp_op-op_tok BinOp.div h = absurd (omega arith)
  cmp_op-op_tok _ h = refl
