-- ===== src/Expr/Parser/RoundTrip.antt =====
-- What is printed with the grammar's precedences is parsed back to the same expression.
mod Levels
mod Atoms
mod Operands
mod Calls
use potato_etl.Base.{
  subst, ℕ, zero, suc, ◌+◌, ◌-◌, ◌<◌, ◌≤◌, ◌≡◌, refl, ap, sym, ◌∙◌, Bool, true, false, Option, none,
  some, List, [], ◌∷◌, ◌++◌, Text, codes, length, arith, ok, then_ok, Bool-cases, inl, inr,
  append_assoc, append-nil, ltb, ◌==◌, length-append, ◌⊎◌,
}
use potato_etl.Unicode.{Unicode}
use potato_etl.Expr.Syntax.{Tok, BinOp, UnaryOp, Expr, Args, no_args, arg}
use potato_etl.Expr.Parser.{
  Parser, peek, step, is_lparen, is_rparen, is_comma, is_lbracket, is_minus, is_word, binary,
  binary_loop, cmp_op, more_args, arg_list, call_args, call, primary_ident, postfix_loop, postfix,
  unary_expr, cmp_expr, not_expr, or_expr, parse_tokens, add_expr, or_op, and_op, add_op, mul_op,
}
use potato_etl.Expr.Parser.Printer.{
  op_level, left_level, right_level, unary_level, level_of, op_tok, unary_tok, wrap, print_body,
  print_args, print_more, print, is_reserved, IsPrintable, ArePrintable,
}
use Levels.{
  step-cons, binary_loop_round, HeadIs, binds, Stops, is_left, op_of_level, level, Reads,
  StartsLoop, StartsPostfix, HeadFits, Reads-StartsLoop, level-binary, HeadFits-down,
}
use Atoms.{
  int-StartsPostfix, float-StartsPostfix, str-StartsPostfix, true-StartsPostfix,
  false-StartsPostfix, null-StartsPostfix, env_var-StartsPostfix, column_ref-StartsPostfix,
  column-StartsPostfix, keyword-not_reserved, is_word-not_reserved,
}
use Operands.{
  Natural, level_of-le, HeadFits-append, lparen-head, operand_tokens, whole-Reads, operand-Reads,
  operand-head, operand-StartsLoop, operand-StartsPostfix, postfix-Natural, op_of_level-op_tok,
  binds-op_tok, cmp_op-op_tok,
}
use Calls.{
  nested-Reads, index-StartsPostfix, ReadsArgs, ReadsMore, more_args-none, more_args-arg, args-none,
  args-arg, call-StartsPostfix,
}

left_level-is_left : (op : BinOp) → is_left (op_level op) ≡ true → left_level op ≡ op_level op
left_level-is_left BinOp.eq h = cc
left_level-is_left BinOp.ne h = cc
left_level-is_left BinOp.lt h = cc
left_level-is_left BinOp.le h = cc
left_level-is_left BinOp.gt h = cc
left_level-is_left BinOp.ge h = cc
left_level-is_left _ h = refl

cmp-not_left :
    (op : BinOp) → is_left (op_level op) ≡ false → (op_level op ≡ 3) × (left_level op ≡ 4)
cmp-not_left BinOp.or h = cc
cmp-not_left BinOp.and h = cc
cmp-not_left BinOp.add h = cc
cmp-not_left BinOp.sub h = cc
cmp-not_left BinOp.mul h = cc
cmp-not_left BinOp.div h = cc
cmp-not_left _ h = (refl, refl)

is_left-lt : (p : ℕ) → is_left p ≡ true → p < 6
is_left-lt zero h = omega arith
is_left-lt (suc zero) h = omega arith
is_left-lt (suc (suc (suc (suc zero)))) h = omega arith
is_left-lt (suc (suc (suc (suc (suc zero))))) h = omega arith
is_left-lt _ h = cc

module _ (u : Unicode) (F : Type 0) where
  module _ (op : BinOp) (a b : Expr F) (na : Natural u F (print_body a) a)
      (nb : Natural u F (print_body b) b) where
    -- An operator of a loop: the left operand starts the loop, and a round reads the right one.
    left_bin_op-StartsLoop :
        is_left (op_level op) ≡ true
        → StartsLoop u
            (op_level op)
            (operand_tokens u F (op_level op) a
              ++ op_tok op ∷ operand_tokens u F (right_level op) b)
            (Expr.bin_op op a b)
    left_bin_op-StartsLoop left f g t rest bf bg s =
        let p = op_level op in
        let wa = operand_tokens u F p a in
        let wb = operand_tokens u F (suc p) b in
        let split = append_assoc wa (op_tok op ∷ wb) (t ∷ rest) in
        let whole = ap length split in
        let small = is_left-lt p left in
        let sizes = length-append wa (op_tok op ∷ (wb ++ t ∷ rest)) in
        let (k, enough, run) =
          operand-StartsLoop u F a na p (omega arith) left f g (op_tok op) (wb ++ t ∷ rest)
            (omega arith) (omega arith) (omega (arith, binds-op_tok u F op)) in
        let right =
          operand-Reads u F b nb (suc p) (omega arith) f g t rest (omega arith) (omega arith) s in
        (
          k - 1,
          omega (arith, length-append wb (t ∷ rest)),
          rw (split, run)
              (binary_loop_round (op_of_level u p) _ k a b op (op_tok op) wb t rest (omega arith)
                (op_of_level-op_tok u F op left) right),
        )

    -- A comparison: both operands are sums.
    cmp_bin_op-Reads :
        op_level op ≡ 3
        → Reads u 3
            (operand_tokens u F 4 a ++ op_tok op ∷ operand_tokens u F 4 b)
            (Expr.bin_op op a b)
    unfolding cmp_expr peek
    cmp_bin_op-Reads cmp f g t rest bf bg s =
        let wa = operand_tokens u F 4 a in
        let wb = operand_tokens u F 4 b in
        let split = append_assoc wa (op_tok op ∷ wb) (t ∷ rest) in
        let whole = ap length split in
        let sizes = length-append wa (op_tok op ∷ (wb ++ t ∷ rest)) in
        let first =
          operand-Reads u F a na 4 (omega arith) f g (op_tok op) (wb ++ t ∷ rest) (omega arith)
            (omega arith) (omega (arith, binds-op_tok u F op)) in
        let second =
          operand-Reads u F b nb 4 (omega arith) f g t rest (omega arith) (omega arith)
            (omega arith) in
        rw (split, first)
          (rw (cmp_op-op_tok u F op cmp, then_ok) (rw (step-cons (op_tok op) wb t rest, second)))

    -- With its operands wrapped where they have to be, an operator is read at its level.
    bin_op-Natural :
        Natural u F
          (operand_tokens u F (left_level op) a
            ++ op_tok op ∷ operand_tokens u F (right_level op) b)
          (Expr.bin_op op a b)
    bin_op-Natural = elim (Bool-cases (is_left (op_level op))) [
      | inl left ↦
          let same = left_level-is_left op left in
          let starts = left_bin_op-StartsLoop left in
          let w =
            operand_tokens u F (op_level op) a
            ++ op_tok op ∷ operand_tokens u F (right_level op) b in
          let small = is_left-lt (op_level op) left in
          rw same (record {
            reads = Reads-StartsLoop u (op_level op) w (Expr.bin_op op a b) left starts;
            head =
                HeadFits-append u F (op_level op) _ _
                  (operand-head u F a na (op_level op) (omega arith));
            loop = λ _. starts;
            chain = λ seven. absurd (omega arith);
          })
      | inr other ↦
          let (three, four) = cmp-not_left op other in
          let reads = cmp_bin_op-Reads three in
          rw (four) (record {
            reads = rw three reads;
            head = rw three (
                HeadFits-append u F 3 _ _
                  (HeadFits-down u 3 4 _ (omega arith) (operand-head u F a na 4 (omega arith))));
            loop = λ left. cc;
            chain = λ seven. absurd (omega arith);
          })
    ]

  not_word : is_word u {F = F} (codes "not") (Tok.ident (codes "not")) ≡ true
  unfolding is_word
  not_word = rw (u.lowercase_ascii (codes "not") (omega arith))

  module _ (a : Expr F) (na : Natural u F (print_body a) a) where
    not-Reads :
        Reads u 2 (unary_tok UnaryOp.not ∷ operand_tokens u F 2 a) (Expr.unary UnaryOp.not a)
    unfolding not_expr peek
    not-Reads f zero t rest bf bg s = absurd (omega arith)
    not-Reads f (suc g) t rest bf bg s = rw not_word (
        rw (
          step-cons (unary_tok UnaryOp.not) (operand_tokens u F 2 a) t rest,
          operand-Reads u F a na 2 (omega arith) f g t rest (omega arith) (omega arith) s,
        ))

    neg-Reads :
        Reads u 6 (unary_tok UnaryOp.neg ∷ operand_tokens u F 6 a) (Expr.unary UnaryOp.neg a)
    unfolding unary_expr peek
    neg-Reads f zero t rest bf bg s = absurd (omega arith)
    neg-Reads f (suc g) t rest bf bg s = rw (
      step-cons (unary_tok UnaryOp.neg) (operand_tokens u F 6 a) t rest,
      operand-Reads u F a na 6 (omega arith) f g t rest (omega arith) (omega arith) s,
    )

    unary-Natural :
        (op : UnaryOp)
        → Natural u F (unary_tok op ∷ operand_tokens u F (unary_level op) a) (Expr.unary op a)
    unfolding is_word
    unary-Natural UnaryOp.not = record {
      reads = not-Reads;
      head = (λ l. absurd (omega arith), λ l. absurd (omega arith), refl);
      loop = λ left. cc;
      chain = λ seven. absurd (omega arith);
    }
    unary-Natural UnaryOp.neg = record {
      reads = neg-Reads;
      head = (λ l. refl, λ l. absurd (omega arith), refl);
      loop = λ left. cc;
      chain = λ seven. absurd (omega arith);
    }

  keyword-Natural :
      (w : Text) (e : Expr F)
      → level_of e ≡ 7
      → is_word u {F = F} (codes "not") (Tok.ident w) ≡ false
      → StartsPostfix u (Tok.ident w ∷ []) e
      → Natural u F (Tok.ident w ∷ []) e
  keyword-Natural w e seven n c = postfix-Natural u F _ e seven (λ _. n, λ _. refl, refl) c

  true_word : is_word u {F = F} (codes "not") (Tok.ident (codes "true")) ≡ false
  unfolding is_word
  true_word = rw (u.lowercase_ascii (codes "true") (omega arith))

  false_word : is_word u {F = F} (codes "not") (Tok.ident (codes "false")) ≡ false
  unfolding is_word
  false_word = rw (u.lowercase_ascii (codes "false") (omega arith))

  null_word : is_word u {F = F} (codes "not") (Tok.ident (codes "null")) ≡ false
  unfolding is_word
  null_word = rw (u.lowercase_ascii (codes "null") (omega arith))

  abbrev IsNatural : Expr F → Type 0
  IsNatural e = IsPrintable u e → Natural u F (print_body e) e

  abbrev AreNatural : Args F → Type 0
  AreNatural args =
      ArePrintable u args → ReadsArgs u (print_args args) args × ReadsMore u (print_more args) args

  -- One induction over the expression and the arguments of its calls.
  print_body-Natural : (e : Expr F) → IsNatural e
  unfolding print_body IsPrintable is_word
  print_body-Natural e = elim e as IsNatural AreNatural [
    | Expr.int v ↦ λ _.
        postfix-Natural u F _ (Expr.int v) refl (λ _. refl, λ _. refl, refl) (int-StartsPostfix u v)
    | Expr.float x ↦ λ _.
        postfix-Natural u F _ (Expr.float x) refl (λ _. refl, λ _. refl, refl)
          (float-StartsPostfix u x)
    | Expr.str s ↦ λ _.
        postfix-Natural u F _ (Expr.str s) refl (λ _. refl, λ _. refl, refl) (str-StartsPostfix u s)
    | Expr.bool true ↦ λ _. keyword-Natural _ (Expr.bool true) refl true_word (true-StartsPostfix u)
    | Expr.bool false ↦
        λ _. keyword-Natural _ (Expr.bool false) refl false_word (false-StartsPostfix u)
    | Expr.null ↦ λ _. keyword-Natural _ Expr.null refl null_word (null-StartsPostfix u)
    | Expr.column col ↦ λ free.
        postfix-Natural u F _ (Expr.column col) refl
          (λ _. is_word-not_reserved u F _ free, λ _. refl, refl) (column-StartsPostfix u col free)
    | Expr.bin_op op (a → iha) (b → ihb) ↦ λ p. bin_op-Natural op a b (iha p.0) (ihb p.1)
    | Expr.unary op (a → iha) ↦ λ p. unary-Natural a (iha p) op
    | Expr.call func (args → ih) ↦ λ p.
        postfix-Natural u F _ (Expr.call func args) refl
          (λ _. is_word-not_reserved u F func p.1, λ _. refl, refl)
          (call-StartsPostfix u func _ args p.0 p.1 (ih p.2).0)
    | Expr.index (a → iha) (i → ihi) ↦ λ p.
        postfix-Natural u F _ (Expr.index a i) refl
          (HeadFits-append u F 7 _ _ (operand-head u F a (iha p.0) 7 (omega arith)))
          (index-StartsPostfix u _ _ a i (operand-StartsPostfix u F a (iha p.0))
            (whole-Reads u F i (ihi p.1)))
    | Expr.env_var name ↦ λ _.
        postfix-Natural u F _ (Expr.env_var name) refl (λ _. refl, λ _. refl, refl)
          (env_var-StartsPostfix u name)
    | Expr.column_ref step col ↦ λ _.
        postfix-Natural u F _ (Expr.column_ref step col) refl (λ _. refl, λ _. refl, refl)
          (column_ref-StartsPostfix u step col)
    | no_args ↦ λ _. (args-none u, more_args-none u)
    | arg (a → iha) (rest → ih) ↦ λ p.
        let n = iha p.0 in
        let r = whole-Reads u F a n in
        let (_, more) = ih p.1 in
        (
          args-arg u a rest r (HeadFits-down u 0 (level_of a) _ (omega arith) n.head) more,
          more_args-arg u a rest r more,
        )
  ]

eof-Stops : (u : Unicode) (F : Type 0) → Stops u {F = F} 0 Tok.eof
unfolding binds
eof-Stops u F = omega arith

-- The parser inverts the printer: an expression that is printed with no more parentheses than its
-- operators' precedence and left associativity need is parsed back to itself, whatever its shape, if
-- its names are printable.
pub parse_tokens-print :
    (u : Unicode) {F : Type 0} (e : Expr F) → IsPrintable u e → parse_tokens u (print e) ≡ ok e
unfolding parse_tokens print peek
parse_tokens-print u {F} e p =
    let w = print_body e in
    let r = whole-Reads u F e (print_body-Natural u F e p) in
    rw (
      nested-Reads u w e r (suc (length (w ++ Tok.eof ∷ []))) Tok.eof [] (omega arith)
        (eof-Stops u F))
