-- ===== src/Expr/Parser/Total.antt =====
-- The parser ends on every list of tokens that ends with `eof`: each round reads a token.
pub mod Steps
use potato_etl.Base.{
  ◌-◌, ap, sym, ◌∙◌, ℕ, zero, suc, ◌<◌, ◌≤◌, ◌≡◌, ◌≢◌, refl, Bool, true, false, Option, none, List,
  [], ◌∷◌, Text, codes, length, arith, Option-cases, inl, inr, ok, err, out_of_fuel, Ensures, holds,
  fails, Ensures-then, Ensures-if, Ensures-weaken, Ensures-ne-out_of_fuel,
}
use potato_etl.Unicode.{Unicode}
use potato_etl.Expr.Syntax.{Tok, BinOp, Expr, Error}
use potato_etl.Expr.Parser.{
  Parser, peek, step, expect_ident, is_lparen, is_rparen, is_lbracket, is_rbracket, is_comma,
  is_dot, is_minus, is_eof, eat, expect, cmp_op, add_op, mul_op, binary_loop, binary, dotted,
  is_word, or_op, and_op, keyword, more_args, arg_list, call_args, call, primary_ident,
  primary_env_var, primary_at, primary, postfix_loop, postfix, unary_expr, mul_expr, add_expr,
  cmp_expr, not_expr, and_expr, or_level, or_expr, parse_tokens,
}
use potato_etl.Expr.Parser.Total.Steps.{
  EndsEof, Keeps, Reads, ReadsWithin, step-Reads, step-Keeps, Misses, ne_eof, eat-Keeps,
  expect-Keeps, ident-Ensures, expect_ident-Reads, dotted-Keeps, binary_loop-Keeps,
  binary-ReadsWithin,
}

-- The levels, over a nested parser that reads within `n` tokens. A level reads within one more.
module _ (u : Unicode) {F : Type 0} (or_expr : Parser F (Expr F)) (n : ℕ)
    (nested : ReadsWithin n or_expr) where
  more_args-Keeps :
      (f : ℕ) (ts : List (Tok F))
      → EndsEof ts
      → length ts < n
      → length ts < f
      → Ensures (Keeps ts) (more_args u or_expr f ts)
  unfolding more_args
  more_args-Keeps zero ts h b l = absurd (omega arith)
  more_args-Keeps (suc f) ts h b l =
      Ensures-if (is_comma (peek ts))
        (λ d.
          let (h₁, l₁) = step-Reads ts h (ne_eof is_comma _ refl d) in
          Ensures-then (nested (step ts) h₁ (omega arith)) λ (a, us) k.
            Ensures-then (more_args-Keeps f us k.0 (omega arith) (omega arith))
              λ (rest, vs) q. holds (q.0, omega arith))
        (λ _. holds (h, omega arith))

  module _ (f : ℕ) (ts : List (Tok F)) (h : EndsEof ts) (b : length ts < n)
      (l : length ts < f) where
    arg_list-Keeps : Ensures (Keeps ts) (arg_list u or_expr f ts)
    unfolding arg_list
    arg_list-Keeps =
        Ensures-if (is_rparen (peek ts)) (λ _. holds (h, omega arith))
          λ _. Ensures-then (nested ts h b) λ (a, us) k.
            Ensures-then (more_args-Keeps f us k.0 (omega arith) (omega arith))
              λ (rest, vs) q. holds (q.0, omega arith)

    call_args-Keeps : Ensures (Keeps ts) (call_args u or_expr f ts)
    unfolding call_args
    call_args-Keeps = Ensures-then arg_list-Keeps λ (args, us) k.
        Ensures-then (expect-Keeps is_rparen Error.expected_rparen us k.0)
          λ (_, vs) q. holds (q.0, omega arith)

    call-Keeps : (name : Text) → Ensures (Keeps ts) (call u or_expr f name ts)
    unfolding call
    call-Keeps name = Ensures-then call_args-Keeps λ (args, us) k. holds k

  module _ (f : ℕ) (ts : List (Tok F)) (h : EndsEof ts) (b : length ts < n) (l : length ts < f)
      (name : Text) where
    primary_ident-Keeps : Ensures (Keeps ts) (primary_ident u or_expr f name ts)
    unfolding primary_ident
    primary_ident-Keeps = elim (Option-cases (keyword u {F = F} (u.to_lowercase name))) [
      | inr (literal, e) ↦ rw (e, primary_ident) (holds (h, omega arith))
      | inl e ↦
          rw (e, primary_ident)
            (Ensures-then (eat-Keeps is_lparen ts h) λ (is_call, us) k.
              Ensures-if is_call
                (λ _.
                  Ensures-weaken (call-Keeps f us k.0 (omega arith) (omega arith) name)
                    λ r q. (q.0, omega arith))
                (λ _.
                  Ensures-then (dotted-Keeps f name us k.0 (omega arith))
                    λ (col, vs) q. holds (q.0, omega arith)))
    ]

    primary_env_var-Keeps : Ensures (Keeps ts) (primary_env_var u or_expr f name ts)
    unfolding primary_env_var
    primary_env_var-Keeps = Ensures-then (eat-Keeps is_dot ts h) λ (is_ref, us) k.
        Ensures-if is_ref
          (λ _. Ensures-then (expect_ident-Reads us k.0) λ (col, vs) q. holds (q.0, omega arith))
          (λ _. Ensures-then (eat-Keeps is_lparen us k.0) λ (is_call, vs) q.
            Ensures-if is_call
              (λ _.
                Ensures-weaken (call-Keeps f vs q.0 (omega arith) (omega arith) name)
                  λ r p. (p.0, omega arith))
              (λ _. holds (q.0, omega arith)))

  -- Below, `m` bounds the tokens that are left, for the nested parser and for the fuel.
  module _ (m f : ℕ) (within : m ≤ suc n) (fuel : m ≤ f) where
    primary_at-Keeps :
        (t : Tok F) (ts us : List (Tok F))
        → (t ≢ Tok.eof → EndsEof us × (length us < length ts))
        → length ts < m
        → Ensures (Reads ts) (primary_at u or_expr f t us)
    unfolding primary_at
    primary_at-Keeps (Tok.int v) ts us k b = holds (k cc)
    primary_at-Keeps (Tok.float x) ts us k b = holds (k cc)
    primary_at-Keeps (Tok.str s) ts us k b = holds (k cc)
    primary_at-Keeps Tok.lparen ts us k b =
        let (h, l) = k cc in
        Ensures-then (nested us h (omega arith)) λ (e, vs) q.
          Ensures-then (expect-Keeps is_rparen Error.expected_rparen vs q.0)
            λ (_, ws) p. holds (p.0, omega arith)
    primary_at-Keeps (Tok.ident name) ts us k b =
        let (h, l) = k cc in
        Ensures-weaken (primary_ident-Keeps f us h (omega arith) (omega arith) name)
          λ r q. (q.0, omega arith)
    primary_at-Keeps (Tok.env_var name) ts us k b =
        let (h, l) = k cc in
        Ensures-weaken (primary_env_var-Keeps f us h (omega arith) (omega arith) name)
          λ r q. (q.0, omega arith)
    primary_at-Keeps _ ts us k b = fails

    primary-ReadsWithin : ReadsWithin m (primary u or_expr f)
    unfolding primary
    primary-ReadsWithin ts h b = primary_at-Keeps (peek ts) ts (step ts) (step-Reads ts h) b

  postfix_loop-Keeps :
      (f : ℕ) (e : Expr F) (ts : List (Tok F))
      → EndsEof ts
      → length ts < n
      → length ts < f
      → Ensures (Keeps ts) (postfix_loop u or_expr f e ts)
  unfolding postfix_loop
  postfix_loop-Keeps zero e ts h b l = absurd (omega arith)
  postfix_loop-Keeps (suc f) e ts h b l =
      Ensures-if (is_lbracket (peek ts))
        (λ d.
          let (h₁, l₁) = step-Reads ts h (ne_eof is_lbracket _ refl d) in
          Ensures-then (nested (step ts) h₁ (omega arith)) λ (idx, us) k.
            Ensures-then (expect-Keeps is_rbracket Error.expected_rbracket us k.0) λ (_, vs) q.
              Ensures-weaken (postfix_loop-Keeps f _ vs q.0 (omega arith) (omega arith))
                λ r p. (p.0, omega arith))
        (λ _. holds (h, omega arith))

  postfix-ReadsWithin : (m f : ℕ) → m ≤ suc n → m ≤ f → ReadsWithin m (postfix u or_expr f)
  unfolding postfix
  postfix-ReadsWithin m f within fuel ts h b =
      Ensures-then (primary-ReadsWithin m f within fuel ts h b) λ (e, us) k.
        Ensures-weaken (postfix_loop-Keeps f e us k.0 (omega arith) (omega arith))
          λ r q. (q.0, omega arith)

  unary_expr-ReadsWithin : (m f : ℕ) → m ≤ suc n → m ≤ f → ReadsWithin m (unary_expr u or_expr f)
  unfolding unary_expr
  unary_expr-ReadsWithin m zero within fuel ts h b = absurd (omega arith)
  unary_expr-ReadsWithin m (suc f) within fuel ts h b =
      Ensures-if (is_minus (peek ts))
        (λ d.
          let (h₁, l₁) = step-Reads ts h (ne_eof is_minus _ refl d) in
          Ensures-then
            (unary_expr-ReadsWithin (m - 1) f (omega arith) (omega arith) (step ts) h₁
              (omega arith))
            λ (e, us) k. holds (k.0, omega arith))
        (λ _. postfix-ReadsWithin m (suc f) within fuel ts h b)

  mul_expr-ReadsWithin : (m f : ℕ) → m ≤ suc n → m ≤ f → ReadsWithin m (mul_expr u or_expr f)
  unfolding mul_expr
  mul_expr-ReadsWithin m f within fuel =
      binary-ReadsWithin mul_op _ m f refl fuel (unary_expr-ReadsWithin m f within fuel)

  add_expr-ReadsWithin : (m f : ℕ) → m ≤ suc n → m ≤ f → ReadsWithin m (add_expr u or_expr f)
  unfolding add_expr
  add_expr-ReadsWithin m f within fuel =
      binary-ReadsWithin add_op _ m f refl fuel (mul_expr-ReadsWithin m f within fuel)

  cmp_expr-ReadsWithin : (m f : ℕ) → m ≤ suc n → m ≤ f → ReadsWithin m (cmp_expr u or_expr f)
  unfolding cmp_expr
  cmp_expr-ReadsWithin m f within fuel ts h b =
      Ensures-then (add_expr-ReadsWithin m f within fuel ts h b) λ (left, us) k.
        elim (Option-cases (cmp_op (peek us))) [
          | inl e ↦ rw e (holds k)
          | inr (op, e) ↦
              let (h₁, l₁) = step-Reads us k.0 (λ w. cc (ap cmp_op w)) in
              rw e (
                Ensures-then (add_expr-ReadsWithin m f within fuel (step us) h₁ (omega arith))
                  λ (right, vs) q. holds (q.0, omega arith))
        ]

  not_expr-ReadsWithin : (m f : ℕ) → m ≤ suc n → m ≤ f → ReadsWithin m (not_expr u or_expr f)
  unfolding not_expr is_word
  not_expr-ReadsWithin m zero within fuel ts h b = absurd (omega arith)
  not_expr-ReadsWithin m (suc f) within fuel ts h b =
      Ensures-if (is_word u (codes "not") (peek ts))
        (λ d.
          let (h₁, l₁) = step-Reads ts h (ne_eof (is_word u (codes "not")) _ refl d) in
          Ensures-then
            (not_expr-ReadsWithin (m - 1) f (omega arith) (omega arith) (step ts) h₁ (omega arith))
            λ (e, us) k. holds (k.0, omega arith))
        (λ _. cmp_expr-ReadsWithin m (suc f) within fuel ts h b)

  and_expr-ReadsWithin : (m f : ℕ) → m ≤ suc n → m ≤ f → ReadsWithin m (and_expr u or_expr f)
  unfolding and_expr
  and_expr-ReadsWithin m f within fuel =
      binary-ReadsWithin (and_op u) _ m f refl fuel (not_expr-ReadsWithin m f within fuel)

  or_level-ReadsWithin : (m f : ℕ) → m ≤ suc n → m ≤ f → ReadsWithin m (or_level u or_expr f)
  unfolding or_level
  or_level-ReadsWithin m f within fuel =
      binary-ReadsWithin (or_op u) _ m f refl fuel (and_expr-ReadsWithin m f within fuel)

module _ (u : Unicode) {F : Type 0} where
  or_expr-ReadsWithin : (f : ℕ) → ReadsWithin f (or_expr u {F = F} f)
  unfolding or_expr
  or_expr-ReadsWithin zero ts h b = absurd (omega arith)
  or_expr-ReadsWithin (suc f) ts h b =
      or_level-ReadsWithin u (or_expr u f) f (or_expr-ReadsWithin f) (suc f) (suc f) (omega arith)
        (omega arith) ts h b

  pub parse_tokens-Ensures :
      (ts : List (Tok F)) → EndsEof ts → Ensures (λ _. Unit {0}) (parse_tokens u ts)
  unfolding parse_tokens
  parse_tokens-Ensures ts h =
      Ensures-then (or_expr-ReadsWithin (suc (length ts)) ts h (omega arith))
        λ (e, rest) k. Ensures-if (is_eof (peek rest)) (λ _. holds tt) (λ _. fails)

  -- The fuel of `parse_tokens` is enough for every list of tokens that ends with `eof`: the parser
  -- returns an expression or an error.
  pub parse_tokens-ne-out_of_fuel :
      (ts : List (Tok F)) → EndsEof ts → parse_tokens u ts ≢ out_of_fuel
  parse_tokens-ne-out_of_fuel ts h = Ensures-ne-out_of_fuel (parse_tokens-Ensures ts h)
