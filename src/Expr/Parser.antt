-- ===== src/Expr/Parser.antt =====
-- common/src/transform/expr/ast.rs: the recursive-descent parser. A `Parser A` reads an `A` off the
-- tokens from `pos` on and returns it with the tokens that are left.
mod Stream
pub mod Total
pub mod Printer
pub mod RoundTrip
mod Tests
unfoldable pub use Stream.*
use potato_etl.Base.{
  ℕ, zero, suc, Bool, true, false, ◌||◌, Option, none, some, List, [], ◌∷◌, ◌++◌, Text, codes,
  text_eq, if◌then◌else◌, Result, ok, err, out_of_fuel, then_ok, length,
}
use potato_etl.Unicode.{Unicode}
use potato_etl.Expr.Syntax.{Tok, BinOp, UnaryOp, Expr, Args, no_args, arg, Error}

module _ (u : Unicode) where
  -- `Tok::Ident(kw)` with `kw.to_lowercase() == word`
  unfoldable pub is_word : {F : Type 0} → Text → Tok F → Bool
  unfolding text_eq
  is_word w (Tok.ident kw) = text_eq (u.to_lowercase kw) w
  is_word w _ = false

  unfoldable pub or_op : {F : Type 0} → Tok F → Option BinOp
  unfolding is_word
  or_op t = if is_word (codes "or") t then some BinOp.or else none

  unfoldable pub and_op : {F : Type 0} → Tok F → Option BinOp
  unfolding is_word
  and_op t = if is_word (codes "and") t then some BinOp.and else none

  -- The keyword literals, tested before a call or a column.
  unfoldable pub keyword : {F : Type 0} → Text → Option (Expr F)
  unfolding text_eq
  keyword word =
      if text_eq word (codes "true")
      then some (Expr.bool true)
      else if text_eq word (codes "false")
      then some (Expr.bool false)
      else if text_eq word (codes "null")
      then some Expr.null
      else none

  -- The levels of the grammar, over the parser of a whole expression (`or_expr`, which parentheses,
  -- brackets and arguments call again).
  module _ {F : Type 0} (or_expr : Parser F (Expr F)) where
    -- `while self.eat(&Tok::Comma) { args.push(self.or_expr()?) }`
    unfoldable pub more_args : ℕ → Parser F (Args F)
    unfolding peek step
    more_args zero ts = out_of_fuel
    more_args (suc f) ts =
        let more = run (step ts) do a ← or_expr; rest ← more_args f; pure (arg a rest)
        in if is_comma (peek ts) then more else ok (no_args, ts)

    -- The arguments of a call, none if the parenthesis closes at once.
    unfoldable pub arg_list : ℕ → Parser F (Args F)
    unfolding more_args
    arg_list f ts =
        let listed = run ts do a ← or_expr; rest ← more_args f; pure (arg a rest)
        in if is_rparen (peek ts) then ok (no_args, ts) else listed

    -- The arguments and the closing parenthesis of a call.
    unfoldable pub call_args : ℕ → Parser F (Args F)
    unfolding arg_list expect
    call_args f = do args ← arg_list f; expect is_rparen Error.expected_rparen; pure args

    -- `name(args)`, once the parenthesis is eaten
    unfoldable pub call : ℕ → Text → Parser F (Expr F)
    unfolding call_args
    call f name = do args ← call_args f; pure (Expr.call (u.to_lowercase name) args)

    -- `Tok::Ident(name)`: a keyword literal, a call or a column path
    unfoldable pub primary_ident : ℕ → Text → Parser F (Expr F)
    unfolding keyword eat call dotted
    primary_ident f name ts = elim (keyword (u.to_lowercase name)) [
      | some literal ↦ ok (literal, ts)
      | none ↦ then_ok (eat is_lparen ts) λ (is_call, us).
          let col = run us (do pure (Expr.column (← dotted f name))) in
          if is_call then call f name us else col
    ]

    -- `Tok::EnvVar(name)`: `$step.col`, `$fn(args)` or `$name`
    unfoldable pub primary_env_var : ℕ → Text → Parser F (Expr F)
    unfolding call eat expect_ident
    primary_env_var f name ts = then_ok (eat is_dot ts) λ (is_ref, us).
        let ref = run us (do pure (Expr.column_ref name (← expect_ident))) in
        let var =
          then_ok (eat is_lparen us)
            λ (is_call, vs). if is_call then call f name vs else ok (Expr.env_var name, vs) in
        if is_ref then ref else var

    -- `primary`, by its first token, which is eaten where it is of use
    unfoldable pub primary_at : ℕ → Tok F → Parser F (Expr F)
    unfolding primary_ident primary_env_var expect
    primary_at f (Tok.int n) = pure (Expr.int n)
    primary_at f (Tok.float x) = pure (Expr.float x)
    primary_at f (Tok.str s) = pure (Expr.str s)
    primary_at f Tok.lparen = do e ← or_expr; expect is_rparen Error.expected_rparen; pure e
    primary_at f (Tok.ident name) = primary_ident f name
    primary_at f (Tok.env_var name) = primary_env_var f name
    primary_at f _ = fail Error.unexpected_token

    unfoldable pub primary : ℕ → Parser F (Expr F)
    unfolding primary_at peek step
    primary f ts = primary_at f (peek ts) (step ts)

    -- `while self.eat(&Tok::LBracket) { .. }`
    unfoldable pub postfix_loop : ℕ → Expr F → Parser F (Expr F)
    unfolding expect
    postfix_loop zero e ts = out_of_fuel
    postfix_loop (suc f) e ts =
        let more = run (step ts) do
          idx ← or_expr
          expect is_rbracket Error.expected_rbracket
          postfix_loop f (Expr.index e idx)
        in if is_lbracket (peek ts) then more else ok (e, ts)

    unfoldable pub postfix : ℕ → Parser F (Expr F)
    unfolding primary postfix_loop
    postfix f = do e ← primary f; postfix_loop f e

    unfoldable pub unary_expr : ℕ → Parser F (Expr F)
    unfolding postfix
    unary_expr zero ts = out_of_fuel
    unary_expr (suc f) ts =
        let negated = run (step ts) do operand ← unary_expr f; pure (Expr.unary UnaryOp.neg operand)
        in if is_minus (peek ts) then negated else postfix (suc f) ts

    unfoldable pub mul_expr : ℕ → Parser F (Expr F)
    unfolding binary unary_expr mul_op
    mul_expr f = binary mul_op (unary_expr f) f

    unfoldable pub add_expr : ℕ → Parser F (Expr F)
    unfolding mul_expr add_op
    add_expr f = binary add_op (mul_expr f) f

    -- At most one comparison: `a < b < c` is not read to its end.
    unfoldable pub cmp_expr : ℕ → Parser F (Expr F)
    unfolding add_expr cmp_op
    cmp_expr f = do
      left ← add_expr f
      λ ts. elim (cmp_op (peek ts)) [
        | none ↦ ok (left, ts)
        | some op ↦ run ts do advance; right ← add_expr f; pure (Expr.bin_op op left right)
      ]

    unfoldable pub not_expr : ℕ → Parser F (Expr F)
    unfolding cmp_expr is_word
    not_expr zero ts = out_of_fuel
    not_expr (suc f) ts =
        let negated = run (step ts) do operand ← not_expr f; pure (Expr.unary UnaryOp.not operand)
        in if is_word (codes "not") (peek ts) then negated else cmp_expr (suc f) ts

    unfoldable pub and_expr : ℕ → Parser F (Expr F)
    unfolding not_expr and_op
    and_expr f = binary and_op (not_expr f) f

    unfoldable pub or_level : ℕ → Parser F (Expr F)
    unfolding and_expr or_op
    or_level f = binary or_op (and_expr f) f

  -- `or_expr` on fuel: a nested expression, and each round of a loop, has a unit less.
  unfoldable pub or_expr : {F : Type 0} → ℕ → Parser F (Expr F)
  unfolding or_level
  or_expr zero ts = out_of_fuel
  or_expr (suc f) ts = or_level (or_expr f) (suc f) ts

  -- `parse`, after `tokenize`: a whole expression, and nothing behind it
  unfoldable pub parse_tokens : {F : Type 0} → List (Tok F) → Result Error (Expr F)
  unfolding or_expr
  parse_tokens ts =
      then_ok (or_expr (suc (length ts)) ts)
        λ (e, rest). if is_eof (peek rest) then ok e else err Error.trailing_token
