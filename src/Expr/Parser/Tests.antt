-- ===== src/Expr/Parser/Tests.antt =====
-- The parser on concrete tokens, and the theorems at concrete expressions.
use potato_etl.Base.{ℕ, List, [], ◌∷◌, ◌≡◌, refl, Text, codes, ok, err, out_of_fuel, ◌≢◌}
use potato_etl.Base.Int.{pos}
use potato_etl.Unicode.{ascii_tables}
use potato_etl.Expr.Syntax.{Tok, BinOp, UnaryOp, Expr, Error, no_args, arg}
use potato_etl.Expr.Parser.{parse_tokens}
use potato_etl.Expr.Parser.Total.{parse_tokens-ne-out_of_fuel}
use potato_etl.Expr.Parser.Printer.{print, IsPrintable}
use potato_etl.Expr.Parser.RoundTrip.{parse_tokens-print}

abbrev name : Text → Tok ℕ
name s = Tok.ident s

-- a + b * 2 == c and not $x.y
abbrev mixed : List (Tok ℕ)
mixed =
    name (codes "a")
    ∷ Tok.plus
    ∷ name (codes "b")
    ∷ Tok.star
    ∷ Tok.int (pos 2)
    ∷ Tok.eq_eq
    ∷ name (codes "c")
    ∷ name (codes "AND")
    ∷ name (codes "not")
    ∷ Tok.env_var (codes "x")
    ∷ Tok.dot
    ∷ name (codes "y")
    ∷ Tok.eof
    ∷ []

parses_mixed :
    parse_tokens ascii_tables mixed
    ≡ ok (
        Expr.bin_op BinOp.and
          (Expr.bin_op BinOp.eq
            (Expr.bin_op BinOp.add
              (Expr.column (codes "a"))
              (Expr.bin_op BinOp.mul (Expr.column (codes "b")) (Expr.int (pos 2))))
            (Expr.column (codes "c")))
          (Expr.unary UnaryOp.not (Expr.column_ref (codes "x") (codes "y"))))
unfolding parse_tokens
parses_mixed = refl

-- F(p.q[0], -1)
parses_call :
    parse_tokens ascii_tables (
      name (codes "F")
      ∷ Tok.lparen
      ∷ name (codes "p")
      ∷ Tok.dot
      ∷ name (codes "q")
      ∷ Tok.lbracket
      ∷ Tok.int (pos 0)
      ∷ Tok.rbracket
      ∷ Tok.comma
      ∷ Tok.minus
      ∷ Tok.int (pos 1)
      ∷ Tok.rparen
      ∷ Tok.eof
      ∷ [])
    ≡ ok (
        Expr.call (codes "f") (
          arg
            (Expr.index (Expr.column (codes "p.q")) (Expr.int (pos 0)))
            (arg (Expr.unary UnaryOp.neg (Expr.int (pos 1))) no_args)))
unfolding parse_tokens
parses_call = refl

-- a < b < c
rejects_chained_comparison :
    parse_tokens ascii_tables
      (name (codes "a") ∷ Tok.lt ∷ name (codes "b") ∷ Tok.lt ∷ name (codes "c") ∷ Tok.eof ∷ [])
    ≡ err Error.trailing_token
unfolding parse_tokens
rejects_chained_comparison = refl

parse_tokens-ne-out_of_fuel_example : parse_tokens ascii_tables mixed ≢ out_of_fuel
parse_tokens-ne-out_of_fuel_example = parse_tokens-ne-out_of_fuel ascii_tables mixed refl

-- (a - (b - 2)) * F(p.q[0], not x) , whose parentheses are all needed
abbrev sample : Expr ℕ
sample =
    Expr.bin_op BinOp.mul
      (Expr.bin_op BinOp.sub (Expr.column (codes "a"))
        (Expr.bin_op BinOp.sub (Expr.column (codes "b")) (Expr.int (pos 2))))
      (Expr.call (codes "f") (
        arg (Expr.index (Expr.column (codes "p.q")) (Expr.int (pos 0)))
          (arg (Expr.unary UnaryOp.not (Expr.column (codes "x"))) no_args)))

sample-IsPrintable : IsPrintable ascii_tables sample
unfolding IsPrintable
sample-IsPrintable = ((refl, (refl, tt)), (refl, refl, ((refl, tt), (refl, tt))))

prints_sample :
    print sample
    ≡ Tok.lparen
      ∷ name (codes "a")
      ∷ Tok.minus
      ∷ Tok.lparen
      ∷ name (codes "b")
      ∷ Tok.minus
      ∷ Tok.int (pos 2)
      ∷ Tok.rparen
      ∷ Tok.rparen
      ∷ Tok.star
      ∷ name (codes "f")
      ∷ Tok.lparen
      ∷ name (codes "p")
      ∷ Tok.dot
      ∷ name (codes "q")
      ∷ Tok.lbracket
      ∷ Tok.int (pos 0)
      ∷ Tok.rbracket
      ∷ Tok.comma
      ∷ name (codes "not")
      ∷ name (codes "x")
      ∷ Tok.rparen
      ∷ Tok.eof
      ∷ []
unfolding print
prints_sample = refl

parse_tokens-print_example : parse_tokens ascii_tables (print sample) ≡ ok sample
parse_tokens-print_example = parse_tokens-print ascii_tables sample sample-IsPrintable
