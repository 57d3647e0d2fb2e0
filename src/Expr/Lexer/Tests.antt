-- ===== src/Expr/Lexer/Tests.antt =====
-- The tokenizer and the whole parser on concrete texts. Floats are their text.
use potato_etl.Base.{[], ◌∷◌, ◌≡◌, ◌≢◌, refl, some, codes, ok, err, out_of_fuel, Ensures}
use potato_etl.Unicode.{ascii_tables}
use potato_etl.Expr.Syntax.{Tok, BinOp, Expr, Error, no_args, arg}
use potato_etl.Expr.Parser.Total.Steps.{EndsEof}
use potato_etl.Expr.Lexer.{tokenize, parse}
use potato_etl.Expr.Lexer.Total.{tokenize-EndsEof, parse-ne-out_of_fuel}

tokenizes :
    tokenize ascii_tables (λ s. some s) (codes "a_1 >= 3.5 and $x != 'q\\n'")
    ≡ ok (
        Tok.ident (codes "a_1")
        ∷ Tok.ge
        ∷ Tok.float (codes "3.5")
        ∷ Tok.ident (codes "and")
        ∷ Tok.env_var (codes "x")
        ∷ Tok.ne
        ∷ Tok.str (codes "q\n")
        ∷ Tok.eof
        ∷ [])
unfolding tokenize
tokenizes = refl

parses_price :
    parse ascii_tables (λ s. some s) (codes "price * Upper(\"x\")")
    ≡ ok (
        Expr.bin_op BinOp.mul
          (Expr.column (codes "price"))
          (Expr.call (codes "upper") (arg (Expr.str (codes "x")) no_args)))
unfolding parse
parses_price = refl

rejects_open_string :
    parse ascii_tables (λ s. some s) (codes "'abc\\") ≡ err Error.unterminated_string
unfolding parse
rejects_open_string = refl

rejects_big_integer :
    parse ascii_tables (λ s. some s) (codes "9223372036854775808") ≡ err Error.bad_number
unfolding parse
rejects_big_integer = refl

tokenize-EndsEof_example : Ensures EndsEof (tokenize ascii_tables (λ s. some s) (codes "1 + $y"))
tokenize-EndsEof_example = tokenize-EndsEof ascii_tables (λ s. some s) (codes "1 + $y")

parse-ne-out_of_fuel_example : parse ascii_tables (λ s. some s) (codes "((1") ≢ out_of_fuel
parse-ne-out_of_fuel_example = parse-ne-out_of_fuel ascii_tables (λ s. some s) (codes "((1")
