-- ===== src/Expr/Syntax.antt =====
-- common/src/transform/expr/{tokens,ast}.rs: tokens and the syntax tree. `F` stands for `f64`.
use potato_etl.Base.{Bool, true, false, ◌||◌, Text}
use potato_etl.Base.Int.{ℤ}

pub data Tok (F : Type 0) : Type 0 where
  ident : Text → Tok F
  int : ℤ → Tok F
  float : F → Tok F
  str : Text → Tok F
  env_var : Text → Tok F
  plus minus star slash eq_eq ne lt le gt ge lparen rparen comma dot lbracket rbracket eof : Tok F

pub data BinOp : Type 0 where
  add sub mul div eq ne lt le gt ge and or : BinOp

pub data UnaryOp : Type 0 where
  neg not : UnaryOp

-- `Args` is the `Vec<Expr>` of a call.
mutual
  pub data Expr (F : Type 0) : Type 0 where
    int : ℤ → Expr F
    float : F → Expr F
    str : Text → Expr F
    bool : Bool → Expr F
    null : Expr F
    column : Text → Expr F
    bin_op : BinOp → Expr F → Expr F → Expr F
    unary : UnaryOp → Expr F → Expr F
    call : Text → Args F → Expr F
    index : Expr F → Expr F → Expr F
    env_var : Text → Expr F
    column_ref : Text → Text → Expr F

  pub data Args (F : Type 0) : Type 0 where
    no_args : Args F
    arg : Expr F → Args F → Args F

-- Whether the value is computed from the columns of the batch.
unfoldable mutual
  pub references_columns : {F : Type 0} → Expr F → Bool
  references_columns (int v) = false
  references_columns (float v) = false
  references_columns (str s) = false
  references_columns (bool b) = false
  references_columns null = false
  references_columns (column col) = true
  references_columns (bin_op op left right) = references_columns left || references_columns right
  references_columns (unary op operand) = references_columns operand
  references_columns (call func args) = any_references_columns args
  references_columns (index e i) = references_columns e || references_columns i
  references_columns (env_var name) = false
  references_columns (column_ref step col) = true

  pub any_references_columns : {F : Type 0} → Args F → Bool
  any_references_columns no_args = false
  any_references_columns (arg a rest) = references_columns a || any_references_columns rest

pub data Error : Type 0 where
  unexpected_bang unterminated_string expected_name bad_number unexpected_character : Error
  expected_identifier expected_rbracket expected_rparen unexpected_token trailing_token : Error
