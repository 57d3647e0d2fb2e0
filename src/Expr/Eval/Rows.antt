-- ===== src/Expr/Eval/Rows.antt =====
-- common/src/transform/expr/eval.rs: `eval` gives a value for each row of the batch.
use potato_etl.Base.{
  length-replicate, replicate, Bool, Option, none, some, List, [], ◌∷◌, Text, text_eq, All, ok_or,
  Ensures, holds, fails, Ensures-then, Bool-cases, inl, inr,
}
use potato_etl.Arrow.{Array, Scalar, DataType, Field, RecordBatch, IsBatch, Kernels}
use potato_etl.Expr.Syntax.{Expr, Args}
use potato_etl.Expr.Arrays.{EvalError, array_of}
use potato_etl.Expr.Functions.{EvalContext, Step, at}
use potato_etl.Expr.Lengths.{
  HasRows, array_of-HasRows, to_string_array-HasLength, to_int64-HasLength, zipped-HasRows,
  eval_binop-HasRows, eval_unary-HasRows,
}
use potato_etl.Expr.Calls.Rows.{lookup_env_var-HasRows, eval_call-HasRows}
use potato_etl.Expr.Eval.{find_column, eval_index, eval, eval_args}

module _ {F : Type 0} where
  find_column-HasRows :
      {n : _} (e : EvalError F) (test : Text → Bool) (columns : List (Field × Array F))
      → All (λ (f, a). HasRows n a) columns
      → Ensures (HasRows n) (ok_or e (find_column test columns))
  unfolding find_column
  find_column-HasRows e test [] hs = fails
  find_column-HasRows e test ((f, a) ∷ columns) (h, hs) = elim (Bool-cases (test f.name)) [
    | inl q ↦ rw q (holds h)
    | inr q ↦ rw q (find_column-HasRows e test columns hs)
  ]

module _ {F : Type 0} (k : Kernels F) (batch : RecordBatch F) (h : IsBatch batch) where
  broadcast-HasRows {ℓ} :
      {A : Type ℓ} (t : DataType) (g : A → Scalar F) (v : Option A)
      → HasRows batch.num_rows (array_of t g (replicate batch.num_rows v))
  broadcast-HasRows t g v =
      array_of-HasRows t g (replicate batch.num_rows v) (length-replicate batch.num_rows v)

  mutual
    unfolding eval eval_index eval_args

    expr-HasRows :
        (ctx : EvalContext F) (e : Expr F) → Ensures (HasRows batch.num_rows) (eval k ctx batch e)
    expr-HasRows ctx (Expr.int v) = holds (broadcast-HasRows DataType.int64 Scalar.int (some v))
    expr-HasRows ctx (Expr.float v) =
        holds (broadcast-HasRows DataType.float64 Scalar.float (some v))
    expr-HasRows ctx (Expr.str s) = holds (broadcast-HasRows DataType.utf8 Scalar.text (some s))
    expr-HasRows ctx (Expr.bool b) = holds (broadcast-HasRows DataType.boolean Scalar.bool (some b))
    expr-HasRows ctx Expr.null = holds (broadcast-HasRows DataType.utf8 Scalar.text none)
    expr-HasRows ctx (Expr.column col) = find_column-HasRows _ (text_eq col) batch.columns h
    expr-HasRows ctx (Expr.bin_op op left right) =
        Ensures-then (expr-HasRows (at Step.left ctx) left) λ l hl.
          Ensures-then (expr-HasRows (at Step.right ctx) right)
            λ r hr. eval_binop-HasRows k op l r hl hr
    expr-HasRows ctx (Expr.unary op operand) =
        Ensures-then (expr-HasRows ctx operand) λ a ha. eval_unary-HasRows k op a ha
    expr-HasRows ctx (Expr.call func args) =
        eval_call-HasRows k ctx func (eval_args k ctx batch args) (args-HasRows ctx args)
    expr-HasRows ctx (Expr.index e i) = Ensures-then (expr-HasRows (at Step.left ctx) e) λ b hb.
        Ensures-then (expr-HasRows (at Step.right ctx) i) λ j hj.
          zipped-HasRows k _ _ _ (to_string_array-HasLength k b hb) (to_int64-HasLength k j hj)
    expr-HasRows ctx (Expr.env_var name) = lookup_env_var-HasRows k ctx name
    expr-HasRows ctx (Expr.column_ref step col) = find_column-HasRows _ _ batch.columns h

    args-HasRows :
        (ctx : EvalContext F) (args : Args F)
        → All (λ (e, r). Ensures (HasRows batch.num_rows) r) (eval_args k ctx batch args)
    args-HasRows ctx Args.no_args = tt
    args-HasRows ctx (Args.arg e rest) =
        (expr-HasRows (at Step.left ctx) e, args-HasRows (at Step.right ctx) rest)

module _ {F : Type 0} (k : Kernels F) (ctx : EvalContext F) (batch : RecordBatch F)
    (h : IsBatch batch) where
  -- On a batch whose columns have its number of rows, evaluating an expression ends, in an error or in
  -- an array with a value for each row.
  pub eval-HasRows : (e : Expr F) → Ensures (HasRows batch.num_rows) (eval k ctx batch e)
  eval-HasRows = expr-HasRows k batch h ctx
