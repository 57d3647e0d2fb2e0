-- ===== src/Expr/Eval.antt =====
-- common/src/transform/expr/eval.rs: `eval` and its callers.
use potato_etl.Base.{
  ℕ, Bool, true, false, Option, none, some, List, [], ◌∷◌, Text, is_empty, text_eq, map, replicate,
  get, if◌then◌else◌, ◌>>=◌, Result, ok, err, out_of_fuel, then_ok, ok_or,
}
use potato_etl.Base.Int.{ℤ, pos, negsuc}
use potato_etl.Arrow.{Array, Field, RecordBatch, Json, Kernels}
use potato_etl.Expr.Syntax.{Expr, Args, Error}
use potato_etl.Expr.Lexer.{parse}
use potato_etl.Expr.Arrays.{
  EvalError, lift, float64_array, boolean_array, string_array, int64_array, to_boolean,
  to_string_array, to_int64,
}
use potato_etl.Expr.Operators.{zip_with, eval_binop, eval_unary}
use potato_etl.Expr.JsonPath.{get_index}
use potato_etl.Expr.Functions.{EvalContext, Step, at}
use potato_etl.Expr.Calls.{eval_call, lookup_env_var}
pub mod Rows
pub mod Columns
pub mod Logic
mod Tests

-- The first column whose name passes the test.
unfoldable pub find_column :
    {F : Type 0} → (Text → Bool) → List (Field × Array F) → Option (Array F)
find_column test [] = none
find_column test ((f, a) ∷ columns) = if test f.name then some a else find_column test columns

-- An element of a JSON text: a string without its quotes, all else as JSON. A negative index is a
-- `usize` past any array.
unfoldable pub element : (Json → Text) → Json → Text
element print_json (Json.string s) = s
element print_json v = print_json v

unfoldable pub element_at : {F : Type 0} → Kernels F → Option Text → Option ℤ → Option Text
unfolding get_index element
element_at k (some s) (some (pos i)) =
    k.strings.parse_json s >>= λ v. get_index i v >>= λ e. some (element k.strings.print_json e)
element_at k _ _ = none

module _ {F : Type 0} (k : Kernels F) where
  unfoldable pub eval_index : Array F → Array F → Result (EvalError F) (Array F)
  unfolding to_string_array to_int64 zip_with element_at
  eval_index base idx = then_ok (to_string_array k base) λ strs.
      then_ok (to_int64 k idx) λ indices. ok (string_array (zip_with (element_at k) strs indices))

  abbrev pub broadcast :
      {A : Type 0}
      → RecordBatch F
      → (List (Option A) → Array F)
      → A
      → Result (EvalError F) (Array F)
  broadcast batch build v = ok (build (replicate batch.num_rows (some v)))

  -- The two parts of an operation, and the arguments of a call, read the clock at places of their own.
  unfoldable mutual
    unfolding text_eq find_column eval_binop eval_unary eval_index eval_call

    pub eval : EvalContext F → RecordBatch F → Expr F → Result (EvalError F) (Array F)
    eval ctx batch (Expr.int v) = broadcast batch int64_array v
    eval ctx batch (Expr.float v) = broadcast batch float64_array v
    eval ctx batch (Expr.str s) = broadcast batch string_array s
    eval ctx batch (Expr.bool b) = broadcast batch boolean_array b
    eval ctx batch Expr.null = ok (string_array (replicate batch.num_rows none))
    eval ctx batch (Expr.column col) =
        ok_or (EvalError.column_not_found col) (find_column (text_eq col) batch.columns)
    eval ctx batch (Expr.bin_op op l r) =
        then_ok (eval (at Step.left ctx) batch l)
          λ a. then_ok (eval (at Step.right ctx) batch r) λ b. eval_binop k op a b
    eval ctx batch (Expr.unary op operand) = then_ok (eval ctx batch operand) (eval_unary k op)
    eval ctx batch (Expr.call func args) =
        eval_call k ctx batch.num_rows func (eval_args ctx batch args)
    eval ctx batch (Expr.index e i) =
        then_ok (eval (at Step.left ctx) batch e)
          λ base. then_ok (eval (at Step.right ctx) batch i) λ idx. eval_index base idx
    eval ctx batch (Expr.env_var name) = lookup_env_var k ctx batch.num_rows name
    eval ctx batch (Expr.column_ref step col) =
        let want = k.strings.unicode.to_lowercase col in
        ok_or (EvalError.column_not_found col)
          (find_column (λ name. text_eq (k.strings.unicode.to_lowercase name) want) batch.columns)

    pub eval_args :
        EvalContext F → RecordBatch F → Args F → List (Expr F × Result (EvalError F) (Array F))
    eval_args ctx batch Args.no_args = []
    eval_args ctx batch (Args.arg e rest) =
        (e, eval (at Step.left ctx) batch e) ∷ eval_args (at Step.right ctx) batch rest

module _ {F : Type 0} (k : Kernels F) (ctx : EvalContext F) where
  unfoldable pub eval_bool_mask : RecordBatch F → Expr F → Result (EvalError F) (List (Option Bool))
  unfolding eval to_boolean
  eval_bool_mask batch e = then_ok (eval k ctx batch e) (to_boolean k)

  -- `parse` under `?`
  abbrev pub lift_parse : Result Error (Expr F) → Result (EvalError F) (Expr F)
  lift_parse (ok e) = ok e
  lift_parse (err e) = err (EvalError.parse e)
  lift_parse out_of_fuel = out_of_fuel

  -- The rows on which the condition is true.
  unfoldable pub apply_condition :
      (Text → Option F) → RecordBatch F → Text → Result (EvalError F) (RecordBatch F)
  unfolding parse eval_bool_mask
  apply_condition parse_float batch condition =
      then_ok (lift_parse (parse k.strings.unicode parse_float condition))
        λ e. then_ok (eval_bool_mask batch e) λ mask. lift (k.filter_record_batch batch mask)
