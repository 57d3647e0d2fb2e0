-- ===== src/Expr/Calls/Rows.antt =====
-- common/src/transform/expr/eval.rs: a function call on arrays of a batch's rows gives an array of as
-- many rows.
use potato_etl.Base.{
  Option-cases, inl, inr, ℕ, ◌∙◌, none, some, List, [], ◌∷◌, Text, codes, map, length-map, get, All,
  Result, Ensures, holds, fails, Ensures-then,
}
use potato_etl.Arrow.{Array, Scalar, DataType, Kernels}
use potato_etl.Expr.Syntax.{Expr}
use potato_etl.Expr.Arrays.{EvalError, map_option}
use potato_etl.Expr.Functions.{functions, Function, EvalContext, valid}
use potato_etl.Expr.Calls.{is_true, lookup_env_var, call_function, eval_call}
use potato_etl.Expr.Lengths.{
  HasRows, array_of-HasRows, cast-HasRows, to_boolean-HasLength, to_string_array-HasLength,
  broadcast_array-HasRows, temporal_part-HasRows,
}
use potato_etl.Expr.Calls.Pieces.{
  Ends-ok_or, Ends-literal_text, Ends-literal_length, Ends-literal_regex, Ends-target_type,
  row_mask-HasLength, on_texts-HasRows, collect_ok-All, results-All, rows_of_texts-HasRows,
  coalesce_arrays-HasRows, pick_rows-HasRows, if_null-HasRows, json_get-HasRows,
  epoch_to_timestamp-HasRows, now-HasRows,
}

module _ {F : Type 0} (k : Kernels F) (ctx : EvalContext F) {n : ℕ} where
  pub lookup_env_var-HasRows : (name : Text) → Ensures (HasRows n) (lookup_env_var k ctx n name)
  lookup_env_var-HasRows name =
      Ensures-then (Ends-ok_or _ (get name ctx.env_vars)) λ a _. broadcast_array-HasRows k a n

  call_function-HasRows :
      (f : Function) (func : Text) (args : List (Expr F × Result (EvalError F) (Array F)))
      → All (λ (e, r). Ensures (HasRows n) r) args
      → Ensures (HasRows n) (call_function k ctx n f func args)
  unfolding call_function
  call_function-HasRows Function.now func [] hs = holds (now-HasRows k none (ctx.clock []).local_us)
  call_function-HasRows Function.utcnow func [] hs =
      holds (now-HasRows k (some (codes "UTC")) (ctx.clock []).utc_us)
  call_function-HasRows Function.run_ts func [] hs =
      holds (now-HasRows k (some (codes "UTC")) ctx.run_start_us)
  call_function-HasRows Function.run_ts_naive func [] hs =
      holds (now-HasRows k none ctx.run_start_us)
  call_function-HasRows Function.env func ((e, a) ∷ []) (h, _) =
      Ensures-then (Ends-literal_text k e) λ name _. lookup_env_var-HasRows name
  call_function-HasRows (Function.part part) func ((e, a) ∷ []) (h, _) =
      temporal_part-HasRows k part a h
  call_function-HasRows Function.upper func ((e, a) ∷ []) (h, _) =
      on_texts-HasRows k DataType.utf8 Scalar.text _ a h
  call_function-HasRows Function.lower func ((e, a) ∷ []) (h, _) =
      on_texts-HasRows k DataType.utf8 Scalar.text _ a h
  call_function-HasRows Function.trim func ((e, a) ∷ []) (h, _) =
      on_texts-HasRows k DataType.utf8 Scalar.text _ a h
  call_function-HasRows Function.string_length func ((e, a) ∷ []) (h, _) =
      on_texts-HasRows k DataType.int32 Scalar.int _ a h
  call_function-HasRows Function.regexp_like func ((e, a) ∷ (p, _) ∷ []) (h, _) =
      Ensures-then h λ x hx. Ensures-then (to_string_array-HasLength k x hx) λ s hs.
        Ensures-then (Ends-literal_regex k k.strings.is_match p) λ test _. holds (
          array_of-HasRows DataType.boolean Scalar.bool (map (map_option test) s)
            (length-map s (map_option test) ∙ hs))
  call_function-HasRows Function.regexp_replace func ((e, a) ∷ (p, _) ∷ (r, _) ∷ []) (h, _) =
      Ensures-then h λ x hx. Ensures-then (to_string_array-HasLength k x hx) λ s hs.
        Ensures-then (Ends-literal_regex k k.strings.replace_all p) λ f _.
          Ensures-then (Ends-literal_text k r)
            λ by _. holds (array_of-HasRows DataType.utf8 Scalar.text _ (length-map s _ ∙ hs))
  call_function-HasRows Function.truncate func ((e, a) ∷ (len, _) ∷ []) (h, _) =
      Ensures-then (Ends-literal_length k len)
        λ count _. on_texts-HasRows k DataType.utf8 Scalar.text _ a h
  call_function-HasRows Function.concat func (a ∷ args) hs =
      Ensures-then (collect_ok-All _ (results-All k n (a ∷ args) hs)) (rows_of_texts-HasRows k _)
  call_function-HasRows Function.coalesce func (a ∷ args) hs =
      Ensures-then (collect_ok-All _ (results-All k n (a ∷ args) hs)) (coalesce_arrays-HasRows k)
  call_function-HasRows Function.json_get func ((e, a) ∷ (_, b) ∷ []) (ha, (hb, _)) =
      Ensures-then ha λ x hx. Ensures-then hb λ y hy. json_get-HasRows k x y hx hy
  call_function-HasRows Function.json_length func ((e, a) ∷ []) (h, _) =
      on_texts-HasRows k DataType.int32 Scalar.int _ a h
  call_function-HasRows Function.cast func ((e, a) ∷ (t, b) ∷ []) (ha, (hb, _)) =
      Ensures-then ha
        λ x hx. Ensures-then (Ends-target_type k t b hb) λ target _. cast-HasRows k x target hx
  call_function-HasRows Function.is_null func ((e, a) ∷ []) (h, _) = Ensures-then h λ x hx.
      Ensures-then (row_mask-HasLength k valid x.cells)
        λ mask hm. holds (array_of-HasRows DataType.boolean Scalar.bool _ (length-map mask _ ∙ hm))
  call_function-HasRows Function.is_not_null func ((e, a) ∷ []) (h, _) = Ensures-then h λ x hx.
      Ensures-then (row_mask-HasLength k valid x.cells) λ mask hm.
        holds (
          array_of-HasRows DataType.boolean Scalar.bool (map some mask) (length-map mask some ∙ hm))
  call_function-HasRows Function.if_null func ((e, a) ∷ (_, b) ∷ []) (ha, (hb, _)) =
      Ensures-then ha λ x hx. Ensures-then hb λ y hy. if_null-HasRows k x y hx hy
  call_function-HasRows Function.if_then_else func ((_, c) ∷ (_, t) ∷ (_, o) ∷ [])
        (hc, (ht, (ho, _))) =
      Ensures-then hc λ x hx. Ensures-then (to_boolean-HasLength k x hx) λ flags _.
        Ensures-then ht λ y hy. Ensures-then ho λ z hz.
          Ensures-then (row_mask-HasLength k is_true flags)
            λ mask hm. pick_rows-HasRows k mask y z hm hy hz
  call_function-HasRows Function.epoch_to_timestamp func ((e, a) ∷ []) (h, _) =
      Ensures-then h λ x hx. epoch_to_timestamp-HasRows k x (codes "s") hx
  call_function-HasRows Function.epoch_to_timestamp func ((e, a) ∷ (u, _) ∷ []) (h, _) =
      Ensures-then h λ x hx.
        Ensures-then (Ends-literal_text k u) λ unit _. epoch_to_timestamp-HasRows k x unit hx
  call_function-HasRows f func args hs = fails

  pub eval_call-HasRows :
      (func : Text) (args : List (Expr F × Result (EvalError F) (Array F)))
      → All (λ (e, r). Ensures (HasRows n) r) args
      → Ensures (HasRows n) (eval_call k ctx n func args)
  unfolding eval_call
  eval_call-HasRows func args hs = elim (Option-cases (get func functions)) [
    | inl e ↦ rw (e, eval_call) fails
    | inr (f, e) ↦ rw (e, eval_call) (call_function-HasRows f func args hs)
  ]
