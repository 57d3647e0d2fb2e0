-- ===== src/Transform/Aggregate.antt =====
-- common/src/transform/aggregate.rs: the metrics of a group, and the batch of an `aggregate` step.
use potato_etl.Base.{
  ℕ, zero, suc, ◌+◌, Bool, true, false, Option, none, some, List, [], ◌∷◌, ◌++◌, Text, map, length,
  filter, inl, inr, if◌then◌else◌, Result, ok, err, then_ok, ok_or,
}
use potato_etl.Base.Int.{ℤ, pos, wrap_i64}
use potato_etl.Arrow.{Scalar, Array, Field, RecordBatch, DataType, Kernels}
use potato_etl.Expr.Arrays.{float64_array, string_array, int64_array, as_text, downcast}
use potato_etl.Expr.Operators.{zip_with}
use potato_etl.Expr.Functions.{by_rows, collect_ok, valid}
use potato_etl.Transform.Grouping.{
  AggFunc, Metric, parse_metric, KeyPart, GroupKey, key_part, group_rows,
}
use potato_etl.Transform.Metrics.{
  AggError, lift_agg, lift_metric, rows_at, valid_values, find_valid, indices_below, sum_floats,
  get_col, get_col_float, cast_back, agg_min_max,
}
pub mod Names
pub mod Schema
pub mod Empty
mod Tests

-- `Field::new`, and an array of one value.
abbrev pub new_field : Text → DataType → Bool → Field
new_field name t nullable = record {
  name = name;
  data_type = t;
  nullable = nullable;
  metadata = [];
}

abbrev pub one_cell : {F : Type 0} → DataType → Option (Scalar F) → Array F
one_cell t cell = record { data_type = t; cells = cell ∷ [] }

module _ {F : Type 0} (k : Kernels F) where
  abbrev pub mean : List F → Option F
  mean [] = none
  mean (x ∷ xs) =
      some
        (k.floats.div (sum_floats k k.floats.zero (x ∷ xs)) (k.floats.from_count (length (x ∷ xs))))

  abbrev pub require_arg : Metric → Result AggError Text
  require_arg m = ok_or (AggError.argument_required m.output_col) m.arg

  -- The metric's column and its value, by its function.
  unfoldable pub compute_by :
      AggFunc → RecordBatch F → Metric → List ℕ → Result AggError (Field × Array F)
  unfolding rows_at get_col get_col_float sum_floats valid_values find_valid agg_min_max wrap_i64
      filter
  compute_by AggFunc.count batch m row_idx = ok (
    new_field m.output_col DataType.int64 false,
    int64_array (some (wrap_i64 (pos (length row_idx))) ∷ []),
  )
  compute_by AggFunc.count_col batch m row_idx = then_ok (require_arg m) λ col.
      then_ok (get_col k batch col) λ arr. then_ok (rows_at row_idx arr.cells) λ cells. ok (
        new_field m.output_col DataType.int64 false,
        int64_array (some (wrap_i64 (pos (length (filter valid cells)))) ∷ []),
      )
  compute_by AggFunc.sum batch m row_idx = then_ok (require_arg m) λ col.
      then_ok (get_col_float k batch col row_idx) λ values. ok (
        new_field m.output_col DataType.float64 false,
        float64_array (some (sum_floats k k.floats.zero (valid_values values)) ∷ []),
      )
  compute_by AggFunc.avg batch m row_idx = then_ok (require_arg m) λ col.
      then_ok (get_col_float k batch col row_idx) λ values. ok (
        new_field m.output_col DataType.float64 true,
        float64_array (mean (valid_values values) ∷ []),
      )
  compute_by AggFunc.min batch m row_idx = then_ok (require_arg m) λ col.
      then_ok (get_col k batch col) λ arr.
        then_ok (agg_min_max k arr row_idx false)
          λ (best, t). ok (new_field m.output_col t true, best)
  compute_by AggFunc.max batch m row_idx = then_ok (require_arg m) λ col.
      then_ok (get_col k batch col) λ arr.
        then_ok (agg_min_max k arr row_idx true)
          λ (best, t). ok (new_field m.output_col t true, best)
  compute_by AggFunc.first batch m row_idx = then_ok (require_arg m) λ col.
      then_ok (get_col k batch col) λ arr.
        then_ok (find_valid row_idx arr.cells)
          λ cell. ok (new_field m.output_col arr.data_type true, one_cell arr.data_type cell)

  unfoldable pub compute_metric :
      RecordBatch F → Metric → List ℕ → Result AggError (Field × Array F)
  unfolding compute_by
  compute_metric batch m row_idx = compute_by m.func batch m row_idx

  -- The value of a key in its column's type, or as a text if the cast fails.
  abbrev pub key_array : DataType → KeyPart → Array F
  key_array t KeyPart.null = one_cell t none
  key_array t (KeyPart.value s) = cast_back k (string_array (some s ∷ [])) t

  -- `group_cols.iter().zip(key.iter())`
  unfoldable pub key_columns :
      RecordBatch F → List Text → GroupKey → Result AggError (List (Field × Array F))
  unfolding get_col
  key_columns batch [] key = ok []
  key_columns batch (col ∷ cols) [] = ok []
  key_columns batch (col ∷ cols) (part ∷ key) = then_ok (get_col k batch col) λ arr.
      then_ok (key_columns batch cols key)
        λ rest. ok ((new_field col arr.data_type true, key_array arr.data_type part) ∷ rest)

  unfoldable pub compute_agg_row :
      RecordBatch F → List Text → GroupKey → List Metric → List ℕ → Result AggError (RecordBatch F)
  unfolding key_columns compute_metric collect_ok
  compute_agg_row batch group_cols key metrics row_idx =
      then_ok (key_columns batch group_cols key) λ keys.
        then_ok (collect_ok (map (λ (m : Metric). compute_metric batch m row_idx) metrics))
          λ values. lift_agg (k.try_new (keys ++ values))

  -- The columns of the batches, one after the other, under the fields of the first batch.
  unfoldable pub concat_batches : List (RecordBatch F) → Result AggError (RecordBatch F)
  unfolding by_rows collect_ok zip_with
  concat_batches [] = err AggError.empty_input
  concat_batches (b ∷ batches) =
      let slices = map (λ (x : RecordBatch F). map (λ (f, a). a) x.columns) (b ∷ batches) in
      then_ok (ok_or AggError.index_out_of_bounds (by_rows (length b.columns) k.concat slices))
        λ merged.
          then_ok (collect_ok (map lift_agg merged))
            λ arrays. lift_agg (k.try_new (zip_with (λ (f, _) a. (f, a)) b.columns arrays))

  unfoldable pub empty_result : List Text → List (Text × Text) → Result AggError (RecordBatch F)
  empty_result group_by metrics = lift_agg (
      k.try_new (
        map (λ (name : Text). (new_field name DataType.utf8 true, string_array []))
          (group_by ++ map (λ (out, e). out) metrics)))

  -- The texts of a column that the rows are grouped by.
  unfoldable pub key_texts : RecordBatch F → Text → Result AggError (List (Option Text))
  unfolding get_col downcast
  key_texts batch col = then_ok (get_col k batch col) λ arr.
      then_ok (lift_agg (k.cast arr DataType.utf8))
        λ b. ok_or AggError.downcast_failed (downcast as_text b.cells)

  unfoldable pub aggregate_all :
      RecordBatch F → List Text → List Metric → Result AggError (RecordBatch F)
  unfolding indices_below compute_agg_row key_texts group_rows concat_batches by_rows collect_ok
  aggregate_all batch [] metrics =
      compute_agg_row batch [] [] metrics (indices_below batch.num_rows)
  aggregate_all batch (col ∷ cols) metrics =
      then_ok (collect_ok (map (key_texts batch) (col ∷ cols))) λ key_arrs.
        then_ok
          (ok_or AggError.index_out_of_bounds (by_rows batch.num_rows (map key_part) key_arrs))
          λ keys.
            then_ok
              (collect_ok (
                map (λ (key, rows). compute_agg_row batch (col ∷ cols) key metrics rows)
                  (group_rows keys)))
              concat_batches

  unfoldable pub apply_aggregate :
      List (RecordBatch F) → List Text → List (Text × Text) → Result AggError (RecordBatch F)
  unfolding empty_result concat_batches parse_metric aggregate_all collect_ok
  apply_aggregate [] group_by metrics = empty_result group_by metrics
  apply_aggregate (b ∷ batches) group_by metrics = then_ok (concat_batches (b ∷ batches)) λ batch.
      then_ok (collect_ok (map (λ (out, e). lift_metric (parse_metric k.strings out e)) metrics))
        λ metric_defs. aggregate_all batch group_by metric_defs
