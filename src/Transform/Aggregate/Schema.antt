-- ===== src/Transform/Aggregate/Schema.antt =====
-- common/src/transform/aggregate.rs: the columns of an aggregate.
use potato_etl.Base.{
  ℕ, ◌≡◌, refl, sym, ap, ◌∙◌, true, Option, List, [], ◌∷◌, ◌++◌, Text, split_once, map, length,
  length-map, get, All, ◌⊎◌, inl, inr, Result, Ensures, holds, fails, Ensures-then, Ensures-ok_or,
  Ensures-weaken, Option-cases, arith,
}
use potato_etl.Arrow.{Array, Field, RecordBatch, DataType, Kernels, Strings}
use potato_etl.Expr.Arrays.{downcast, as_text}
use potato_etl.Expr.Operators.{zip_with}
use potato_etl.Expr.Functions.{by_rows}
use potato_etl.Expr.Calls.Pieces.{length-by_rows, collect_ok-All}
use potato_etl.Transform.Grouping.{
  Metric, MetricError, parse_metric, inner_text, before_last, func_names, GroupKey, Groups,
  key_part, group_rows,
}
use potato_etl.Transform.Metrics.{AggError, lift_agg, lift_metric, indices_below}
use potato_etl.Transform.Map.Passes.{names_of}
use potato_etl.Transform.Map.Outcome.{column_names}
use potato_etl.Transform.Aggregate.{
  new_field, compute_metric, compute_agg_row, concat_batches, empty_result, key_texts,
  aggregate_all, apply_aggregate,
}
use potato_etl.Transform.Aggregate.Names.{
  Ends, HasColumns, AllLength, Ends-ok_or, Ends-lift_agg, Ensures-lift_agg, Ensures-collect_ok,
  by_rows-All, group_from-AllLength, key_columns-names, compute_by-name, Ends-get_col,
}

outputs : List Metric → List Text
outputs metrics = map (λ (m : Metric). m.output_col) metrics

column_names-append :
    {F : Type 0} (xs ys : List (Field × Array F))
    → column_names (xs ++ ys) ≡ column_names xs ++ column_names ys
column_names-append [] ys = refl
column_names-append ((f, a) ∷ xs) ys = ap (◌∷◌ f.name) (column_names-append xs ys)

-- Columns under the fields of others, as many as there are.
column_names-zip_with :
    {F : Type 0} (columns : List (Field × Array F)) (arrays : List (Array F))
    → length arrays ≡ length columns
    → column_names (zip_with (λ (f, _) a. (f, a)) columns arrays) ≡ column_names columns
unfolding zip_with
column_names-zip_with [] arrays h = refl
column_names-zip_with ((f, a) ∷ columns) [] h = grind arith
column_names-zip_with ((f, a) ∷ columns) (b ∷ arrays) h =
    ap (◌∷◌ f.name) (column_names-zip_with columns arrays (omega arith))

column_names-new :
    {F : Type 0} (a : Array F) (names : List Text)
    → column_names (map (λ (name : Text). (new_field name DataType.utf8 true, a)) names) ≡ names
column_names-new a [] = refl
column_names-new a (name ∷ names) = ap (◌∷◌ name) (column_names-new a names)

inner_text-Ends : (name rest : Text) → Ends (inner_text name rest)
unfolding inner_text
inner_text-Ends name rest = elim (Option-cases (before_last b')' rest)) [
  | inr (inner, e) ↦ rw (inner_text, e) (holds tt)
  | inl e ↦ elim (Option-cases (before_last b')' name)) [
    | inl n ↦ rw (inner_text, e, n) (holds tt)
    | inr (t, n) ↦ rw (inner_text, e, n) fails
  ]
]

parse_metric-output :
    (t : Strings) (out e : Text)
    → Ensures (λ (m : Metric). m.output_col ≡ out) (parse_metric t out e)
unfolding parse_metric
parse_metric-output t out e = elim (Option-cases (split_once b'(' (t.trim e))) [
  | inl q ↦ rw (parse_metric, q) fails
  | inr ((name, rest), q) ↦
      rw (parse_metric, q)
        (Ensures-then (inner_text-Ends name rest) λ inner _.
          Ensures-then
            (Ends-ok_or (MetricError.unknown_function (t.unicode.to_lowercase (t.trim name)))
              (get (t.unicode.to_lowercase (t.trim name)) func_names))
            λ func _. holds refl)
]

Ensures-lift_metric {ℓ} :
    {A : Type 0} {P : A → Type ℓ} {r : Result MetricError A}
    → Ensures P r
    → Ensures P (lift_metric r)
Ensures-lift_metric (holds h) = holds h
Ensures-lift_metric fails = fails

module _ {F : Type 0} (k : Kernels F) where
  compute_agg_row-HasColumns :
      (batch : RecordBatch F) (cols : List Text) (key : GroupKey) (metrics : List Metric)
      (row_idx : List ℕ)
      → length key ≡ length cols
      → Ensures
          (HasColumns (cols ++ outputs metrics))
          (compute_agg_row k batch cols key metrics row_idx)
  unfolding compute_agg_row outputs compute_metric
  compute_agg_row-HasColumns batch cols key metrics row_idx h =
      Ensures-then (key_columns-names k batch cols key h) λ keys hk.
        Ensures-then
          (Ensures-collect_ok (λ (m : Metric). compute_metric k batch m row_idx)
            (λ (m : Metric). m.output_col) (λ (f, a). f.name)
            (λ m. compute_by-name k m.func batch m row_idx) metrics)
          λ values hv. Ensures-lift_agg (k.try_new (keys ++ values)) λ out e.
            ap column_names (k.try_new_columns (keys ++ values) out e)
            ∙ column_names-append keys values
            ∙ ap (λ (x : List Text). x ++ column_names values) hk
            ∙ ap (λ (y : List Text). cols ++ y) hv

  concat_first-HasColumns :
      (b : RecordBatch F) (batches : List (RecordBatch F))
      → Ensures (HasColumns (column_names b.columns)) (concat_batches k (b ∷ batches))
  unfolding concat_batches
  concat_first-HasColumns b batches =
      let slices = map (λ (x : RecordBatch F). map (λ (f, a). a) x.columns) (b ∷ batches) in
      Ensures-then
        (Ensures-ok_or AggError.index_out_of_bounds (by_rows (length b.columns) k.concat slices)
          (length-by_rows (length b.columns) k.concat slices))
        λ merged hm.
          Ensures-then
            (Ensures-collect_ok lift_agg (λ r. tt) (λ a. tt) (λ r. Ensures-lift_agg r λ a e. refl)
              merged)
            λ arrays ha. Ensures-lift_agg (k.try_new _) λ out e.
              ap column_names (k.try_new_columns _ out e)
              ∙ column_names-zip_with b.columns arrays (
                  sym (length-map arrays (λ (a : Array F). tt))
                  ∙ ap length ha
                  ∙ length-map merged (λ (r : Text ⊎ Array F). tt)
                  ∙ hm)

  concat_batches-HasColumns :
      (names : List Text) (batches : List (RecordBatch F))
      → All (HasColumns names) batches
      → Ensures (HasColumns names) (concat_batches k batches)
  unfolding concat_batches
  concat_batches-HasColumns names [] hs = fails
  concat_batches-HasColumns names (b ∷ batches) (h, hs) =
      Ensures-weaken (concat_first-HasColumns b batches) λ out e. e ∙ h

  Ends-key_texts : (batch : RecordBatch F) (col : Text) → Ends (key_texts k batch col)
  unfolding key_texts
  Ends-key_texts batch col = Ensures-then (Ends-get_col k batch col) λ arr _.
      Ensures-then (Ends-lift_agg (k.cast arr DataType.utf8))
        λ b _. Ends-ok_or AggError.downcast_failed (downcast as_text b.cells)

  -- The batches of the groups, whose keys have a part for each column.
  groups-HasColumns :
      (batch : RecordBatch F) (cols : List Text) (metrics : List Metric) (groups : Groups)
      → AllLength (length cols) groups
      → All
          (λ r. Ensures (HasColumns (cols ++ outputs metrics)) r)
          (map (λ (key, rows). compute_agg_row k batch cols key metrics rows) groups)
  groups-HasColumns batch cols metrics [] hs = tt
  groups-HasColumns batch cols metrics ((key, rows) ∷ groups) (h, hs) = (
    compute_agg_row-HasColumns batch cols key metrics rows h,
    groups-HasColumns batch cols metrics groups hs,
  )

  aggregate_all-HasColumns :
      (batch : RecordBatch F) (cols : List Text) (metrics : List Metric)
      → Ensures (HasColumns (cols ++ outputs metrics)) (aggregate_all k batch cols metrics)
  unfolding aggregate_all group_rows
  aggregate_all-HasColumns batch [] metrics =
      compute_agg_row-HasColumns batch [] [] metrics (indices_below batch.num_rows) refl
  aggregate_all-HasColumns batch (col ∷ cols) metrics =
      let n = length (col ∷ cols) in
      Ensures-then
        (Ensures-collect_ok (key_texts k batch) (λ c. tt) (λ a. tt)
          (λ c. Ensures-weaken (Ends-key_texts batch c) λ _ _. refl) (col ∷ cols))
        λ key_arrs ha.
          let many : length key_arrs ≡ n =
            sym (length-map key_arrs (λ (a : List (Option Text)). tt))
            ∙ ap length ha
            ∙ length-map (col ∷ cols) (λ (c : Text). tt) in
          Ensures-then
            (Ensures-ok_or AggError.index_out_of_bounds
              (by_rows batch.num_rows (map key_part) key_arrs)
              λ keys e.
                by_rows-All (λ (key : GroupKey). length key ≡ n) n batch.num_rows (map key_part)
                  key_arrs keys (λ heads h. length-map heads key_part ∙ h) many e)
            λ keys hk.
              Ensures-then
                (collect_ok-All _ (
                  groups-HasColumns batch (col ∷ cols) metrics (group_rows keys)
                    (group_from-AllLength n 0 keys [] hk tt)))
                (concat_batches-HasColumns ((col ∷ cols) ++ outputs metrics))

  -- An aggregate ends, in an error or in a batch with the columns of the groups and those of the
  -- metrics, in the order in which the step lists them, with or without rows to group.
  pub apply_aggregate-HasColumns :
      (batches : List (RecordBatch F)) (group_by : List Text) (metrics : List (Text × Text))
      → Ensures
          (HasColumns (group_by ++ names_of metrics))
          (apply_aggregate k batches group_by metrics)
  unfolding apply_aggregate empty_result outputs
  apply_aggregate-HasColumns [] group_by metrics = Ensures-lift_agg (k.try_new _) λ out e.
      ap column_names (k.try_new_columns _ out e)
      ∙ column_names-new _ (group_by ++ names_of metrics)
  apply_aggregate-HasColumns (b ∷ batches) group_by metrics =
      Ensures-then (concat_first-HasColumns b batches) λ batch _.
        Ensures-then
          (Ensures-collect_ok (λ (out, e). lift_metric (parse_metric k.strings out e))
            (λ (out, e). out) (λ (m : Metric). m.output_col)
            (λ (out, e). Ensures-lift_metric (parse_metric-output k.strings out e)) metrics)
          λ metric_defs hm.
            Ensures-weaken (aggregate_all-HasColumns batch group_by metric_defs)
              λ out e. e ∙ ap (λ (x : List Text). group_by ++ x) hm
