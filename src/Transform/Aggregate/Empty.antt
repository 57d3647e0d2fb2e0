-- ===== src/Transform/Aggregate/Empty.antt =====
-- common/src/transform/aggregate.rs: grouping a batch without rows.
use potato_etl.Base.{◌≡◌, refl, Option, List, ◌∷◌, Text, map, ok, err}
use potato_etl.Arrow.{RecordBatch, Kernels}
use potato_etl.Expr.Functions.{by_rows, collect_ok}
use potato_etl.Transform.Grouping.{Metric, group_rows, group_from}
use potato_etl.Transform.Metrics.{AggError}
use potato_etl.Transform.Aggregate.{key_texts, concat_batches, aggregate_all}

module _ {F : Type 0} (k : Kernels F) where
  -- Grouping a batch that has the columns and no rows is an error, and not an empty result.
  pub aggregate_all-empty :
      (batch : RecordBatch F) (col : Text) (cols : List Text) (metrics : List Metric)
      (key_arrs : List (List (Option Text)))
      → batch.num_rows ≡ 0
      → collect_ok (map (key_texts k batch) (col ∷ cols)) ≡ ok key_arrs
      → aggregate_all k batch (col ∷ cols) metrics ≡ err AggError.empty_input
  unfolding aggregate_all group_rows group_from by_rows concat_batches collect_ok
  aggregate_all-empty batch col cols metrics key_arrs h hk = rw (hk, h) refl
