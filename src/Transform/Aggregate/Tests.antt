-- ===== src/Transform/Aggregate/Tests.antt =====
-- Aggregates of a small batch, and the theorems at them.
use potato_etl.Base.{
  ◌≡◌, refl, ℕ, true, false, none, some, Option, List, [], ◌∷◌, Text, codes, ok, err, All, Ensures,
  ◌↔◌,
}
use potato_etl.Base.Int.{ℤ, pos, negsuc}
use potato_etl.Arrow.{Scalar, DataType, RecordBatch}
use potato_etl.Arrow.Sample.{kernels, batch_of}
use potato_etl.Expr.Functions.{collect_ok}
use potato_etl.Transform.Map.Passes.{names_of}
use potato_etl.Transform.Metrics.{AggError, best_from, best_int}
use potato_etl.Transform.Metrics.Best.{Within, Occurs, best_from_lem}
use potato_etl.Transform.Aggregate.{new_field, key_texts, aggregate_all, apply_aggregate}
use potato_etl.Transform.Aggregate.Names.{HasColumns}
use potato_etl.Transform.Aggregate.Schema.{apply_aggregate-HasColumns}
use potato_etl.Transform.Aggregate.Empty.{aggregate_all-empty}

abbrev orders : RecordBatch ℕ
orders = batch_of (
    (
      new_field (codes "region") DataType.utf8 true,
      record {
        data_type = DataType.utf8;
        cells = some (Scalar.text (codes "eu")) ∷ none ∷ some (Scalar.text (codes "eu")) ∷ [];
      },
    )
    ∷ (
      new_field (codes "price") DataType.float64 true,
      record {
        data_type = DataType.float64;
        cells = some (Scalar.float 5) ∷ some (Scalar.float 7) ∷ some (Scalar.float 10) ∷ [];
      },
    )
    ∷ [])

abbrev metrics : List (Text × Text)
metrics = (codes "total", codes "sum(price)") ∷ (codes "orders", codes "count()") ∷ []

totals :
    apply_aggregate kernels (orders ∷ []) (codes "region" ∷ []) metrics
    ≡ ok (
        batch_of (
          (
            new_field (codes "region") DataType.utf8 true,
            record {
              data_type = DataType.utf8;
              cells = some (Scalar.text (codes "eu")) ∷ none ∷ [];
            },
          )
          ∷ (
            new_field (codes "total") DataType.float64 false,
            record {
              data_type = DataType.float64;
              cells = some (Scalar.float 15) ∷ some (Scalar.float 7) ∷ [];
            },
          )
          ∷ (
            new_field (codes "orders") DataType.int64 false,
            record {
              data_type = DataType.int64;
              cells = some (Scalar.int (pos 2)) ∷ some (Scalar.int (pos 1)) ∷ [];
            },
          )
          ∷ []))
unfolding apply_aggregate
totals = refl

abbrev no_orders : RecordBatch ℕ
no_orders = batch_of (
    (
      new_field (codes "region") DataType.utf8 true,
      record { data_type = DataType.utf8; cells = [] },
    )
    ∷ [])

apply_aggregate-HasColumns_example :
    Ensures
      (HasColumns (codes "region" ∷ names_of metrics))
      (apply_aggregate kernels (orders ∷ []) (codes "region" ∷ []) metrics)
apply_aggregate-HasColumns_example =
    apply_aggregate-HasColumns kernels (orders ∷ []) (codes "region" ∷ []) metrics

aggregate_all-empty_example :
    aggregate_all kernels no_orders (codes "region" ∷ []) [] ≡ err AggError.empty_input
unfolding key_texts collect_ok
aggregate_all-empty_example =
    aggregate_all-empty kernels no_orders (codes "region") [] [] ([] ∷ []) refl refl

abbrev amounts : List (Option ℤ)
amounts = some (pos 3) ∷ none ∷ some (negsuc 4) ∷ []

best_from_lem_example :
    ((m : ℤ)
      → best_from (best_int true) none amounts ≡ some m
      → All (Within true m) amounts × Occurs m amounts)
    × ((best_from (best_int true) none amounts ≡ none) ↔ All (λ v. v ≡ none) amounts)
best_from_lem_example = best_from_lem true amounts
