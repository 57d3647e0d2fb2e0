-- ===== src/Transform/Metrics.antt =====
-- common/src/transform/aggregate.rs: the values that the metrics of a group are made of.
use potato_etl.Base.{
  ℕ, zero, suc, ◌+◌, Bool, true, false, not, Option, none, some, List, [], ◌∷◌, ◌++◌, Text, map,
  length, get_elem?, ◌⊎◌, inl, inr, if◌then◌else◌, ◌>>=◌, Result, ok, err, out_of_fuel, then_ok,
  ok_or, text_eq, filter,
}
use potato_etl.Base.Int.{ℤ, pos, leb_int, wrap_i64}
use potato_etl.Arrow.{Scalar, Array, Field, RecordBatch, DataType, TimeUnit, Kernels}
use potato_etl.Expr.Arrays.{
  float64_array, string_array, int64_array, as_float, as_int, as_text, downcast,
}
use potato_etl.Expr.Operators.{zip_with, text_lt}
use potato_etl.Expr.Functions.{by_rows, collect_ok, valid}
use potato_etl.Expr.Eval.{find_column}
use potato_etl.Transform.Grouping.{
  AggFunc, Metric, MetricError, parse_metric, KeyPart, GroupKey, key_part, group_rows,
}
pub mod Best

pub data AggError : Type 0 where
  metric : MetricError → AggError
  column_not_found argument_required arrow : Text → AggError
  downcast_failed index_out_of_bounds empty_input : AggError

abbrev pub lift_agg {ℓ} : {A : Type ℓ} → Text ⊎ A → Result AggError A
lift_agg (inl e) = err (AggError.arrow e)
lift_agg (inr a) = ok a

abbrev pub lift_metric {ℓ} : {A : Type ℓ} → Result MetricError A → Result AggError A
lift_metric (ok a) = ok a
lift_metric (err e) = err (AggError.metric e)
lift_metric out_of_fuel = out_of_fuel

-- The values at the rows; an index out of bounds panics.
unfoldable pub rows_at : {A : Type 0} → List ℕ → List A → Result AggError (List A)
rows_at [] values = ok []
rows_at (i ∷ row_idx) values =
    then_ok (ok_or AggError.index_out_of_bounds (get_elem? values i))
      λ v. then_ok (rows_at row_idx values) λ rest. ok (v ∷ rest)

-- The fold of the values that are not NULL, from the first one of them on.
unfoldable pub best_from : {A : Type 0} → (A → A → A) → Option A → List (Option A) → Option A
best_from f best [] = best
best_from f best (none ∷ values) = best_from f best values
best_from f none (some v ∷ values) = best_from f (some v) values
best_from f (some cur) (some v ∷ values) = best_from f (some (f cur v)) values

abbrev pub best_int : Bool → ℤ → ℤ → ℤ
best_int true cur v = if leb_int cur v then v else cur
best_int false cur v = if leb_int cur v then cur else v

abbrev pub best_text : Bool → Text → Text → Text
best_text true cur v = if text_lt cur v then v else cur
best_text false cur v = if text_lt v cur then v else cur

unfoldable pub is_numeric : DataType → Bool
is_numeric DataType.int8 = true
is_numeric DataType.int16 = true
is_numeric DataType.int32 = true
is_numeric DataType.uint8 = true
is_numeric DataType.uint16 = true
is_numeric DataType.uint32 = true
is_numeric DataType.uint64 = true
is_numeric DataType.float32 = true
is_numeric DataType.float64 = true
is_numeric DataType.date32 = true
is_numeric DataType.date64 = true
is_numeric (DataType.timestamp unit tz) = true
is_numeric (DataType.time32 unit) = true
is_numeric (DataType.time64 unit) = true
is_numeric (DataType.duration unit) = true
is_numeric _ = false

unfoldable pub valid_values : {A : Type 0} → List (Option A) → List A
valid_values [] = []
valid_values (none ∷ values) = valid_values values
valid_values (some v ∷ values) = v ∷ valid_values values

-- The first of the rows that is not NULL.
unfoldable pub find_valid : {A : Type 0} → List ℕ → List (Option A) → Result AggError (Option A)
find_valid [] cells = ok none
find_valid (i ∷ row_idx) cells = elim (get_elem? cells i) [
  | none ↦ err AggError.index_out_of_bounds
  | some none ↦ find_valid row_idx cells
  | some (some v) ↦ ok (some v)
]

abbrev pub value_of {ℓ} : {A B : Type ℓ} → A ⊎ B → Option B
value_of (inl a) = none
value_of (inr b) = some b

unfoldable pub indices_below : ℕ → List ℕ
indices_below zero = []
indices_below (suc n) = indices_below n ++ n ∷ []

module _ {F : Type 0} (k : Kernels F) where
  unfoldable pub sum_floats : F → List F → F
  sum_floats acc [] = acc
  sum_floats acc (x ∷ xs) = sum_floats (k.floats.add acc x) xs

  abbrev pub best_float : Bool → F → F → F
  best_float true = k.floats.max
  best_float false = k.floats.min

  unfoldable pub get_col : RecordBatch F → Text → Result AggError (Array F)
  unfolding text_eq find_column
  get_col batch col =
      ok_or (AggError.column_not_found col) (find_column (text_eq col) batch.columns)

  unfoldable pub get_col_float : RecordBatch F → Text → List ℕ → Result AggError (List (Option F))
  unfolding get_col rows_at downcast
  get_col_float batch col row_idx = then_ok (get_col batch col) λ arr.
      then_ok (lift_agg (k.cast arr DataType.float64))
        λ b. then_ok (ok_or AggError.downcast_failed (downcast as_float b.cells)) (rows_at row_idx)

  -- The floats of the array, none if the cast fails.
  abbrev pub floats_of : Array F → Option (List (Option F))
  floats_of arr =
      value_of (k.cast arr DataType.float64) >>= λ (b : Array F). downcast as_float b.cells

  abbrev pub cast_back : Array F → DataType → Array F
  cast_back a t = elim (k.cast a t) [ inl e ↦ a | inr b ↦ b ]

  unfoldable pub best_of_texts : Array F → List ℕ → Bool → Result AggError (Array F × DataType)
  unfolding rows_at best_from text_lt downcast
  best_of_texts arr row_idx want_max = then_ok (lift_agg (k.cast arr DataType.utf8)) λ b.
      then_ok (ok_or AggError.downcast_failed (downcast as_text b.cells)) λ texts.
        then_ok (rows_at row_idx texts) λ values.
          ok (string_array (best_from (best_text want_max) none values ∷ []), DataType.utf8)

  unfoldable pub best_of_numbers : Array F → List ℕ → Bool → Result AggError (Array F × DataType)
  unfolding rows_at best_from best_of_texts is_numeric
  best_of_numbers arr row_idx want_max =
      elim (if is_numeric arr.data_type then floats_of arr else none) [
        | none ↦ best_of_texts arr row_idx want_max
        | some floats ↦ then_ok (rows_at row_idx floats) λ values. ok (
          cast_back (float64_array (best_from (best_float want_max) none values ∷ []))
              arr.data_type,
          arr.data_type,
        )
      ]

  -- The values of an `Int64Array`.
  abbrev pub int64_values : DataType → Array F → Option (List (Option ℤ))
  int64_values DataType.int64 arr = downcast as_int arr.cells
  int64_values _ arr = none

  unfoldable pub agg_min_max : Array F → List ℕ → Bool → Result AggError (Array F × DataType)
  unfolding rows_at best_from best_of_numbers
  agg_min_max arr row_idx want_max = elim (int64_values arr.data_type arr) [
    | none ↦ best_of_numbers arr row_idx want_max
    | some ints ↦
        then_ok (rows_at row_idx ints) λ values.
          ok (int64_array (best_from (best_int want_max) none values ∷ []), DataType.int64)
  ]
