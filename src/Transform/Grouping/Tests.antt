-- ===== src/Transform/Grouping/Tests.antt =====
-- Metrics, and the groups of a few rows.
use potato_etl.Base.{◌≡◌, refl, none, some, List, [], ◌∷◌, codes, ok, err}
use potato_etl.Arrow.Sample.{strings}
use potato_etl.Transform.Grouping.{
  AggFunc, MetricError, parse_metric, KeyPart, GroupKey, group_rows,
}
use potato_etl.Transform.Grouping.Rows.{
  keys_of, rows_of, positions, first_occurrences, group_rows_lem,
}

abbrev no_value : GroupKey
no_value = KeyPart.null ∷ []

abbrev empty_text : GroupKey
empty_text = KeyPart.value [] ∷ []

-- NULL and the empty text are different keys.
abbrev row_keys : List GroupKey
row_keys = no_value ∷ empty_text ∷ no_value ∷ []

groups_of_rows : group_rows row_keys ≡ (no_value, 0 ∷ 2 ∷ []) ∷ (empty_text, 1 ∷ []) ∷ []
unfolding group_rows
groups_of_rows = refl

counted :
    parse_metric strings (codes "n") (codes "count()")
    ≡ ok (record { output_col = codes "n"; func = AggFunc.count; arg = none })
unfolding parse_metric
counted = refl

summed :
    parse_metric strings (codes "total") (codes "sum(price)")
    ≡ ok (record { output_col = codes "total"; func = AggFunc.sum; arg = some (codes "price") })
unfolding parse_metric
summed = refl

-- The slice between the parentheses is out of bounds.
reversed_parentheses :
    parse_metric strings (codes "n") (codes "sum)(") ≡ err MetricError.slice_out_of_bounds
unfolding parse_metric
reversed_parentheses = refl

group_rows_lem_example :
    (keys_of (group_rows row_keys) ≡ first_occurrences [] row_keys)
    × ((key : GroupKey) → rows_of key (group_rows row_keys) ≡ positions key 0 row_keys)
group_rows_lem_example = group_rows_lem row_keys
