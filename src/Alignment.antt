-- ===== src/Alignment.antt =====
-- The alignment of a batch's columns with those of an existing table
-- (common/src/db/common/alignment.rs). A schema is the list of its field names; a batch is the list of
-- its fields with their arrays. `RecordBatch::try_new` is a parameter.
use potato_etl.Base.{
  ℕ, zero, suc, ◌+◌, ◌≡◌, Bool, true, false, not, ◌&&◌, ◌||◌, Option, none, some, List, [], ◌∷◌,
  Text, is_nil, map, length, get_elem?, filter, ◌>>=◌, if◌then◌else◌, ◌==◌, contains, get, insert,
  Result, ok, err, then_ok, ok_or,
}
use potato_etl.Unicode.{Unicode}
mod Mapping
mod Identity
mod Tests

pub record TargetColumn : Type 0 where
  pub name : Text
  pub data_type : Text
  pub nullable : Bool
  pub has_default : Bool

pub data MissingColumnBehavior : Type 0 where
  error skip : MissingColumnBehavior

pub record AlignedColumn : Type 0 where
  pub batch_index : ℕ
  pub target_name : Text
  pub target_type : Text
  pub target_ordinal : Option ℕ

pub record ColumnAlignment : Type 0 where
  pub mapping : List AlignedColumn
  pub dropped_columns : List Text
  pub missing_columns : List Text
  pub identity : Bool

-- `index_out_of_bounds` is the panic of `schema.field` and `batch.column`, `bad_batch` is an error of
-- `RecordBatch::try_new`.
pub data AlignmentError : Type 0 where
  no_columns index_out_of_bounds bad_batch : AlignmentError
  no_value rename_without_column : (name : Text) → AlignmentError

-- What the loop over the table's columns has gathered.
pub record Gathered : Type 0 where
  pub mapping : List AlignedColumn
  pub missing_columns : List Text
  pub needs_reorder : Bool

-- `Error if !tc.nullable && !tc.has_default`
unfoldable pub is_refused : MissingColumnBehavior → TargetColumn → Bool
is_refused error tc = not tc.nullable && not tc.has_default
is_refused skip tc = false

module _ (u : Unicode) where
  -- The `batch_names` map, from the field at the index `i` on: of fields that are equal up to case
  -- the last one counts.
  unfoldable pub batch_names : ℕ → List (Text × ℕ) → List Text → List (Text × ℕ)
  unfolding insert
  batch_names i names [] = names
  batch_names i names (field ∷ fields) =
      batch_names (suc i) (insert (u.to_lowercase field) i names) fields

  -- The loop over the table's columns, from the one at `tbl_idx` on.
  unfoldable pub map_targets :
      MissingColumnBehavior
      → List (Text × ℕ)
      → ℕ
      → List TargetColumn
      → Result AlignmentError Gathered
  unfolding get is_refused
  map_targets behavior names tbl_idx [] =
      ok (record { mapping = []; missing_columns = []; needs_reorder = false })
  map_targets behavior names tbl_idx (tc ∷ tcs) =
      let rest = map_targets behavior names (suc tbl_idx) tcs in
      elim (get (u.to_lowercase tc.name) names) [
        | some batch_idx ↦ then_ok rest λ g. ok (record {
          mapping =
              record {
                batch_index = batch_idx;
                target_name = tc.name;
                target_type = tc.data_type;
                target_ordinal = some (tbl_idx + 1);
              }
              ∷ g.mapping;
          missing_columns = g.missing_columns;
          needs_reorder = not (batch_idx == tbl_idx) || g.needs_reorder;
        })
        | none ↦
            if is_refused behavior tc
            then err (no_value tc.name)
            else then_ok rest λ g. ok (record {
              mapping = g.mapping;
              missing_columns = tc.name ∷ g.missing_columns;
              needs_reorder = g.needs_reorder;
            })
      ]

  -- The batch's fields that are no column of the table.
  unfoldable pub dropped_of : List Text → List TargetColumn → List Text
  unfolding filter contains
  dropped_of fields targets =
      let table_names = map (λ (tc : TargetColumn). u.to_lowercase tc.name) targets in
      filter (λ f. not (contains (u.to_lowercase f) table_names)) fields

  -- The first dropped column that is the target of a rename; without either there is none to find.
  unfoldable pub bad_rename : List Text → List Text → Option Text
  unfolding contains
  bad_rename rename_targets [] = none
  bad_rename rename_targets (c ∷ dropped) =
      let rest = bad_rename rename_targets dropped in
      if contains (u.to_lowercase c) (map u.to_lowercase rename_targets) then some c else rest

  unfoldable pub compute_alignment :
      List Text
      → List TargetColumn
      → MissingColumnBehavior
      → List Text
      → Result AlignmentError ColumnAlignment
  unfolding batch_names map_targets dropped_of bad_rename
  compute_alignment fields [] behavior rename_targets = err no_columns
  compute_alignment fields (tc ∷ tcs) behavior rename_targets =
      then_ok (map_targets behavior (batch_names 0 [] fields) 0 (tc ∷ tcs)) λ g.
        let dropped = dropped_of fields (tc ∷ tcs) in
        let identity =
          not g.needs_reorder
          && (is_nil dropped
              && (is_nil g.missing_columns && (length g.mapping == length fields))) in
        let done = ok (record {
          mapping = g.mapping;
          dropped_columns = dropped;
          missing_columns = g.missing_columns;
          identity = identity;
        }) in
        elim (bad_rename rename_targets dropped) [
          | none ↦ done
          | some bad ↦ err (rename_without_column bad)
        ]

-- The fields and arrays at the mapping's indices; `none` is an index out of bounds.
unfoldable pub select :
    {A : Type 0} → List (Text × A) → List AlignedColumn → Option (List (Text × A))
select columns [] = some []
select columns (ac ∷ mapping) = do
  column ← get_elem? columns ac.batch_index
  rest ← select columns mapping
  some (column ∷ rest)

unfoldable pub apply_alignment :
    {A : Type 0}
    → (List (Text × A) → Option (List (Text × A)))
    → List (Text × A)
    → ColumnAlignment
    → Result AlignmentError (List (Text × A))
unfolding select
apply_alignment try_new batch alignment =
    let aligned =
      then_ok (ok_or index_out_of_bounds (select batch alignment.mapping))
        λ columns. ok_or bad_batch (try_new columns) in
    if alignment.identity then ok batch else aligned
