-- ===== src/Transform/Columns.antt =====
-- common/src/schema/apply.rs (apply_rename), common/src/transform/{filter,schema}.rs and common/src/config/driver_options.rs: filtering by
-- a value, and renaming.
use potato_etl.Base.{
  Option, inr, if◌then◌else◌, none, some, List, [], ◌∷◌, Text, text_eq, map, get, ◌⊎◌, Result,
  then_ok, ok_or,
}
use potato_etl.Arrow.{Array, Field, RecordBatch, Strings, Kernels}
use potato_etl.Expr.Arrays.{EvalError, lift, map_option, to_string_array}
use potato_etl.Expr.Eval.{find_column}
pub mod Names
mod Tests

pub data IdentifierCase : Type 0 where
  as_is upper lower : IdentifierCase

unfoldable pub transform : Strings → IdentifierCase → Text → Text
transform t as_is ident = ident
transform t upper ident = t.to_uppercase ident
transform t lower ident = t.unicode.to_lowercase ident

-- The fields with other names, and the same arrays.
abbrev pub rename_fields :
    {F : Type 0} → (Text → Text) → List (Field × Array F) → List (Field × Array F)
rename_fields rename [] = []
rename_fields rename ((f, a) ∷ columns) =
    (record f { name = rename f.name }, a) ∷ rename_fields rename columns

-- The first entry for a column, up to case, which `fold` takes away.
unfoldable pub find_rename : (Text → Text) → List (Text × Text) → Text → Option Text
unfolding text_eq
find_rename fold [] name = none
find_rename fold ((old, new) ∷ columns) name =
    if text_eq (fold old) (fold name) then some new else find_rename fold columns name

-- The new name of a column, or its own.
unfoldable pub new_name : (Text → Text) → List (Text × Text) → Text → Text
unfolding find_rename
new_name fold columns name = elim (find_rename fold columns name) [ none ↦ name | some n ↦ n ]

module _ {F : Type 0} (k : Kernels F) where
  -- The `rename` step.
  unfoldable pub apply_rename : RecordBatch F → List (Text × Text) → Text ⊎ RecordBatch F
  unfolding new_name
  apply_rename batch [] = inr batch
  apply_rename batch (c ∷ columns) =
      k.try_new
        (rename_fields (new_name k.strings.unicode.to_lowercase (c ∷ columns)) batch.columns)

  unfoldable pub apply_rename_all : RecordBatch F → IdentifierCase → Text ⊎ RecordBatch F
  unfolding transform
  apply_rename_all batch case = k.try_new (rename_fields (transform k.strings case) batch.columns)

  -- The rows whose value in the column, as a text, is the value.
  unfoldable pub apply_filter : RecordBatch F → Text → Text → Result (EvalError F) (RecordBatch F)
  unfolding text_eq find_column to_string_array
  apply_filter batch col value =
      then_ok (ok_or (EvalError.column_not_found col) (find_column (text_eq col) batch.columns))
        λ a. then_ok (to_string_array k a) λ texts.
          lift
            (k.filter_record_batch batch (map (map_option (λ (s : Text). text_eq s value)) texts))
