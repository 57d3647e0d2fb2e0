-- ===== src/Transform/Columns/Tests.antt =====
-- Renaming on a small batch, and the theorems at it.
use potato_etl.Base.{refl, ℕ, true, none, some, List, [], ◌∷◌, Text, codes}
use potato_etl.Base.Int.{pos}
use potato_etl.Arrow.{Array, Scalar, DataType, Field, RecordBatch}
use potato_etl.Arrow.Sample.{kernels, batch_of}
use potato_etl.Arrow.TypeNames.{apply_normalize_columns}
use potato_etl.Transform.Columns.{apply_rename}
use potato_etl.Transform.Columns.Names.{
  Renamed, RenamedBy, IsNewName, apply_rename-Renamed, apply_normalize_columns-Renamed,
}

abbrev ids : Field × Array ℕ
ids = (
  record {
    name = codes "Id";
    data_type = DataType.int64;
    nullable = true;
    metadata = (codes "etl.db_type", codes "INT") ∷ [];
  },
  record { data_type = DataType.int64; cells = some (Scalar.int (pos 5)) ∷ none ∷ [] },
)

abbrev batch : RecordBatch ℕ
batch = batch_of (ids ∷ [])

abbrev renamed : List (Text × Text)
renamed = (codes "ID", codes "key") ∷ (codes "absent", codes "other") ∷ []

abbrev out_batch : Text → RecordBatch ℕ
out_batch name = batch_of (
    (
      record {
        name = name;
        data_type = DataType.int64;
        nullable = true;
        metadata = (codes "etl.db_type", codes "INT") ∷ [];
      },
      record { data_type = DataType.int64; cells = some (Scalar.int (pos 5)) ∷ none ∷ [] },
    )
    ∷ [])

apply_rename-Renamed_example :
    RenamedBy
      (IsNewName kernels.strings.unicode.to_lowercase renamed)
      batch.columns
      (out_batch (codes "key")).columns
unfolding apply_rename
apply_rename-Renamed_example =
    apply_rename-Renamed kernels batch (out_batch (codes "key")) renamed refl

apply_normalize_columns-Renamed_example :
    Renamed kernels.strings.unicode.to_lowercase batch.columns (out_batch (codes "id")).columns
unfolding apply_normalize_columns
apply_normalize_columns-Renamed_example =
    apply_normalize_columns-Renamed kernels batch (out_batch (codes "id")) refl
