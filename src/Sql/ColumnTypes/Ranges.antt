-- ===== src/Sql/ColumnTypes/Ranges.antt =====
-- common/src/schema/ddl/dialect.rs: which integers of Arrow a column of the chosen type can hold.
use potato_etl.Base.{
  ℕ, ◌-◌, ◌^◌, ◌≡◌, refl, Bool, true, false, not, ◌&&◌, Option, none, some, List, [], ◌∷◌, Text,
  codes, get,
}
use potato_etl.Base.Int.{ℤ, pos, negsuc, leb_int}
use potato_etl.Arrow.Types.{DataType}
use potato_etl.Sql.{SqlDialect}
use potato_etl.Sql.ColumnTypes.{arrow_type_to_sql_dialect}

-- The least and the greatest value of w bits with a sign and without, and of p decimal digits with a sign.
abbrev pub signed : ℕ → ℤ × ℤ
signed w = (negsuc (2 ^ (w - 1) - 1), pos (2 ^ (w - 1) - 1))

abbrev pub unsigned : ℕ → ℤ × ℤ
unsigned w = (pos 0, pos (2 ^ w - 1))

abbrev pub digits : ℕ → ℤ × ℤ
digits p = (negsuc (10 ^ p - 2), pos (10 ^ p - 1))

-- The range of an integer type of Arrow.
unfoldable pub int_range : DataType → Option (ℤ × ℤ)
int_range DataType.int8 = some (signed 8)
int_range DataType.int16 = some (signed 16)
int_range DataType.int32 = some (signed 32)
int_range DataType.int64 = some (signed 64)
int_range DataType.uint8 = some (unsigned 8)
int_range DataType.uint16 = some (unsigned 16)
int_range DataType.uint32 = some (unsigned 32)
int_range DataType.uint64 = some (unsigned 64)
int_range _ = none

-- The integer types of a dialect, with the ranges that its manual gives them.
abbrev pub column_ranges : SqlDialect → List (Text × (ℤ × ℤ))
column_ranges SqlDialect.postgres =
    (codes "SMALLINT", signed 16) ∷ (codes "INTEGER", signed 32) ∷ (codes "BIGINT", signed 64) ∷ []
column_ranges SqlDialect.mssql =
    (codes "TINYINT", unsigned 8)
    ∷ (codes "SMALLINT", signed 16)
    ∷ (codes "INT", signed 32)
    ∷ (codes "BIGINT", signed 64)
    ∷ (codes "DECIMAL(20,0)", digits 20)
    ∷ []
column_ranges SqlDialect.oracle =
    (codes "NUMBER(3)", digits 3)
    ∷ (codes "NUMBER(5)", digits 5)
    ∷ (codes "NUMBER(10)", digits 10)
    ∷ (codes "NUMBER(19)", digits 19)
    ∷ (codes "NUMBER(20)", digits 20)
    ∷ []
column_ranges SqlDialect.mysql =
    (codes "TINYINT", signed 8)
    ∷ (codes "TINYINT UNSIGNED", unsigned 8)
    ∷ (codes "SMALLINT", signed 16)
    ∷ (codes "SMALLINT UNSIGNED", unsigned 16)
    ∷ (codes "INT", signed 32)
    ∷ (codes "INT UNSIGNED", unsigned 32)
    ∷ (codes "BIGINT", signed 64)
    ∷ (codes "BIGINT UNSIGNED", unsigned 64)
    ∷ []
column_ranges SqlDialect.databricks =
    (codes "TINYINT", signed 8)
    ∷ (codes "SMALLINT", signed 16)
    ∷ (codes "INT", signed 32)
    ∷ (codes "BIGINT", signed 64)
    ∷ []

unfoldable pub encloses : Option (ℤ × ℤ) → ℤ × ℤ → Bool
encloses none (low, high) = false
encloses (some (least, greatest)) (low, high) = leb_int least low && leb_int high greatest

-- Whether the column of a type can hold all of its integers.
unfoldable pub holds_all : SqlDialect → DataType → Bool
unfolding int_range encloses get arrow_type_to_sql_dialect
holds_all d t = go (int_range t)
  where
    go : Option (ℤ × ℤ) → Bool
    go none = true
    go (some range) = encloses (get (arrow_type_to_sql_dialect t d) (column_ranges d)) range

-- The types whose columns are too narrow.
unfoldable pub is_narrow : DataType → SqlDialect → Bool
is_narrow DataType.uint16 SqlDialect.postgres = true
is_narrow DataType.uint32 SqlDialect.postgres = true
is_narrow DataType.uint64 SqlDialect.postgres = true
is_narrow DataType.uint64 SqlDialect.databricks = true
is_narrow _ _ = false

holds_all-int8 : (d : SqlDialect) → holds_all d DataType.int8 ≡ not (is_narrow DataType.int8 d)
unfolding holds_all is_narrow
holds_all-int8 SqlDialect.postgres = refl
holds_all-int8 SqlDialect.mssql = refl
holds_all-int8 SqlDialect.oracle = refl
holds_all-int8 SqlDialect.mysql = refl
holds_all-int8 SqlDialect.databricks = refl

holds_all-int16 : (d : SqlDialect) → holds_all d DataType.int16 ≡ not (is_narrow DataType.int16 d)
unfolding holds_all is_narrow
holds_all-int16 SqlDialect.postgres = refl
holds_all-int16 SqlDialect.mssql = refl
holds_all-int16 SqlDialect.oracle = refl
holds_all-int16 SqlDialect.mysql = refl
holds_all-int16 SqlDialect.databricks = refl

holds_all-int32 : (d : SqlDialect) → holds_all d DataType.int32 ≡ not (is_narrow DataType.int32 d)
unfolding holds_all is_narrow
holds_all-int32 SqlDialect.postgres = refl
holds_all-int32 SqlDialect.mssql = refl
holds_all-int32 SqlDialect.oracle = refl
holds_all-int32 SqlDialect.mysql = refl
holds_all-int32 SqlDialect.databricks = refl

holds_all-int64 : (d : SqlDialect) → holds_all d DataType.int64 ≡ not (is_narrow DataType.int64 d)
unfolding holds_all is_narrow
holds_all-int64 SqlDialect.postgres = refl
holds_all-int64 SqlDialect.mssql = refl
holds_all-int64 SqlDialect.oracle = refl
holds_all-int64 SqlDialect.mysql = refl
holds_all-int64 SqlDialect.databricks = refl

holds_all-uint8 : (d : SqlDialect) → holds_all d DataType.uint8 ≡ not (is_narrow DataType.uint8 d)
unfolding holds_all is_narrow
holds_all-uint8 SqlDialect.postgres = refl
holds_all-uint8 SqlDialect.mssql = refl
holds_all-uint8 SqlDialect.oracle = refl
holds_all-uint8 SqlDialect.mysql = refl
holds_all-uint8 SqlDialect.databricks = refl

holds_all-uint16 :
    (d : SqlDialect) → holds_all d DataType.uint16 ≡ not (is_narrow DataType.uint16 d)
unfolding holds_all is_narrow
holds_all-uint16 SqlDialect.postgres = refl
holds_all-uint16 SqlDialect.mssql = refl
holds_all-uint16 SqlDialect.oracle = refl
holds_all-uint16 SqlDialect.mysql = refl
holds_all-uint16 SqlDialect.databricks = refl

holds_all-uint32 :
    (d : SqlDialect) → holds_all d DataType.uint32 ≡ not (is_narrow DataType.uint32 d)
unfolding holds_all is_narrow
holds_all-uint32 SqlDialect.postgres = refl
holds_all-uint32 SqlDialect.mssql = refl
holds_all-uint32 SqlDialect.oracle = refl
holds_all-uint32 SqlDialect.mysql = refl
holds_all-uint32 SqlDialect.databricks = refl

holds_all-uint64 :
    (d : SqlDialect) → holds_all d DataType.uint64 ≡ not (is_narrow DataType.uint64 d)
unfolding holds_all is_narrow
holds_all-uint64 SqlDialect.postgres = refl
holds_all-uint64 SqlDialect.mssql = refl
holds_all-uint64 SqlDialect.oracle = refl
holds_all-uint64 SqlDialect.mysql = refl
holds_all-uint64 SqlDialect.databricks = refl

-- For every dialect, the column that is chosen for an integer type of Arrow holds each of its values, except that
-- of UInt16, UInt32 and UInt64 in Postgres and of UInt64 in Databricks, which do not. Of the other types nothing
-- is said.
pub holds_all-narrow : (d : SqlDialect) (t : DataType) → holds_all d t ≡ not (is_narrow t d)
unfolding holds_all is_narrow
holds_all-narrow d DataType.int8 = holds_all-int8 d
holds_all-narrow d DataType.int16 = holds_all-int16 d
holds_all-narrow d DataType.int32 = holds_all-int32 d
holds_all-narrow d DataType.int64 = holds_all-int64 d
holds_all-narrow d DataType.uint8 = holds_all-uint8 d
holds_all-narrow d DataType.uint16 = holds_all-uint16 d
holds_all-narrow d DataType.uint32 = holds_all-uint32 d
holds_all-narrow d DataType.uint64 = holds_all-uint64 d
holds_all-narrow d _ = refl
