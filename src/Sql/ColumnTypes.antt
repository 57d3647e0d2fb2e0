-- ===== src/Sql/ColumnTypes.antt =====
-- common/src/schema/ddl/dialect.rs: the column types that the dialects have for the types of Arrow.
use potato_etl.Base.{
  ℕ, zero, suc, ◌+◌, Option, none, some, [], ◌∷◌, ◌++◌, Text, codes, leb, if◌then◌else◌, ◌==◌, ◌/◌,
  ◌%◌,
}
use potato_etl.Base.Int.{ℤ, pos, negsuc}
use potato_etl.Arrow.Types.{DataType}
use potato_etl.Sql.{SqlDialect}
mod Ranges
mod Tests

-- A `u8` in decimal digits.
unfoldable pub print_u8 : ℕ → Text
print_u8 n =
    let units = (b'0' + n % 10) ∷ [] in
    if leb 100 n
    then (b'0' + n / 100) ∷ (b'0' + n / 10 % 10) ∷ units
    else if leb 10 n
    then (b'0' + n / 10) ∷ units
    else units

-- A name with a precision and a positive scale, or with a precision and what follows it.
unfoldable pub decimal_type : Text → Text → ℕ → ℤ → Text
unfolding print_u8
decimal_type name unscaled p (pos zero) = name ++ codes "(" ++ print_u8 p ++ unscaled
decimal_type name unscaled p (pos (suc s)) =
    name ++ codes "(" ++ print_u8 p ++ codes "," ++ print_u8 (suc s) ++ codes ")"
decimal_type name unscaled p (negsuc s) = name ++ codes "(" ++ print_u8 p ++ unscaled

unfoldable pub arrow_to_sql_pg : DataType → Text
unfolding decimal_type
arrow_to_sql_pg DataType.boolean = codes "BOOLEAN"
arrow_to_sql_pg DataType.int8 = codes "SMALLINT"
arrow_to_sql_pg DataType.int16 = codes "SMALLINT"
arrow_to_sql_pg DataType.int32 = codes "INTEGER"
arrow_to_sql_pg DataType.int64 = codes "BIGINT"
arrow_to_sql_pg DataType.uint8 = codes "SMALLINT"
arrow_to_sql_pg DataType.uint16 = codes "SMALLINT"
arrow_to_sql_pg DataType.uint32 = codes "INTEGER"
arrow_to_sql_pg DataType.uint64 = codes "BIGINT"
arrow_to_sql_pg DataType.float32 = codes "REAL"
arrow_to_sql_pg DataType.float64 = codes "DOUBLE PRECISION"
arrow_to_sql_pg DataType.utf8 = codes "TEXT"
arrow_to_sql_pg DataType.large_utf8 = codes "TEXT"
arrow_to_sql_pg DataType.date32 = codes "DATE"
arrow_to_sql_pg DataType.date64 = codes "DATE"
arrow_to_sql_pg (DataType.timestamp _ none) = codes "TIMESTAMP"
arrow_to_sql_pg (DataType.timestamp _ (some _)) = codes "TIMESTAMPTZ"
arrow_to_sql_pg (DataType.time32 _) = codes "TIME"
arrow_to_sql_pg (DataType.time64 _) = codes "TIME"
arrow_to_sql_pg (DataType.duration _) = codes "INTERVAL"
arrow_to_sql_pg (DataType.interval _) = codes "INTERVAL"
arrow_to_sql_pg DataType.binary = codes "BYTEA"
arrow_to_sql_pg DataType.large_binary = codes "BYTEA"
arrow_to_sql_pg (DataType.fixed_size_binary n) = if n == 16 then codes "UUID" else codes "BYTEA"
arrow_to_sql_pg (DataType.decimal128 p s) = decimal_type (codes "NUMERIC") (codes ")") p s
arrow_to_sql_pg (DataType.list _) = codes "JSONB"
arrow_to_sql_pg (DataType.large_list _) = codes "JSONB"
arrow_to_sql_pg (DataType.struct _) = codes "JSONB"
arrow_to_sql_pg (DataType.map_type _) = codes "JSONB"
arrow_to_sql_pg _ = codes "TEXT"

unfoldable pub arrow_to_sql_mssql : DataType → Text
unfolding decimal_type
arrow_to_sql_mssql DataType.boolean = codes "BIT"
arrow_to_sql_mssql DataType.int8 = codes "SMALLINT"
arrow_to_sql_mssql DataType.int16 = codes "SMALLINT"
arrow_to_sql_mssql DataType.int32 = codes "INT"
arrow_to_sql_mssql DataType.int64 = codes "BIGINT"
arrow_to_sql_mssql DataType.uint8 = codes "TINYINT"
arrow_to_sql_mssql DataType.uint16 = codes "INT"
arrow_to_sql_mssql DataType.uint32 = codes "BIGINT"
arrow_to_sql_mssql DataType.uint64 = codes "DECIMAL(20,0)"
arrow_to_sql_mssql DataType.float32 = codes "REAL"
arrow_to_sql_mssql DataType.float64 = codes "FLOAT"
arrow_to_sql_mssql DataType.utf8 = codes "NVARCHAR(MAX)"
arrow_to_sql_mssql DataType.large_utf8 = codes "NVARCHAR(MAX)"
arrow_to_sql_mssql DataType.date32 = codes "DATE"
arrow_to_sql_mssql DataType.date64 = codes "DATE"
arrow_to_sql_mssql (DataType.timestamp _ none) = codes "DATETIME2"
arrow_to_sql_mssql (DataType.timestamp _ (some _)) = codes "DATETIMEOFFSET"
arrow_to_sql_mssql (DataType.time32 _) = codes "TIME"
arrow_to_sql_mssql (DataType.time64 _) = codes "TIME"
arrow_to_sql_mssql DataType.binary = codes "VARBINARY(MAX)"
arrow_to_sql_mssql DataType.large_binary = codes "VARBINARY(MAX)"
arrow_to_sql_mssql (DataType.fixed_size_binary n) =
    if n == 16 then codes "UNIQUEIDENTIFIER" else codes "VARBINARY(MAX)"
arrow_to_sql_mssql (DataType.decimal128 p s) = decimal_type (codes "DECIMAL") (codes ",0)") p s
arrow_to_sql_mssql (DataType.list _) = codes "NVARCHAR(MAX)"
arrow_to_sql_mssql (DataType.large_list _) = codes "NVARCHAR(MAX)"
arrow_to_sql_mssql (DataType.struct _) = codes "NVARCHAR(MAX)"
arrow_to_sql_mssql (DataType.map_type _) = codes "NVARCHAR(MAX)"
arrow_to_sql_mssql _ = codes "NVARCHAR(MAX)"

unfoldable pub arrow_to_sql_oracle : DataType → Text
unfolding decimal_type
arrow_to_sql_oracle DataType.boolean = codes "NUMBER(1)"
arrow_to_sql_oracle DataType.int8 = codes "NUMBER(3)"
arrow_to_sql_oracle DataType.int16 = codes "NUMBER(5)"
arrow_to_sql_oracle DataType.int32 = codes "NUMBER(10)"
arrow_to_sql_oracle DataType.int64 = codes "NUMBER(19)"
arrow_to_sql_oracle DataType.uint8 = codes "NUMBER(3)"
arrow_to_sql_oracle DataType.uint16 = codes "NUMBER(5)"
arrow_to_sql_oracle DataType.uint32 = codes "NUMBER(10)"
arrow_to_sql_oracle DataType.uint64 = codes "NUMBER(20)"
arrow_to_sql_oracle DataType.float32 = codes "BINARY_FLOAT"
arrow_to_sql_oracle DataType.float64 = codes "BINARY_DOUBLE"
arrow_to_sql_oracle DataType.utf8 = codes "VARCHAR2(4000)"
arrow_to_sql_oracle DataType.large_utf8 = codes "VARCHAR2(4000)"
arrow_to_sql_oracle DataType.date32 = codes "DATE"
arrow_to_sql_oracle DataType.date64 = codes "DATE"
arrow_to_sql_oracle (DataType.timestamp _ none) = codes "TIMESTAMP"
arrow_to_sql_oracle (DataType.timestamp _ (some _)) = codes "TIMESTAMP WITH TIME ZONE"
arrow_to_sql_oracle (DataType.time32 _) = codes "INTERVAL DAY(1) TO SECOND(6)"
arrow_to_sql_oracle (DataType.time64 _) = codes "INTERVAL DAY(1) TO SECOND(6)"
arrow_to_sql_oracle (DataType.duration _) = codes "INTERVAL DAY(9) TO SECOND(6)"
arrow_to_sql_oracle (DataType.interval _) = codes "INTERVAL DAY(9) TO SECOND(6)"
arrow_to_sql_oracle DataType.binary = codes "BLOB"
arrow_to_sql_oracle DataType.large_binary = codes "BLOB"
arrow_to_sql_oracle (DataType.fixed_size_binary n) =
    if n == 16 then codes "RAW(16)" else codes "BLOB"
arrow_to_sql_oracle (DataType.decimal128 p s) = decimal_type (codes "NUMBER") (codes ")") p s
arrow_to_sql_oracle (DataType.list _) = codes "CLOB"
arrow_to_sql_oracle (DataType.large_list _) = codes "CLOB"
arrow_to_sql_oracle (DataType.struct _) = codes "CLOB"
arrow_to_sql_oracle (DataType.map_type _) = codes "CLOB"
arrow_to_sql_oracle _ = codes "VARCHAR2(4000)"

unfoldable pub arrow_to_sql_mysql : DataType → Text
unfolding decimal_type
arrow_to_sql_mysql DataType.boolean = codes "TINYINT(1)"
arrow_to_sql_mysql DataType.int8 = codes "TINYINT"
arrow_to_sql_mysql DataType.int16 = codes "SMALLINT"
arrow_to_sql_mysql DataType.int32 = codes "INT"
arrow_to_sql_mysql DataType.int64 = codes "BIGINT"
arrow_to_sql_mysql DataType.uint8 = codes "TINYINT UNSIGNED"
arrow_to_sql_mysql DataType.uint16 = codes "SMALLINT UNSIGNED"
arrow_to_sql_mysql DataType.uint32 = codes "INT UNSIGNED"
arrow_to_sql_mysql DataType.uint64 = codes "BIGINT UNSIGNED"
arrow_to_sql_mysql DataType.float32 = codes "FLOAT"
arrow_to_sql_mysql DataType.float64 = codes "DOUBLE"
arrow_to_sql_mysql DataType.utf8 = codes "TEXT"
arrow_to_sql_mysql DataType.large_utf8 = codes "TEXT"
arrow_to_sql_mysql DataType.date32 = codes "DATE"
arrow_to_sql_mysql DataType.date64 = codes "DATE"
arrow_to_sql_mysql (DataType.timestamp _ _) = codes "DATETIME(6)"
arrow_to_sql_mysql (DataType.time32 _) = codes "TIME(6)"
arrow_to_sql_mysql (DataType.time64 _) = codes "TIME(6)"
arrow_to_sql_mysql DataType.binary = codes "LONGBLOB"
arrow_to_sql_mysql DataType.large_binary = codes "LONGBLOB"
arrow_to_sql_mysql (DataType.fixed_size_binary n) =
    if n == 16 then codes "BINARY(16)" else codes "LONGBLOB"
arrow_to_sql_mysql (DataType.decimal128 p s) = decimal_type (codes "DECIMAL") (codes ",0)") p s
arrow_to_sql_mysql (DataType.list _) = codes "JSON"
arrow_to_sql_mysql (DataType.large_list _) = codes "JSON"
arrow_to_sql_mysql (DataType.struct _) = codes "JSON"
arrow_to_sql_mysql (DataType.map_type _) = codes "JSON"
arrow_to_sql_mysql _ = codes "TEXT"

unfoldable pub arrow_to_sql_databricks : DataType → Text
unfolding decimal_type
arrow_to_sql_databricks DataType.boolean = codes "BOOLEAN"
arrow_to_sql_databricks DataType.int8 = codes "TINYINT"
arrow_to_sql_databricks DataType.int16 = codes "SMALLINT"
arrow_to_sql_databricks DataType.int32 = codes "INT"
arrow_to_sql_databricks DataType.int64 = codes "BIGINT"
arrow_to_sql_databricks DataType.uint8 = codes "SMALLINT"
arrow_to_sql_databricks DataType.uint16 = codes "INT"
arrow_to_sql_databricks DataType.uint32 = codes "BIGINT"
arrow_to_sql_databricks DataType.uint64 = codes "BIGINT"
arrow_to_sql_databricks DataType.float32 = codes "FLOAT"
arrow_to_sql_databricks DataType.float64 = codes "DOUBLE"
arrow_to_sql_databricks DataType.utf8 = codes "STRING"
arrow_to_sql_databricks DataType.large_utf8 = codes "STRING"
arrow_to_sql_databricks DataType.date32 = codes "DATE"
arrow_to_sql_databricks DataType.date64 = codes "DATE"
arrow_to_sql_databricks (DataType.timestamp _ _) = codes "TIMESTAMP"
arrow_to_sql_databricks (DataType.time32 _) = codes "STRING"
arrow_to_sql_databricks (DataType.time64 _) = codes "STRING"
arrow_to_sql_databricks DataType.binary = codes "BINARY"
arrow_to_sql_databricks DataType.large_binary = codes "BINARY"
arrow_to_sql_databricks (DataType.fixed_size_binary n) = codes "BINARY"
arrow_to_sql_databricks (DataType.decimal128 p s) = decimal_type (codes "DECIMAL") (codes ",0)") p s
arrow_to_sql_databricks (DataType.list _) = codes "STRING"
arrow_to_sql_databricks (DataType.large_list _) = codes "STRING"
arrow_to_sql_databricks (DataType.struct _) = codes "STRING"
arrow_to_sql_databricks (DataType.map_type _) = codes "STRING"
arrow_to_sql_databricks _ = codes "STRING"

unfoldable pub arrow_type_to_sql_dialect : DataType → SqlDialect → Text
unfolding arrow_to_sql_pg arrow_to_sql_mssql arrow_to_sql_oracle arrow_to_sql_mysql
    arrow_to_sql_databricks
arrow_type_to_sql_dialect dt SqlDialect.postgres = arrow_to_sql_pg dt
arrow_type_to_sql_dialect dt SqlDialect.mssql = arrow_to_sql_mssql dt
arrow_type_to_sql_dialect dt SqlDialect.oracle = arrow_to_sql_oracle dt
arrow_type_to_sql_dialect dt SqlDialect.mysql = arrow_to_sql_mysql dt
arrow_type_to_sql_dialect dt SqlDialect.databricks = arrow_to_sql_databricks dt
