-- ===== src/Sql/ColumnTypes/Tests.antt =====
-- Column types of a few types of Arrow, and the theorem at one.
use potato_etl.Base.{◌≡◌, refl, not, some, codes}
use potato_etl.Base.Int.{pos, negsuc}
use potato_etl.Arrow.Types.{DataType, TimeUnit}
use potato_etl.Sql.{SqlDialect}
use potato_etl.Sql.ColumnTypes.{arrow_type_to_sql_dialect}
use potato_etl.Sql.ColumnTypes.Ranges.{holds_all, is_narrow, holds_all-narrow}

uuid : arrow_type_to_sql_dialect (DataType.fixed_size_binary 16) SqlDialect.postgres ≡ codes "UUID"
unfolding arrow_type_to_sql_dialect
uuid = refl

scaled :
    arrow_type_to_sql_dialect (DataType.decimal128 38 (pos 10)) SqlDialect.oracle
    ≡ codes "NUMBER(38,10)"
unfolding arrow_type_to_sql_dialect
scaled = refl

unscaled :
    arrow_type_to_sql_dialect (DataType.decimal128 9 (negsuc 1)) SqlDialect.mysql
    ≡ codes "DECIMAL(9,0)"
unfolding arrow_type_to_sql_dialect
unscaled = refl

zoned :
    arrow_type_to_sql_dialect
      (DataType.timestamp TimeUnit.second (some (codes "UTC")))
      SqlDialect.mssql
    ≡ codes "DATETIMEOFFSET"
unfolding arrow_type_to_sql_dialect
zoned = refl

holds_all-narrow_example :
    holds_all SqlDialect.mssql DataType.uint64 ≡ not (is_narrow DataType.uint64 SqlDialect.mssql)
holds_all-narrow_example = holds_all-narrow SqlDialect.mssql DataType.uint64
