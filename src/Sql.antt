-- ===== src/Sql.antt =====
-- common/src/schema/ddl/mod.rs: the dialects of SQL, and how they quote identifiers.
use potato_etl.Base.{
  ℕ, ◌+◌, ◌-◌, Bool, true, false, not, ◌&&◌, ◌||◌, Option, none, some, List, [], ◌∷◌, ◌++◌, Text,
  codes, text_eq, contains, is_prefix, map, all, leb, if◌then◌else◌, ◌==◌,
}
use potato_etl.Unicode.{is_ascii_alphabetic, is_ascii_digit}
mod ColumnTypes
mod Names
mod Quoting
mod Tests

pub data SqlDialect : Type 0 where
  postgres mssql oracle mysql databricks : SqlDialect

unfoldable pub from_conn_str : Text → SqlDialect
unfolding is_prefix
from_conn_str s =
    if is_prefix (codes "postgresql://") s || is_prefix (codes "postgres://") s
    then SqlDialect.postgres
    else if is_prefix (codes "mssql://") s
    then SqlDialect.mssql
    else if is_prefix (codes "oracle://") s
    then SqlDialect.oracle
    else if is_prefix (codes "mysql://") s
        || is_prefix (codes "aurora://") s
        || is_prefix (codes "mariadb://") s
    then SqlDialect.mysql
    else if is_prefix (codes "databricks://") s
    then SqlDialect.databricks
    else SqlDialect.postgres

unfoldable pub quote_char : SqlDialect → ℕ
quote_char SqlDialect.mssql = b']'
quote_char SqlDialect.mysql = b'`'
quote_char _ = b'"'

-- `ident.replace(c, "cc")`
unfoldable pub doubled : ℕ → Text → Text
doubled c [] = []
doubled c (d ∷ s) = let rest = doubled c s in if d == c then c ∷ c ∷ rest else d ∷ rest

-- An identifier between an opening and a closing character, the latter doubled in it.
abbrev pub between : ℕ → ℕ → Text → Text
between left right ident = left ∷ doubled right ident ++ right ∷ []

unfoldable pub force_quote : SqlDialect → Text → Text
unfolding doubled
force_quote SqlDialect.mssql ident = between b'[' b']' ident
force_quote SqlDialect.mysql ident = between b'`' b'`' ident
force_quote _ ident = between b'"' b'"' ident

-- `backtick` of the drivers of MySQL and Databricks
unfoldable pub backtick : Text → Text
unfolding doubled
backtick s = between b'`' b'`' s

abbrev pub ascii_upper : ℕ → ℕ
ascii_upper c = if leb b'a' c && leb c b'z' then c - 32 else c

abbrev pub reserved_words : List Text
reserved_words =
    codes "ACCESS"
    ∷ codes "ADD"
    ∷ codes "ALL"
    ∷ codes "ALTER"
    ∷ codes "AND"
    ∷ codes "ANY"
    ∷ codes "AS"
    ∷ codes "ASC"
    ∷ codes "AUDIT"
    ∷ codes "BETWEEN"
    ∷ codes "BY"
    ∷ codes "CHAR"
    ∷ codes "CHECK"
    ∷ codes "CLUSTER"
    ∷ codes "COLUMN"
    ∷ codes "COMMENT"
    ∷ codes "COMPRESS"
    ∷ codes "CONNECT"
    ∷ codes "CREATE"
    ∷ codes "CURRENT"
    ∷ codes "DATE"
    ∷ codes "DECIMAL"
    ∷ codes "DEFAULT"
    ∷ codes "DELETE"
    ∷ codes "DESC"
    ∷ codes "DISTINCT"
    ∷ codes "DROP"
    ∷ codes "ELSE"
    ∷ codes "EXCLUSIVE"
    ∷ codes "EXISTS"
    ∷ codes "FILE"
    ∷ codes "FLOAT"
    ∷ codes "FOR"
    ∷ codes "FROM"
    ∷ codes "GRANT"
    ∷ codes "GROUP"
    ∷ codes "HAVING"
    ∷ codes "IDENTIFIED"
    ∷ codes "IMMEDIATE"
    ∷ codes "IN"
    ∷ codes "INCREMENT"
    ∷ codes "INDEX"
    ∷ codes "INITIAL"
    ∷ codes "INSERT"
    ∷ codes "INTEGER"
    ∷ codes "INTERSECT"
    ∷ codes "INTO"
    ∷ codes "IS"
    ∷ codes "LEVEL"
    ∷ codes "LIKE"
    ∷ codes "LOCK"
    ∷ codes "LONG"
    ∷ codes "MAXEXTENTS"
    ∷ codes "MINUS"
    ∷ codes "MLSLABEL"
    ∷ codes "MODE"
    ∷ codes "MODIFY"
    ∷ codes "NOAUDIT"
    ∷ codes "NOCOMPRESS"
    ∷ codes "NOT"
    ∷ codes "NOWAIT"
    ∷ codes "NULL"
    ∷ codes "NUMBER"
    ∷ codes "OF"
    ∷ codes "OFFLINE"
    ∷ codes "ON"
    ∷ codes "ONLINE"
    ∷ codes "OPTION"
    ∷ codes "OR"
    ∷ codes "ORDER"
    ∷ codes "PCTFREE"
    ∷ codes "PRIOR"
    ∷ codes "PUBLIC"
    ∷ codes "RAW"
    ∷ codes "RENAME"
    ∷ codes "RESOURCE"
    ∷ codes "REVOKE"
    ∷ codes "ROW"
    ∷ codes "ROWID"
    ∷ codes "ROWNUM"
    ∷ codes "ROWS"
    ∷ codes "SELECT"
    ∷ codes "SESSION"
    ∷ codes "SET"
    ∷ codes "SHARE"
    ∷ codes "SIZE"
    ∷ codes "SMALLINT"
    ∷ codes "START"
    ∷ codes "SUCCESSFUL"
    ∷ codes "SYNONYM"
    ∷ codes "SYSDATE"
    ∷ codes "TABLE"
    ∷ codes "THEN"
    ∷ codes "TO"
    ∷ codes "TRIGGER"
    ∷ codes "UID"
    ∷ codes "UNION"
    ∷ codes "UNIQUE"
    ∷ codes "UPDATE"
    ∷ codes "USER"
    ∷ codes "VALIDATE"
    ∷ codes "VALUES"
    ∷ codes "VARCHAR"
    ∷ codes "VARCHAR2"
    ∷ codes "VIEW"
    ∷ codes "WHENEVER"
    ∷ codes "WHERE"
    ∷ codes "WITH"
    ∷ []

unfoldable pub oracle_is_reserved : Text → Bool
unfolding contains
oracle_is_reserved ident = contains (map ascii_upper ident) reserved_words

-- A letter or an underscore, and the characters that may follow it.
abbrev pub starts_simple : ℕ → Bool
starts_simple c = is_ascii_alphabetic c || (c == b'_')

abbrev pub is_simple : ℕ → Bool
is_simple c = is_ascii_alphabetic c || is_ascii_digit c || (c == b'_') || (c == b'#') || (c == b'$')

unfoldable pub oracle_smart_quote : Text → Text
unfolding doubled oracle_is_reserved
oracle_smart_quote [] = b'"' ∷ b'"' ∷ []
oracle_smart_quote (first ∷ rest) =
    if not (starts_simple first)
    then between b'"' b'"' (first ∷ rest)
    else if not (all is_simple rest)
    then between b'"' b'"' (first ∷ rest)
    else if oracle_is_reserved (first ∷ rest)
    then between b'"' b'"' (first ∷ rest)
    else first ∷ rest

unfoldable pub quote : SqlDialect → Text → Text
unfolding doubled oracle_smart_quote
quote SqlDialect.mssql ident = between b'[' b']' ident
quote SqlDialect.mysql ident = between b'`' b'`' ident
quote SqlDialect.oracle ident = oracle_smart_quote ident
quote _ ident = between b'"' b'"' ident
