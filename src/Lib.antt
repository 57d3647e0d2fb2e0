-- ===== src/Lib.antt =====
-- A verification library for potato-etl, an ETL engine in Rust: YAML or JSON pipelines of sources,
-- transforms and sinks over Arrow record batches.
--
-- What is modelled, by file:
-- - Expr/Syntax, Expr/Lexer and Expr/Parser: the expression language of the map, filter and
--   aggregate steps (common/src/transform/expr/tokens.rs and ast.rs). A text is a list of
--   characters, and a state of the tokenizer is what is left of it; a state of the parser is the
--   list of the tokens from `pos` on, of which `advance` never drops the last. Every function of
--   the parser has the name that it has in the source; the loops are functions of their own. The
--   recursion runs on fuel, which is one more than the length of the text or of the token list: a
--   round of the tokenizer reads a character, and a call that goes deeper in the grammar reads a
--   token. Floats are a type `F` with `parse_float` for `str::parse::<f64>`. Expr/Parser/Printer is
--   the independent description of the syntax that the parser is checked against.
-- - Expr/Arrays, Expr/Operators, Expr/Temporal, Expr/JsonPath, Expr/Functions, Expr/Calls and
--   Expr/Eval: the evaluator (common/src/transform/expr/eval.rs and helpers.rs). The thread-local
--   context is an argument, and a panic is an error of its own. The context also holds what the
--   clock shows at each of its readings: now() and utcnow() read it at every call, so a reading
--   belongs to the place of the call in the expression, and for a map step to the column and the
--   pass. Expr/Lengths and the children of Expr/Calls and Expr/Eval have the theorems.
-- - Arrow: arrays, record batches and JSON values, and the interface of the kernels of Arrow,
--   chrono, regex and serde_json, with the documented laws that the theorems use. Arrow/Sample
--   implements it for the tests. Arrow/TypeNames: the names of types and the lower-casing of
--   columns (common/src/util/schema.rs).
-- - Transform: the map, filter, rename and aggregate steps (common/src/transform/map.rs, filter.rs,
--   schema.rs and aggregate.rs; Grouping, Metrics and Aggregate are the last one; a rename step
--   runs apply_rename of common/src/schema/apply.rs, not that of transform/rename.rs, which is not
--   modelled), JSON objects and URL templates (objects.rs). The number of passes that are left is
--   an argument of the loop of map; the vector of the group keys and the hash map of their rows are
--   one list.
-- - Sql: the dialects of SQL and the quoting of identifiers (common/src/schema/ddl/mod.rs, and
--   backtick of drivers/mysql/src/util.rs), and the column types for the types of Arrow
--   (common/src/schema/ddl/dialect.rs). How a database reads names is a specification of
--   Sql/Quoting and Sql/Names. The DDL statements are not modelled.
-- - Scd2: the diff that decides which rows an SCD2 sink closes and inserts, the configuration of
--   these sinks, and the texts of a batch's cells (common/src/db/common/mod.rs,
--   common/src/db/mod.rs, common/src/util/arrow.rs). Scd2/Config has the builder methods. A batch
--   is its columns and its number of rows; a hash map is an association list. What a sink writes
--   for a decision, closing its keys and inserting its rows, is a specification of Scd2/Settled:
--   the SQL of the drivers is not modelled.
-- - Sink: the configuration of a database sink and its builder methods
--   (common/src/db/common/mod.rs, common/src/db/mod.rs, common/src/config/steps.rs).
-- - Alignment: the alignment of a batch's columns with those of an existing table
--   (common/src/db/common/alignment.rs), with the errors as values.
-- - Join: the hash map of a join, the pairs of row numbers that a left batch is joined by, and the
--   keys that a full join records as matched (common/src/transform/join.rs). A side is its keys.
--   Gathering the columns, which is Arrow's, and the unmatched right rows of a full join are not
--   modelled.
-- - Dag: the components of a pipeline, how they are added, and the check of their wiring
--   (runtime/src/dag/mod.rs). A panic of the index into the components is an error of its own.
-- - Thrift: the writer and the reader of the Thrift binary protocol, without `skip`
--   (drivers/databricks/src/thrift/protocol.rs). The integers of the `bytes` crate are an interface
--   with its laws; the tests have an instance of it.
-- - Secrets: references to secrets, secret::<provider>/<path>[#field] (common/src/secrets/refs.rs).
-- - Encoding: percent-encoding of connection URLs (common/src/config/encoding.rs). A text is its
--   bytes; `String::from_utf8` is a parameter.
-- - Unicode: the character tables of Rust's standard library, an interface with the laws on ASCII
--   that the code relies on.
-- - Base: shared names, results, lists and maps over the native numbers, texts.
-- Not modelled: flattening and unnesting of common/src/transform, type coercion, the DDL
-- statements, the resolution of secrets, and what is I/O: files, HTTP, drivers, transports, the
-- threads that run a pipeline, the command line and the Python binding.
pub mod Base
pub mod Unicode
pub mod Secrets
pub mod Encoding
pub mod Expr
pub mod Dag
pub mod Scd2
pub mod Alignment
pub mod Join
pub mod Sink
pub mod Thrift
pub mod Arrow
pub mod Transform
pub mod Sql
