-- ===== src/Sink.antt =====
-- The configuration of a database sink and its builder methods (`SinkConfig` in
-- common/src/db/common/mod.rs). The identifier case, the DDL schema and the schema configuration, on
-- which the methods do not depend, are types of their own.
use potato_etl.Base.{Bool, false, Option, none, List, [], ◌∷◌, Text}
use potato_etl.Alignment.{MissingColumnBehavior, skip}
mod Settings
mod Tests

pub data TableMode : Type 0 where
  use_existing create_if_not_exists drop_and_replace : TableMode

pub data WriteStrategy : Type 0 where
  append insert_ignore upsert merge_delete truncate : WriteStrategy

pub data CreateTableMode : Type 0 where
  never if_not_exists replace : CreateTableMode

pub record SinkConfig (I : Type 0) (S : Type 0) (D : Type 0) : Type 0 where
  pub table : Text
  pub schema_name : Text
  pub table_mode : TableMode
  pub write_strategy : WriteStrategy
  pub table_prepared : Bool
  pub identifier_case : Option I
  pub ddl_schema : Option S
  pub database_schema_config : Option D
  pub missing_column_behavior : MissingColumnBehavior

-- A call of a builder method.
pub data BuilderCall : Type 0 where
  call_table call_schema : Text → BuilderCall
  call_use_existing call_create_if_not_exists call_drop_and_replace : BuilderCall
  call_create_mode : CreateTableMode → BuilderCall
  call_insert call_insert_ignore call_upsert call_merge_delete call_clear_and_insert : BuilderCall

module _ {I S D : Type 0} where
  unfoldable pub new_sink : Text → SinkConfig I S D
  new_sink default_schema = record {
    table = [];
    schema_name = default_schema;
    table_mode = use_existing;
    write_strategy = append;
    table_prepared = false;
    identifier_case = none;
    ddl_schema = none;
    database_schema_config = none;
    missing_column_behavior = skip;
  }

  unfoldable pub create_mode : SinkConfig I S D → CreateTableMode → SinkConfig I S D
  create_mode cfg never = cfg
  create_mode cfg if_not_exists = record cfg { table_mode = create_if_not_exists }
  create_mode cfg replace = record cfg { table_mode = drop_and_replace }

  unfoldable pub apply : SinkConfig I S D → BuilderCall → SinkConfig I S D
  unfolding create_mode
  apply cfg (call_table t) = record cfg { table = t }
  apply cfg (call_schema s) = record cfg { schema_name = s }
  apply cfg call_use_existing = record cfg { table_mode = use_existing }
  apply cfg call_create_if_not_exists = record cfg { table_mode = create_if_not_exists }
  apply cfg call_drop_and_replace = record cfg { table_mode = drop_and_replace }
  apply cfg (call_create_mode mode) = create_mode cfg mode
  apply cfg call_insert = record cfg { write_strategy = append }
  apply cfg call_insert_ignore = record cfg { write_strategy = insert_ignore }
  apply cfg call_upsert = record cfg { write_strategy = upsert }
  apply cfg call_merge_delete = record cfg { write_strategy = merge_delete }
  apply cfg call_clear_and_insert = record cfg { write_strategy = truncate }

  -- A chain of calls.
  unfoldable pub apply_all : SinkConfig I S D → List BuilderCall → SinkConfig I S D
  unfolding apply
  apply_all cfg [] = cfg
  apply_all cfg (c ∷ cs) = apply_all (apply cfg c) cs
