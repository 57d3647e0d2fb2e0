-- ===== src/Scd2/Config.antt =====
-- The builder methods of `Scd2Config` (common/src/db/common/mod.rs).
use potato_etl.Base.{ℕ, ◌≤◌, max, Bool, false, List, [], ◌∷◌, Text, codes, arith}
use potato_etl.Scd2.{Scd2Config, Scd2ColumnNames, default_column_names}

unfoldable pub new : Text → Scd2Config
new default_schema = record {
  table = [];
  schema_name = default_schema;
  key_col = codes "id";
  tracked_cols = [];
  col_names = default_column_names;
  close_missing = false;
  chunk_size = 1000;
}

-- A call of a builder method.
pub data Call : Type 0 where
  table schema key : Text → Call
  track : List Text → Call
  col_names : Scd2ColumnNames → Call
  close_missing : Bool → Call
  chunk_size : ℕ → Call

unfoldable pub call : Scd2Config → Call → Scd2Config
call cfg (table t) = record cfg { table = t }
call cfg (schema s) = record cfg { schema_name = s }
call cfg (key col) = record cfg { key_col = col }
call cfg (track cols) = record cfg { tracked_cols = cols }
call cfg (col_names n) = record cfg { col_names = n }
call cfg (close_missing close) = record cfg { close_missing = close }
call cfg (chunk_size n) = record cfg { chunk_size = max n 1 }

-- A chain of calls.
unfoldable pub calls : Scd2Config → List Call → Scd2Config
unfolding call
calls cfg [] = cfg
calls cfg (c ∷ cs) = calls (call cfg c) cs

call_lem : (cfg : Scd2Config) (c : Call) → 1 ≤ cfg.chunk_size → 1 ≤ (call cfg c).chunk_size
unfolding call
call_lem cfg (table t) h = h
call_lem cfg (schema s) h = h
call_lem cfg (key col) h = h
call_lem cfg (track cols) h = h
call_lem cfg (col_names n) h = h
call_lem cfg (close_missing close) h = h
call_lem cfg (chunk_size n) h = omega arith

calls_lem : (cs : List Call) (cfg : Scd2Config) → 1 ≤ cfg.chunk_size → 1 ≤ (calls cfg cs).chunk_size
unfolding calls
calls_lem [] cfg h = h
calls_lem (c ∷ cs) cfg h = calls_lem cs (call cfg c) (call_lem cfg c h)

-- Whatever builder methods are called, the chunks of keys that a sink puts in one statement are not
-- empty.
pub chunk_size-positive :
    (default_schema : Text) (cs : List Call) → 1 ≤ (calls (new default_schema) cs).chunk_size
unfolding new
chunk_size-positive default_schema cs = calls_lem cs (new default_schema) (omega arith)
