-- ===== src/Scd2/Replay.antt =====
-- Writing the decision of a batch and deciding on the same batch again.
use potato_etl.Base.{◌-◌, not, Option, List, Text, map, length, filter, contains}
use potato_etl.Scd2.{
  RecordBatch, Scd2Config, Scd2Decision, Diff, Row, record_batch_to_string_rows, scd_meta_of,
}
use potato_etl.Scd2.Settled.{key_of}

module _ {V : Type 0} (array_value_to_string : V → Option Text) (batch : RecordBatch V)
    (cfg : Scd2Config) where
  abbrev pub names_of : List Text
  names_of = map (λ (name, array). name) batch.columns

  abbrev pub rows_of : List Row
  rows_of = record_batch_to_string_rows array_value_to_string batch

  -- The keys that stand in the rows.
  abbrev pub keys_of : List Text
  keys_of = map (key_of names_of cfg.key_col) rows_of

  -- The decision that a diff amounts to.
  abbrev decision_of : Diff → Scd2Decision
  decision_of diff = record {
    to_close = diff.to_close;
    to_insert = diff.to_insert;
    insert_cols = filter (λ c. not (contains c (scd_meta_of cfg.col_names))) names_of;
    col_names_vec = names_of;
    scd_meta = scd_meta_of cfg.col_names;
    stats = record {
      new_rows = length diff.to_insert - length diff.to_close;
      updated_rows = length diff.to_close;
      unchanged_rows = diff.unchanged;
    };
  }
