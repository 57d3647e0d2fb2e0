-- ===== src/Sink/Settings.antt =====
-- What a chain of builder calls sets.
use potato_etl.Base.{◌≡◌, refl, Option, none, some, List, [], ◌∷◌}
use potato_etl.Sink.{
  TableMode, use_existing, create_if_not_exists, drop_and_replace, WriteStrategy, append,
  insert_ignore, upsert, merge_delete, truncate, never, if_not_exists, replace, SinkConfig,
  BuilderCall, call_table, call_schema, call_use_existing, call_create_if_not_exists,
  call_drop_and_replace, call_create_mode, call_insert, call_insert_ignore, call_upsert,
  call_merge_delete, call_clear_and_insert, create_mode, apply, apply_all,
}

-- The table mode that a call chooses, if it chooses one, and the write strategy.
unfoldable pub mode_of : BuilderCall → Option TableMode
mode_of call_use_existing = some use_existing
mode_of call_create_if_not_exists = some create_if_not_exists
mode_of call_drop_and_replace = some drop_and_replace
mode_of (call_create_mode if_not_exists) = some create_if_not_exists
mode_of (call_create_mode replace) = some drop_and_replace
mode_of _ = none

unfoldable pub strategy_of : BuilderCall → Option WriteStrategy
strategy_of call_insert = some append
strategy_of call_insert_ignore = some insert_ignore
strategy_of call_upsert = some upsert
strategy_of call_merge_delete = some merge_delete
strategy_of call_clear_and_insert = some truncate
strategy_of _ = none

-- The last choice in a chain of calls, or the default.
unfoldable pub last_choice : {A : Type 0} → (BuilderCall → Option A) → A → List BuilderCall → A
last_choice choice default [] = default
last_choice choice default (c ∷ cs) = elim (choice c) [
  | none ↦ last_choice choice default cs
  | some a ↦ last_choice choice a cs
]

module _ {I S D : Type 0} where
  -- The table mode, the write strategy and what no method sets.
  abbrev pub IsSetBy : SinkConfig I S D → List BuilderCall → SinkConfig I S D → Type 0
  IsSetBy cfg cs done =
      (done.table_mode ≡ last_choice mode_of cfg.table_mode cs)
      × (done.write_strategy ≡ last_choice strategy_of cfg.write_strategy cs)
      × (done.table_prepared ≡ cfg.table_prepared)
      × (done.missing_column_behavior ≡ cfg.missing_column_behavior)

  -- The table mode and the write strategy after a chain of builder calls are the last ones that a
  -- call chose, in whatever order the calls of the two kinds are mixed; no call marks the table as
  -- prepared or changes what is done about missing columns.
  pub apply_all-IsSetBy :
      (cfg : SinkConfig I S D) (cs : List BuilderCall) → IsSetBy cfg cs (apply_all cfg cs)
  unfolding apply_all apply create_mode last_choice mode_of strategy_of
  apply_all-IsSetBy cfg [] = (refl, refl, refl, refl)
  apply_all-IsSetBy cfg (call_table t ∷ cs) = apply_all-IsSetBy (apply cfg (call_table t)) cs
  apply_all-IsSetBy cfg (call_schema s ∷ cs) = apply_all-IsSetBy (apply cfg (call_schema s)) cs
  apply_all-IsSetBy cfg (call_use_existing ∷ cs) =
      apply_all-IsSetBy (apply cfg call_use_existing) cs
  apply_all-IsSetBy cfg (call_create_if_not_exists ∷ cs) =
      apply_all-IsSetBy (apply cfg call_create_if_not_exists) cs
  apply_all-IsSetBy cfg (call_drop_and_replace ∷ cs) =
      apply_all-IsSetBy (apply cfg call_drop_and_replace) cs
  apply_all-IsSetBy cfg (call_create_mode never ∷ cs) = apply_all-IsSetBy cfg cs
  apply_all-IsSetBy cfg (call_create_mode if_not_exists ∷ cs) =
      apply_all-IsSetBy (apply cfg call_create_if_not_exists) cs
  apply_all-IsSetBy cfg (call_create_mode replace ∷ cs) =
      apply_all-IsSetBy (apply cfg call_drop_and_replace) cs
  apply_all-IsSetBy cfg (call_insert ∷ cs) = apply_all-IsSetBy (apply cfg call_insert) cs
  apply_all-IsSetBy cfg (call_insert_ignore ∷ cs) =
      apply_all-IsSetBy (apply cfg call_insert_ignore) cs
  apply_all-IsSetBy cfg (call_upsert ∷ cs) = apply_all-IsSetBy (apply cfg call_upsert) cs
  apply_all-IsSetBy cfg (call_merge_delete ∷ cs) =
      apply_all-IsSetBy (apply cfg call_merge_delete) cs
  apply_all-IsSetBy cfg (call_clear_and_insert ∷ cs) =
      apply_all-IsSetBy (apply cfg call_clear_and_insert) cs
