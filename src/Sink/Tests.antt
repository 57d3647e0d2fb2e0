-- ===== src/Sink/Tests.antt =====
-- A chain of builder calls, and the theorem at it.
use potato_etl.Base.{◌≡◌, refl, List, [], ◌∷◌, codes, Text}
use potato_etl.Sink.{
  SinkConfig, BuilderCall, drop_and_replace, upsert, never, replace, call_table, call_create_mode,
  call_insert, call_upsert, new_sink, apply_all,
}
use potato_etl.Sink.Settings.{IsSetBy, apply_all-IsSetBy}

abbrev chain : List BuilderCall
chain =
    call_table (codes "people")
    ∷ call_create_mode replace
    ∷ call_insert
    ∷ call_create_mode never
    ∷ call_upsert
    ∷ []

abbrev start : SinkConfig Text Text Text
unfolding new_sink
start = new_sink (codes "public")

replaces : (apply_all start chain).table_mode ≡ drop_and_replace
unfolding apply_all
replaces = refl

upserts : (apply_all start chain).write_strategy ≡ upsert
unfolding apply_all
upserts = refl

apply_all-IsSetBy_example : IsSetBy start chain (apply_all start chain)
apply_all-IsSetBy_example = apply_all-IsSetBy start chain
