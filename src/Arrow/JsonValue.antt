-- ===== src/Arrow/JsonValue.antt =====
-- `serde_json::Value`. A number is the text that it is printed as; an object is its entries.
use potato_etl.Base.{Bool, Text}

mutual
  pub data Json : Type 0 where
    null : Json
    bool : Bool → Json
    number : Text → Json
    string : Text → Json
    array : Items → Json
    object : Entries → Json

  pub data Items : Type 0 where
    no_items : Items
    item : Json → Items → Items

  pub data Entries : Type 0 where
    no_entries : Entries
    entry : Text → Json → Entries → Entries
