-- ===== src/Scd2.antt =====
-- The SCD2 diff that every database sink shares (common/src/db/common/mod.rs), the configuration of
-- these sinks, and the texts of a batch's cells (common/src/util/arrow.rs).
-- A record batch is its columns, each a field name with an array of values or NULL, and its number of
-- rows. Arrow's `array_value_to_string` is a parameter; `none` is its error.
use potato_etl.Base.{
  filter, ℕ, zero, suc, ◌+◌, ◌-◌, max, ◌≡◌, Bool, true, false, not, ◌&&◌, ◌||◌, Option, none, some,
  List, [], ◌∷◌, ◌++◌, Text, codes, is_empty, text_eq, map, any, replicate, length, All,
  if◌then◌else◌, ◌==◌, contains, get, insert, Result, ok, err, then_ok, ok_or,
}
mod Counts
mod Settled
mod Replay
mod Config
mod Tests

pub record RecordBatch (V : Type 0) : Type 0 where
  pub num_rows : ℕ
  pub columns : List (Text × List (Option V))

-- What Arrow ensures when a batch is made: every array has the batch's number of rows.
abbrev pub IsBatch : {V : Type 0} → RecordBatch V → Type 0
IsBatch batch = All (λ (name, array). length array ≡ batch.num_rows) batch.columns

pub record Scd2ColumnNames : Type 0 where
  pub valid_from : Text
  pub valid_to : Text
  pub is_current : Text
  pub scd_id : Text

abbrev pub default_column_names : Scd2ColumnNames
default_column_names = record {
  valid_from = codes "valid_from";
  valid_to = codes "valid_to";
  is_current = codes "is_current";
  scd_id = codes "scd_id";
}

pub record Scd2Config : Type 0 where
  pub table : Text
  pub schema_name : Text
  pub key_col : Text
  pub tracked_cols : List Text
  pub col_names : Scd2ColumnNames
  pub close_missing : Bool
  pub chunk_size : ℕ

-- A row: the text of each cell, `none` for NULL.
abbrev pub Row : Type 0
Row = List (Option Text)

-- The value of each column of a current row, by name; and the current rows, by key.
abbrev pub Cells : Type 0
Cells = List (Text × Option Text)

abbrev pub CurrentRows : Type 0
CurrentRows = List (Text × Cells)

pub record Scd2Stats : Type 0 where
  pub new_rows : ℕ
  pub updated_rows : ℕ
  pub unchanged_rows : ℕ

pub record Scd2Decision : Type 0 where
  pub to_close : List Text
  pub to_insert : List Row
  pub insert_cols : List Text
  pub col_names_vec : List Text
  pub scd_meta : List Text
  pub stats : Scd2Stats

pub data Scd2Error : Type 0 where
  no_key_column bad_key : Scd2Error

-- `Option::flatten`
abbrev pub flatten {ℓ} : {A : Type ℓ} → Option (Option A) → Option A
flatten none = none
flatten (some o) = o

unfoldable pub option_eq : Option Text → Option Text → Bool
unfolding text_eq
option_eq none none = true
option_eq (some a) (some b) = text_eq a b
option_eq _ _ = false

module _ {V : Type 0} (array_value_to_string : V → Option Text) where
  unfoldable pub col_value_to_string : Option V → Option Text
  col_value_to_string none = none
  col_value_to_string (some v) = array_value_to_string v

  -- The inner loop of `record_batch_to_string_rows`: a column's values are pushed on the rows.
  unfoldable pub push_column : List Row → List (Option V) → List Row
  unfolding col_value_to_string
  push_column [] array = []
  push_column (row ∷ rows) [] = row ∷ rows
  push_column (row ∷ rows) (v ∷ array) =
      (row ++ col_value_to_string v ∷ []) ∷ push_column rows array

  unfoldable pub push_columns : List Row → List (Text × List (Option V)) → List Row
  unfolding push_column
  push_columns rows [] = rows
  push_columns rows ((name, array) ∷ columns) = push_columns (push_column rows array) columns

  unfoldable pub record_batch_to_string_rows : RecordBatch V → List Row
  unfolding push_columns
  record_batch_to_string_rows batch = push_columns (replicate batch.num_rows []) batch.columns

  -- A NULL key is the empty text.
  unfoldable pub extract_scd2_key_strings : List (Option V) → Result Scd2Error (List Text)
  extract_scd2_key_strings [] = ok []
  extract_scd2_key_strings (none ∷ array) =
      then_ok (extract_scd2_key_strings array) λ keys. ok ([] ∷ keys)
  extract_scd2_key_strings (some v ∷ array) =
      then_ok (ok_or bad_key (array_value_to_string v))
        λ key. then_ok (extract_scd2_key_strings array) λ keys. ok (key ∷ keys)

-- The `incoming` map of a row: of two columns of one name the later one counts.
unfoldable pub collect : Cells → List Text → Row → Cells
unfolding insert
collect cells [] row = cells
collect cells (name ∷ names) [] = cells
collect cells (name ∷ names) (value ∷ row) = collect (insert name value cells) names row

-- Whether a tracked column differs between the incoming row and the current one.
unfoldable pub is_changed : List Text → Cells → Cells → Bool
unfolding get option_eq
is_changed tracked incoming current =
    any (λ col. not (option_eq (flatten (get col incoming)) (flatten (get col current)))) tracked

-- The vectors and the counter that the loop fills.
pub record Diff : Type 0 where
  pub to_close : List Text
  pub to_insert : List Row
  pub unchanged : ℕ

-- The loop over the rows, each with its key, from the first one on. (There are as many keys as rows.)
unfoldable pub diff_rows : List Text → List Text → CurrentRows → List Text → List Row → Diff
unfolding collect is_changed get
diff_rows names tracked existing [] rows = record { to_close = []; to_insert = []; unchanged = 0 }
diff_rows names tracked existing (key ∷ keys) [] = record {
  to_close = [];
  to_insert = [];
  unchanged = 0;
}
diff_rows names tracked existing (key ∷ keys) (row ∷ rows) =
    let rest = diff_rows names tracked existing keys rows in
    elim (get key existing) [
      | none ↦ record {
        to_close = rest.to_close;
        to_insert = row ∷ rest.to_insert;
        unchanged = rest.unchanged;
      }
      | some current ↦
          if is_changed tracked (collect [] names row) current
          then record {
            to_close = key ∷ rest.to_close;
            to_insert = row ∷ rest.to_insert;
            unchanged = rest.unchanged;
          }
          else record {
            to_close = rest.to_close;
            to_insert = rest.to_insert;
            unchanged = suc rest.unchanged;
          }
    ]

unfoldable pub scd_meta_of : Scd2ColumnNames → List Text
scd_meta_of n = n.scd_id ∷ n.valid_from ∷ n.valid_to ∷ n.is_current ∷ []

-- The columns whose changes count: all but the key and the system columns if none are configured.
unfoldable pub tracked_of : Scd2Config → List Text → List Text
unfolding filter text_eq contains scd_meta_of
tracked_of cfg names = elim cfg.tracked_cols [
  | [] ↦
      filter (λ c. not (text_eq c cfg.key_col) && not (contains c (scd_meta_of cfg.col_names)))
        names
  | c ∷ cs ↦ c ∷ cs
]

module _ {V : Type 0} (array_value_to_string : V → Option Text) where
  -- `Schema::index_of`, which `get` stands for, finds the first column of the name.
  unfoldable pub compute_scd2_decision :
      RecordBatch V → Scd2Config → CurrentRows → Result Scd2Error Scd2Decision
  unfolding get extract_scd2_key_strings record_batch_to_string_rows diff_rows tracked_of filter
      contains scd_meta_of
  compute_scd2_decision batch cfg existing =
      let names = map (λ (name, array). name) batch.columns in
      let meta = scd_meta_of cfg.col_names in
      then_ok (ok_or no_key_column (get cfg.key_col batch.columns)) λ key_array.
        then_ok (extract_scd2_key_strings array_value_to_string key_array) λ keys.
          let rows = record_batch_to_string_rows array_value_to_string batch in
          let diff = diff_rows names (tracked_of cfg names) existing keys rows in
          let updated_rows = length diff.to_close in
          ok (record {
            to_close = diff.to_close;
            to_insert = diff.to_insert;
            insert_cols = filter (λ c. not (contains c meta)) names;
            col_names_vec = names;
            scd_meta = meta;
            stats = record {
              new_rows = length diff.to_insert - updated_rows;
              updated_rows = updated_rows;
              unchanged_rows = diff.unchanged;
            };
          })
