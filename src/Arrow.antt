-- ===== src/Arrow.antt =====
-- Arrow's arrays and record batches, as far as the transforms use them, and what the transforms call
-- of Arrow, chrono, regex, serde_json and the standard library: an interface with the documented
-- behaviour that the theorems rely on. `F` stands for `f64`.
use potato_etl.Base.{
  ℕ, ◌≡◌, Bool, Option, none, some, List, [], ◌∷◌, Text, map, length, All, ◌⊎◌, inl, inr,
}
use potato_etl.Base.Int.{ℤ}
use potato_etl.Unicode.{Unicode}
pub mod Types
pub mod JsonValue
pub mod TypeNames
pub mod Sample
pub use Types.{TimeUnit, DataType}
pub use JsonValue.{Json, Items, Entries}

-- A value of an array: every integer type holds integers, dates and timestamps too.
pub data Scalar (F : Type 0) : Type 0 where
  int : ℤ → Scalar F
  float : F → Scalar F
  bool : Bool → Scalar F
  text : Text → Scalar F

-- An array: its type and its values, `none` for NULL.
pub record Array (F : Type 0) : Type 0 where
  pub data_type : DataType
  pub cells : List (Option (Scalar F))

pub record Field : Type 0 where
  pub name : Text
  pub data_type : DataType
  pub nullable : Bool
  pub metadata : List (Text × Text)

pub record RecordBatch (F : Type 0) : Type 0 where
  pub num_rows : ℕ
  pub columns : List (Field × Array F)

-- Every array of a batch has the batch's number of rows.
abbrev pub IsBatch : {F : Type 0} → RecordBatch F → Type 0
IsBatch batch = All (λ (f, a). length a.cells ≡ batch.num_rows) batch.columns

-- The arithmetic and the comparisons of `f64`.
pub record Floats (F : Type 0) : Type 0 where
  pub zero : F
  pub neg : F → F
  pub add : F → F → F
  pub sub : F → F → F
  pub mul : F → F → F
  pub div : F → F → F
  pub eq : F → F → Bool
  pub lt : F → F → Bool
  pub le : F → F → Bool
  -- `f64::max`, `f64::min` and `n as f64`
  pub max : F → F → F
  pub min : F → F → F
  pub from_count : ℕ → F

-- A date and a time of day, of chrono.
pub record DateTime : Type 0 where
  pub year : ℤ
  pub month : ℕ
  pub day : ℕ
  pub hour : ℕ
  pub minute : ℕ
  pub second : ℕ

pub record Chrono : Type 0 where
  pub from_micros : ℤ → Option DateTime
  pub from_millis : ℤ → Option DateTime
  pub from_days : ℤ → Option DateTime
  pub parse_rfc3339 : Text → Option DateTime
  pub parse_from_str : Text → Text → Option DateTime
  pub parse_date : Text → Option DateTime

pub record Strings : Type 0 where
  pub unicode : Unicode
  pub to_uppercase : Text → Text
  pub trim : Text → Text
  -- `Regex::new`, with `is_match` and `replace_all` of the compiled pattern
  pub is_match : Text → Option (Text → Bool)
  pub replace_all : Text → Option (Text → Text → Text)
  -- `serde_json::from_str` and `Value::to_string`
  pub parse_json : Text → Option Json
  pub print_json : Json → Text

-- The kernels: the text of Arrow's error, or the result.
pub record Kernels (F : Type 0) : Type 0 where
  pub floats : Floats F
  pub chrono : Chrono
  pub strings : Strings
  pub same_type : DataType → DataType → Bool
  pub cast : Array F → DataType → Text ⊎ Array F
  -- `zip`: a row of the first array where the mask holds, of the second one elsewhere.
  pub zip : List Bool → Array F → Array F → Text ⊎ Array F
  -- `arrow::compute::concat`
  pub concat : List (Array F) → Text ⊎ Array F
  pub try_new : List (Field × Array F) → Text ⊎ RecordBatch F
  pub filter_record_batch : RecordBatch F → List (Option Bool) → Text ⊎ RecordBatch F
  -- A cast to the array's own type gives the array.
  pub cast_same : (a : Array F) → cast a a.data_type ≡ inr a
  pub cast_length :
      (a : Array F) (t : DataType) (b : Array F)
      → cast a t ≡ inr b
      → length b.cells ≡ length a.cells
  pub zip_length :
      (mask : List Bool) (a b c : Array F) → zip mask a b ≡ inr c → length c.cells ≡ length mask
  pub try_new_columns :
      (columns : List (Field × Array F)) (b : RecordBatch F)
      → try_new columns ≡ inr b
      → b.columns ≡ columns
  pub try_new_rows :
      (columns : List (Field × Array F)) (b : RecordBatch F) → try_new columns ≡ inr b → IsBatch b
