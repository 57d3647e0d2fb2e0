-- ===== src/Arrow/TypeNames.antt =====
-- common/src/util/schema.rs: the names of Arrow's types, and the names of columns in lower case.
use potato_etl.Base.{
  ◌⊎◌, inr, ℕ, Bool, Option, none, some, List, [], ◌∷◌, Text, codes, text_eq, is_empty, split_once,
  map, all, get, if◌then◌else◌, ◌==◌, ◌>>=◌, ◌||◌, is_prefix,
}
use potato_etl.Arrow.{DataType, TimeUnit, Strings, RecordBatch, Kernels}

unfoldable pub parse_time_unit : Text → Option TimeUnit
unfolding text_eq
parse_time_unit unit =
    if text_eq unit (codes "s")
    then some TimeUnit.second
    else if text_eq unit (codes "ms")
    then some TimeUnit.millisecond
    else if text_eq unit (codes "us")
    then some TimeUnit.microsecond
    else if text_eq unit (codes "ns")
    then some TimeUnit.nanosecond
    else none

-- `trim_end_matches` of a character
unfoldable pub trim_end : ℕ → Text → Text
trim_end c [] = []
trim_end c (x ∷ s) =
    let rest = trim_end c s in if is_empty rest then (if x == c then [] else x ∷ []) else x ∷ rest

-- The plain names, with their aliases.
abbrev pub plain_names : List (Text × DataType)
plain_names =
    (codes "boolean", DataType.boolean)
    ∷ (codes "bool", DataType.boolean)
    ∷ (codes "int8", DataType.int8)
    ∷ (codes "int16", DataType.int16)
    ∷ (codes "smallint", DataType.int16)
    ∷ (codes "int32", DataType.int32)
    ∷ (codes "int", DataType.int32)
    ∷ (codes "integer", DataType.int32)
    ∷ (codes "int64", DataType.int64)
    ∷ (codes "bigint", DataType.int64)
    ∷ (codes "float32", DataType.float32)
    ∷ (codes "real", DataType.float32)
    ∷ (codes "float64", DataType.float64)
    ∷ (codes "double", DataType.float64)
    ∷ (codes "double_precision", DataType.float64)
    ∷ (codes "utf8", DataType.utf8)
    ∷ (codes "string", DataType.utf8)
    ∷ (codes "text", DataType.utf8)
    ∷ (codes "varchar", DataType.utf8)
    ∷ (codes "large_utf8", DataType.large_utf8)
    ∷ (codes "longtext", DataType.large_utf8)
    ∷ (codes "date32", DataType.date32)
    ∷ (codes "date", DataType.date32)
    ∷ (codes "timestamp", DataType.timestamp TimeUnit.microsecond none)
    ∷ (codes "ts", DataType.timestamp TimeUnit.microsecond none)
    ∷ (codes "datetime", DataType.timestamp TimeUnit.microsecond none)
    ∷ (codes "binary", DataType.binary)
    ∷ (codes "large_binary", DataType.large_binary)
    ∷ []

-- `replace(['-', ' '], "_")`
unfoldable pub underscored : Text → Text
underscored = map (λ c. if c == b'-' || c == 32 then b'_' else c)

module _ (t : Strings) where
  -- The text behind the bracket: the unit and, behind the first comma, the time zone.
  unfoldable pub split_unit : Text → Text × Option Text
  unfolding split_once
  split_unit inner = elim (split_once b',' inner) [
    | none ↦ (t.trim inner, none)
    | some (unit, tz) ↦ (t.trim unit, some (t.trim tz))
  ]

  -- An empty time zone counts as none.
  abbrev pub zone_of : Option Text → Option Text
  zone_of none = none
  zone_of (some tz) = if is_empty tz then none else some (t.to_uppercase tz)

  unfoldable pub bracket_type : Text → Option Text → TimeUnit → Option DataType
  unfolding text_eq
  bracket_type name tz unit =
      if text_eq name (codes "timestamp")
      then some (DataType.timestamp unit (zone_of tz))
      else if text_eq name (codes "time64")
      then some (DataType.time64 unit)
      else if text_eq name (codes "time32")
      then some (DataType.time32 unit)
      else if text_eq name (codes "duration")
      then some (DataType.duration unit)
      else none

  -- `none` is an unknown type or unit.
  unfoldable pub parse_arrow_type : Text → Option DataType
  unfolding split_once split_unit parse_time_unit bracket_type trim_end underscored get
  parse_arrow_type s = elim (split_once b'[' s) [
    | none ↦ get (underscored (t.unicode.to_lowercase s)) plain_names
    | some (name, rest) ↦
        let (unit, tz) = split_unit (t.trim (trim_end b']' rest)) in
        parse_time_unit unit >>= bracket_type (t.unicode.to_lowercase (t.trim name)) tz
  ]

-- Lower-casing the names of the columns; names that are in lower case already are left alone.
unfoldable pub apply_normalize_columns :
    {F : Type 0} → Kernels F → RecordBatch F → Text ⊎ RecordBatch F
unfolding text_eq
apply_normalize_columns k batch =
    let lower = k.strings.unicode.to_lowercase in
    if all (λ (f, a). text_eq f.name (lower f.name)) batch.columns
    then inr batch
    else k.try_new (map (λ (f, a). (record f { name = lower f.name }, a)) batch.columns)

-- The explicit choice, or whether the connection is to Oracle.
unfoldable pub should_normalize : Text → Option Bool → Bool
unfolding is_prefix
should_normalize conn_str (some explicit) = explicit
should_normalize conn_str none = is_prefix (codes "oracle://") conn_str
