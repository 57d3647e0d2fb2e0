-- ===== src/Arrow/Types.antt =====
-- Arrow's data types, as far as the source names them.
use potato_etl.Base.{ℕ, Option, Text}
use potato_etl.Base.Int.{ℤ}

pub data TimeUnit : Type 0 where
  second millisecond microsecond nanosecond : TimeUnit

pub data DataType : Type 0 where
  boolean int8 int16 int32 int64 uint8 uint16 uint32 uint64 float32 float64 : DataType
  utf8 large_utf8 utf8_view binary large_binary date32 date64 : DataType
  timestamp : TimeUnit → Option Text → DataType
  time32 time64 duration : TimeUnit → DataType
  dictionary : DataType → DataType → DataType
  -- its number of bytes
  fixed_size_binary : ℕ → DataType
  -- precision and scale
  decimal128 : ℕ → ℤ → DataType
  list large_list : DataType → DataType
  -- with the text of their fields or unit, which the source does not look at
  struct map_type interval : Text → DataType
  -- any type that the source does not name
  other : Text → DataType
