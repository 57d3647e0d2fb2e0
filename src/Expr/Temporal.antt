-- ===== src/Expr/Temporal.antt =====
-- common/src/transform/expr/helpers.rs: the parts of dates and times.
use potato_etl.Base.{
  Option, none, some, List, [], ◌∷◌, Text, codes, map, ◌>>=◌, Result, ok, err, then_ok, ok_or,
}
use potato_etl.Base.Int.{ℤ, pos}
use potato_etl.Arrow.{Array, DataType, TimeUnit, DateTime, Chrono, Kernels}
use potato_etl.Expr.Arrays.{
  EvalError, map_option, int32_array, as_int, downcast, cast_to, to_string_array,
}

pub data TemporalPart : Type 0 where
  year month day hour minute second : TemporalPart

unfoldable pub extract_part : TemporalPart → DateTime → ℤ
extract_part year t = t.year
extract_part month t = pos t.month
extract_part day t = pos t.day
extract_part hour t = pos t.hour
extract_part minute t = pos t.minute
extract_part second t = pos t.second

abbrev pub first_some {ℓ} : {A : Type ℓ} → Option A → Option A → Option A
first_some (some a) o = some a
first_some none o = o

-- The formats of a text, in the order in which they are tried.
unfoldable pub parse_moment : Chrono → Text → Option DateTime
parse_moment c s = first_some (c.parse_rfc3339 s) (
    first_some (c.parse_from_str s (codes "%Y-%m-%d %H:%M:%S"))
      (first_some (c.parse_from_str s (codes "%Y-%m-%dT%H:%M:%S")) (c.parse_date s)))

module _ {F : Type 0} (k : Kernels F) where
  -- The part of each moment that a function makes of a value.
  abbrev pub parts {ℓ} :
      {A : Type ℓ} → TemporalPart → (A → Option DateTime) → List (Option A) → Array F
  parts part moment values =
      int32_array (map (λ v. v >>= λ x. map_option (extract_part part) (moment x)) values)

  unfoldable pub parts_by_type : TemporalPart → DataType → Array F → Result (EvalError F) (Array F)
  unfolding cast_to to_string_array downcast extract_part parse_moment
  parts_by_type part (DataType.timestamp unit tz) a =
      then_ok (cast_to k (DataType.timestamp TimeUnit.microsecond none) as_int a)
        λ values. ok (parts part k.chrono.from_micros values)
  parts_by_type part DataType.date32 a =
      then_ok (ok_or EvalError.downcast_failed (downcast as_int a.cells))
        λ values. ok (parts part k.chrono.from_days values)
  parts_by_type part DataType.date64 a =
      then_ok (ok_or EvalError.downcast_failed (downcast as_int a.cells))
        λ values. ok (parts part k.chrono.from_millis values)
  parts_by_type part t a =
      then_ok (to_string_array k a) λ values. ok (parts part (parse_moment k.chrono) values)

  unfoldable pub temporal_part :
      TemporalPart → List (Result (EvalError F) (Array F)) → Result (EvalError F) (Array F)
  unfolding parts_by_type
  temporal_part part (value ∷ []) = then_ok value λ a. parts_by_type part a.data_type a
  temporal_part part _ = err (EvalError.wrong_arguments (codes "temporal function"))
