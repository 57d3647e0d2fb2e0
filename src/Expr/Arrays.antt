-- ===== src/Expr/Arrays.antt =====
-- common/src/transform/expr/helpers.rs: typed arrays and casts, and broadcasting.
use potato_etl.Base.{
  ◌⊎◌, inl, inr, ℕ, zero, suc, Bool, Option, none, some, List, [], ◌∷◌, Text, map, replicate,
  Result, ok, err, then_ok, ok_or,
}
use potato_etl.Base.Int.{ℤ}
use potato_etl.Arrow.{Scalar, Array, DataType, TimeUnit, Kernels}
use potato_etl.Expr.Syntax.{Expr, Error}

-- The errors of evaluation, with the texts that their messages quote.
pub data EvalError (F : Type 0) : Type 0 where
  column_not_found undefined_variable bad_pattern unknown_function unknown_type : Text → EvalError F
  wrong_arguments aggregate_only : Text → EvalError F
  literal_expected : Expr F → EvalError F
  negative_length : ℤ → EvalError F
  unknown_unit : Text → EvalError F
  arrow : Text → EvalError F
  parse : Error → EvalError F
  downcast_failed index_out_of_bounds : EvalError F

-- Arrow's error under `?`
abbrev pub lift {ℓ} : {F : Type 0} {A : Type ℓ} → Text ⊎ A → Result (EvalError F) A
lift (inl e) = err (EvalError.arrow e)
lift (inr a) = ok a

abbrev pub map_option {ℓ κ} : {A : Type ℓ} {B : Type κ} → (A → B) → Option A → Option B
map_option f none = none
map_option f (some a) = some (f a)

abbrev pub push_value {ℓ} :
    {A : Type ℓ} → Option A → Option (List (Option A)) → Option (List (Option A))
push_value none rest = none
push_value (some a) none = none
push_value (some a) (some values) = some (some a ∷ values)

module _ {F : Type 0} where
  -- Arrays of one type, collected from an iterator of options.
  abbrev pub array_of {ℓ} : {A : Type ℓ} → DataType → (A → Scalar F) → List (Option A) → Array F
  array_of t f values = record { data_type = t; cells = map (map_option f) values }

  abbrev pub float64_array : List (Option F) → Array F
  float64_array = array_of DataType.float64 Scalar.float

  abbrev pub boolean_array : List (Option Bool) → Array F
  boolean_array = array_of DataType.boolean Scalar.bool

  abbrev pub string_array : List (Option Text) → Array F
  string_array = array_of DataType.utf8 Scalar.text

  abbrev pub int32_array : List (Option ℤ) → Array F
  int32_array = array_of DataType.int32 Scalar.int

  abbrev pub int64_array : List (Option ℤ) → Array F
  int64_array = array_of DataType.int64 Scalar.int

  abbrev pub timestamp_array : Option Text → List (Option ℤ) → Array F
  timestamp_array tz = array_of (DataType.timestamp TimeUnit.microsecond tz) Scalar.int

  -- `downcast_ref`: the values of an array of one type.
  abbrev pub as_float : Scalar F → Option F
  as_float (Scalar.float x) = some x
  as_float _ = none

  abbrev pub as_bool : Scalar F → Option Bool
  as_bool (Scalar.bool b) = some b
  as_bool _ = none

  abbrev pub as_text : Scalar F → Option Text
  as_text (Scalar.text s) = some s
  as_text _ = none

  abbrev pub as_int : Scalar F → Option ℤ
  as_int (Scalar.int i) = some i
  as_int _ = none

  unfoldable pub downcast {ℓ} :
      {A : Type ℓ} → (Scalar F → Option A) → List (Option (Scalar F)) → Option (List (Option A))
  downcast f [] = some []
  downcast f (none ∷ cells) = map_option (λ values. none ∷ values) (downcast f cells)
  downcast f (some v ∷ cells) = push_value (f v) (downcast f cells)

  module _ (k : Kernels F) where
    unfoldable pub cast_to {ℓ} :
        {A : Type ℓ}
        → DataType
        → (Scalar F → Option A)
        → Array F
        → Result (EvalError F) (List (Option A))
    unfolding downcast
    cast_to t f a =
        then_ok (lift (k.cast a t)) λ b. ok_or EvalError.downcast_failed (downcast f b.cells)

    unfoldable pub to_float64 : Array F → Result (EvalError F) (List (Option F))
    unfolding cast_to
    to_float64 = cast_to DataType.float64 as_float

    unfoldable pub to_boolean : Array F → Result (EvalError F) (List (Option Bool))
    unfolding cast_to
    to_boolean = cast_to DataType.boolean as_bool

    unfoldable pub to_string_array : Array F → Result (EvalError F) (List (Option Text))
    unfolding cast_to
    to_string_array = cast_to DataType.utf8 as_text

    unfoldable pub to_int64 : Array F → Result (EvalError F) (List (Option ℤ))
    unfolding cast_to
    to_int64 = cast_to DataType.int64 as_int

    -- `value(0)`, which is out of bounds in an empty array, and its NULL.
    abbrev pub first_cell {ℓ} : {A : Type ℓ} → List A → Result (EvalError F) A
    first_cell [] = err EvalError.index_out_of_bounds
    first_cell (x ∷ xs) = ok x

    abbrev pub repeat_first {ℓ} :
        {A : Type ℓ}
        → ℕ
        → (List (Option A) → Array F)
        → Result (EvalError F) (List (Option A))
        → Result (EvalError F) (Array F)
    repeat_first n build values =
        then_ok values λ vs. then_ok (first_cell vs) λ v. ok (build (replicate n v))

    -- Broadcasting by the type of the scalar. A timestamp is cast to its own type and then read as
    -- microseconds, which panics for another unit.
    unfoldable pub broadcast_by_type : DataType → Array F → ℕ → Result (EvalError F) (Array F)
    unfolding cast_to to_string_array downcast
    broadcast_by_type (DataType.timestamp TimeUnit.microsecond tz) a n =
        repeat_first n (timestamp_array tz)
          (cast_to (DataType.timestamp TimeUnit.microsecond tz) as_int a)
    broadcast_by_type (DataType.timestamp unit tz) a n =
        then_ok (lift (k.cast a (DataType.timestamp unit tz))) λ b. err EvalError.downcast_failed
    broadcast_by_type DataType.float64 a n =
        repeat_first n float64_array (ok_or EvalError.downcast_failed (downcast as_float a.cells))
    broadcast_by_type DataType.int64 a n =
        repeat_first n int64_array (ok_or EvalError.downcast_failed (downcast as_int a.cells))
    broadcast_by_type DataType.int32 a n =
        repeat_first n int32_array (ok_or EvalError.downcast_failed (downcast as_int a.cells))
    broadcast_by_type DataType.boolean a n =
        repeat_first n boolean_array (ok_or EvalError.downcast_failed (downcast as_bool a.cells))
    broadcast_by_type t a n = repeat_first n string_array (to_string_array a)

    -- No rows give the empty slice of the scalar.
    unfoldable pub broadcast_array : Array F → ℕ → Result (EvalError F) (Array F)
    unfolding broadcast_by_type
    broadcast_array scalar zero = ok (record scalar { cells = [] })
    broadcast_array scalar (suc n) = broadcast_by_type scalar.data_type scalar (suc n)
