-- ===== src/Expr/Functions.antt =====
-- common/src/transform/expr/eval.rs: the functions of the expression language. An argument is its
-- expression, which some functions read as a literal, with what it evaluates to.
use potato_etl.Base.{
  ℕ, zero, suc, Bool, true, false, Option, none, some, List, [], ◌∷◌, ◌++◌, Text, codes, text_eq,
  if◌then◌else◌, ◌>>=◌, Result, ok, then_ok,
}
use potato_etl.Base.Int.{ℤ, as_i32, wrap_i64, scale, quotient}
use potato_etl.Arrow.{Array, Json, Items}
use potato_etl.Expr.Arrays.{map_option}
use potato_etl.Expr.Temporal.{TemporalPart, first_some}

pub data Function : Type 0 where
  now utcnow run_ts run_ts_naive env : Function
  part : TemporalPart → Function
  upper regexp_like regexp_replace lower trim string_length truncate concat coalesce : Function
  json_get json_length cast is_null is_not_null if_null if_then_else epoch_to_timestamp : Function
  aggregate : Function

-- The names of the functions, with their synonyms.
abbrev pub functions : List (Text × Function)
functions =
    (codes "now", Function.now)
    ∷ (codes "utcnow", Function.utcnow)
    ∷ (codes "run_ts", Function.run_ts)
    ∷ (codes "run_ts_naive", Function.run_ts_naive)
    ∷ (codes "env", Function.env)
    ∷ (codes "year", Function.part TemporalPart.year)
    ∷ (codes "month", Function.part TemporalPart.month)
    ∷ (codes "day", Function.part TemporalPart.day)
    ∷ (codes "hour", Function.part TemporalPart.hour)
    ∷ (codes "minute", Function.part TemporalPart.minute)
    ∷ (codes "second", Function.part TemporalPart.second)
    ∷ (codes "upper", Function.upper)
    ∷ (codes "ucase", Function.upper)
    ∷ (codes "regexp_like", Function.regexp_like)
    ∷ (codes "regex_like", Function.regexp_like)
    ∷ (codes "rlike", Function.regexp_like)
    ∷ (codes "regexp_replace", Function.regexp_replace)
    ∷ (codes "regex_replace", Function.regexp_replace)
    ∷ (codes "lower", Function.lower)
    ∷ (codes "lcase", Function.lower)
    ∷ (codes "trim", Function.trim)
    ∷ (codes "length", Function.string_length)
    ∷ (codes "len", Function.string_length)
    ∷ (codes "char_length", Function.string_length)
    ∷ (codes "truncate", Function.truncate)
    ∷ (codes "left", Function.truncate)
    ∷ (codes "concat", Function.concat)
    ∷ (codes "coalesce", Function.coalesce)
    ∷ (codes "json_get", Function.json_get)
    ∷ (codes "json_length", Function.json_length)
    ∷ (codes "json_array_length", Function.json_length)
    ∷ (codes "cast", Function.cast)
    ∷ (codes "is_null", Function.is_null)
    ∷ (codes "isnull", Function.is_null)
    ∷ (codes "is_not_null", Function.is_not_null)
    ∷ (codes "isnotnull", Function.is_not_null)
    ∷ (codes "not_null", Function.is_not_null)
    ∷ (codes "if_null", Function.if_null)
    ∷ (codes "ifnull", Function.if_null)
    ∷ (codes "nvl", Function.if_null)
    ∷ (codes "if", Function.if_then_else)
    ∷ (codes "iif", Function.if_then_else)
    ∷ (codes "sum", Function.aggregate)
    ∷ (codes "count", Function.aggregate)
    ∷ (codes "min", Function.aggregate)
    ∷ (codes "max", Function.aggregate)
    ∷ (codes "avg", Function.aggregate)
    ∷ (codes "mean", Function.aggregate)
    ∷ (codes "first", Function.aggregate)
    ∷ (codes "epoch_to_timestamp", Function.epoch_to_timestamp)
    ∷ (codes "from_epoch", Function.epoch_to_timestamp)
    ∷ (codes "from_unix", Function.epoch_to_timestamp)
    ∷ []

-- What a reading of the clock gives, in microseconds: as local time, and as universal time.
pub record Reading : Type 0 where
  pub local_us : ℤ
  pub utc_us : ℤ

-- A step to a part of an expression, and to a column of a `map` step in its first pass or a later one.
pub data Step : Type 0 where
  left right : Step
  column : Bool → Text → Step

-- The thread-local state: the start of the run and the environment variables, each an array of one
-- value; and what the clock shows at each of its readings, which happen at the calls of now() and
-- utcnow() and are told apart by the place of the call. No two readings need agree.
pub record EvalContext (F : Type 0) : Type 0 where
  pub run_start_us : ℤ
  pub env_vars : List (Text × Array F)
  pub clock : List Step → Reading

-- The context of a part.
abbrev pub at : {F : Type 0} → Step → EvalContext F → EvalContext F
at step ctx = record ctx { clock = λ place. ctx.clock (step ∷ place) }

abbrev pub valid : {A : Type 0} → Option A → Bool
valid none = false
valid (some a) = true

-- The first `n` values; none if there are fewer, where the source's index is out of bounds.
unfoldable pub first_rows : {A : Type 0} → ℕ → List A → Option (List A)
first_rows zero values = some []
first_rows (suc n) [] = none
first_rows (suc n) (v ∷ values) = map_option (◌∷◌ v) (first_rows n values)

-- The first values of the lists, with the rest of each.
abbrev pub add_head : {A : Type 0} → A → List A → List A × List (List A) → List A × List (List A)
add_head v values (heads, tails) = (v ∷ heads, values ∷ tails)

unfoldable pub split_heads : {A : Type 0} → List (List A) → Option (List A × List (List A))
split_heads [] = some ([], [])
split_heads ([] ∷ parts) = none
split_heads ((v ∷ values) ∷ parts) = map_option (add_head v values) (split_heads parts)

-- `(0..n).map(|i| f(parts[..][i]))`
unfoldable pub by_rows : {A B : Type 0} → ℕ → (List A → B) → List (List A) → Option (List B)
unfolding split_heads
by_rows zero f parts = some []
by_rows (suc n) f parts =
    split_heads parts >>= λ (heads, tails). map_option (◌∷◌ (f heads)) (by_rows n f tails)

-- A row of `concat`, which leaves NULLs out, and of `coalesce`.
unfoldable pub concat_row : List (Option Text) → Text
concat_row [] = []
concat_row (none ∷ parts) = concat_row parts
concat_row (some s ∷ parts) = s ++ concat_row parts

unfoldable pub first_valid : List (Option Text) → Option Text
first_valid [] = none
first_valid (v ∷ parts) = first_some v (first_valid parts)

unfoldable pub count_items : Items → ℕ
count_items Items.no_items = 0
count_items (Items.item v rest) = suc (count_items rest)

abbrev pub length_of : Json → Option ℤ
length_of (Json.array items) = some (as_i32 (count_items items))
length_of _ = none

-- The microseconds of an epoch in the unit.
unfoldable pub to_micros : Text → Option (ℤ → ℤ)
unfolding text_eq wrap_i64 scale quotient
to_micros unit =
    if text_eq unit (codes "s")
    then some (λ x. wrap_i64 (scale 1_000_000 x))
    else if text_eq unit (codes "ms")
    then some (λ x. wrap_i64 (scale 1_000 x))
    else if text_eq unit (codes "us")
    then some (λ x. x)
    else if text_eq unit (codes "ns")
    then some (λ x. quotient 1_000 x)
    else none

-- Collecting results: the first error, or all values.
unfoldable pub collect_ok : {E A : Type 0} → List (Result E A) → Result E (List A)
collect_ok [] = ok []
collect_ok (r ∷ rs) = then_ok r λ a. then_ok (collect_ok rs) λ as_. ok (a ∷ as_)
