-- ===== src/Expr/Calls.antt =====
-- common/src/transform/expr/eval.rs: `eval_call`. An argument is its expression, which some
-- functions read as a literal, with what it evaluates to.
use potato_etl.Base.{
  ℕ, zero, suc, Bool, true, false, not, ◌&&◌, Option, none, some, List, [], ◌∷◌, Text, codes,
  is_empty, map, length, take, replicate, get, all, leb, if◌then◌else◌, ◌>>=◌, Result, ok, err,
  then_ok, ok_or,
}
use potato_etl.Base.Int.{ℤ, pos, negsuc, as_i32}
use potato_etl.Arrow.{Array, DataType, Json, Kernels}
use potato_etl.Arrow.TypeNames.{parse_arrow_type}
use potato_etl.Expr.Syntax.{Expr}
use potato_etl.Expr.Arrays.{
  EvalError, lift, map_option, boolean_array, string_array, int32_array, timestamp_array,
  to_boolean, to_string_array, to_int64, first_cell, broadcast_array,
}
use potato_etl.Expr.Operators.{zip_with}
use potato_etl.Expr.Temporal.{temporal_part, first_some}
use potato_etl.Expr.JsonPath.{json_path_get}
use potato_etl.Expr.Functions.{
  Function, functions, EvalContext, valid, first_rows, by_rows, concat_row, first_valid, length_of,
  to_micros, collect_ok,
}
pub mod Pieces
pub mod Rows

-- A row of `if_null` and of `if` on texts.
abbrev pub is_true : Option Bool → Bool
is_true none = false
is_true (some b) = b

abbrev pub choose {ℓ} : {A : Type ℓ} → Bool → A × A → A
choose m (t, o) = if m then t else o

-- `chars().count() <= n` keeps the text, which `take` does too.
abbrev pub truncated : ℕ → Text → Text
truncated n s = if leb (length s) n then s else take n s

-- `value` of a NULL
abbrev pub or_empty : Option Text → Text
or_empty none = []
or_empty (some s) = s

abbrev pub json_array_length : (Text → Option Json) → Text → Option ℤ
json_array_length parse s = parse s >>= length_of

module _ {F : Type 0} (k : Kernels F) where
  -- `to_string_array` and a function on each valid text.
  unfoldable pub on_texts :
      (List (Option Text) → Array F)
      → Result (EvalError F) (Array F)
      → Result (EvalError F) (Array F)
  unfolding to_string_array
  on_texts build value = then_ok value λ a. then_ok (to_string_array k a) λ s. ok (build s)

  unfoldable pub row_mask :
      {A : Type 0} → ℕ → (A → Bool) → List A → Result (EvalError F) (List Bool)
  unfolding first_rows
  row_mask n test values =
      then_ok (ok_or EvalError.index_out_of_bounds (first_rows n values)) λ rows. ok (map test rows)

  -- `literal_regex`, with the operation of the compiled pattern that is used.
  unfoldable pub literal_regex : {A : Type 0} → (Text → Option A) → Expr F → Result (EvalError F) A
  literal_regex compile (Expr.str pattern) = ok_or (EvalError.bad_pattern pattern) (compile pattern)
  literal_regex compile e = err (EvalError.literal_expected e)

  unfoldable pub literal_text : Expr F → Result (EvalError F) Text
  literal_text (Expr.str s) = ok s
  literal_text e = err (EvalError.literal_expected e)

  unfoldable pub literal_length : Expr F → Result (EvalError F) ℕ
  literal_length (Expr.int (pos n)) = ok n
  literal_length (Expr.int (negsuc n)) = err (EvalError.negative_length (negsuc n))
  literal_length e = err (EvalError.literal_expected e)

  -- The rows of arrays of one type, from the last array to the first.
  unfoldable pub coalesce_same : ℕ → Array F → List (Array F) → Result (EvalError F) (Array F)
  unfolding row_mask
  coalesce_same n a [] = ok a
  coalesce_same n a (b ∷ arrs) =
      then_ok (coalesce_same n b arrs)
        λ result. then_ok (row_mask n valid a.cells) λ mask. lift (k.zip mask a result)

  -- `(0..n).map(..)` over the texts of all arrays.
  unfoldable pub rows_of_texts :
      ℕ → (List (Option Text) → Option Text) → List (Array F) → Result (EvalError F) (Array F)
  unfolding to_string_array by_rows collect_ok
  rows_of_texts n row arrs = then_ok (collect_ok (map (to_string_array k) arrs)) λ strs.
      then_ok (ok_or EvalError.index_out_of_bounds (by_rows n row strs))
        λ values. ok (string_array values)

  unfoldable pub coalesce_arrays : ℕ → List (Array F) → Result (EvalError F) (Array F)
  unfolding coalesce_same rows_of_texts first_valid
  coalesce_arrays n [] = err (EvalError.wrong_arguments (codes "coalesce"))
  coalesce_arrays n (a ∷ arrs) =
      if all (λ (b : Array F). k.same_type b.data_type a.data_type) arrs
      then coalesce_same n a arrs
      else rows_of_texts n first_valid (a ∷ arrs)

  -- `zip`, or texts for arrays of two types.
  unfoldable pub pick_rows : List Bool → Array F → Array F → Result (EvalError F) (Array F)
  unfolding to_string_array zip_with
  pick_rows mask a b =
      if k.same_type a.data_type b.data_type
      then lift (k.zip mask a b)
      else then_ok (to_string_array k a) λ xs.
        then_ok (to_string_array k b)
          λ ys. ok (string_array (zip_with choose mask (zip_with (λ x y. (x, y)) xs ys)))

  unfoldable pub if_null : ℕ → Array F → Array F → Result (EvalError F) (Array F)
  unfolding row_mask to_string_array zip_with
  if_null n a def =
      if k.same_type a.data_type def.data_type
      then (then_ok (row_mask n valid a.cells) λ mask. lift (k.zip mask a def))
      else then_ok (to_string_array k a)
          λ xs. then_ok (to_string_array k def) λ ys. ok (string_array (zip_with first_some xs ys))

  unfoldable pub json_get : Array F → Array F → Result (EvalError F) (Array F)
  unfolding to_string_array zip_with json_path_get
  json_get arr key_arr = then_ok (to_string_array k arr) λ col_strs.
      then_ok (to_string_array k key_arr) λ key_strs. ok (
        string_array (
          zip_with
            (λ json key. json >>= λ j. key >>= λ path.
              k.strings.parse_json j >>= λ v. json_path_get k.strings.print_json v path)
            col_strs key_strs))

  -- A literal type, or the text in the first row, where a NULL is the empty text.
  unfoldable pub target_type :
      Expr F → Result (EvalError F) (Array F) → Result (EvalError F) DataType
  unfolding to_string_array parse_arrow_type
  target_type (Expr.str s) value = ok_or (EvalError.unknown_type s) (parse_arrow_type k.strings s)
  target_type e value = then_ok value λ a. then_ok (to_string_array k a) λ s.
      then_ok (first_cell k s)
        λ v. ok_or (EvalError.unknown_type (or_empty v)) (parse_arrow_type k.strings (or_empty v))

  unfoldable pub epoch_to_timestamp : Array F → Text → Result (EvalError F) (Array F)
  unfolding to_int64 to_micros
  epoch_to_timestamp arr unit = then_ok (to_int64 k arr) λ values.
      then_ok (ok_or (EvalError.unknown_unit unit) (to_micros unit))
        λ f. ok (timestamp_array (some (codes "UTC")) (map (map_option f) values))

  module _ (ctx : EvalContext F) (n : ℕ) where
    abbrev pub lookup_env_var : Text → Result (EvalError F) (Array F)
    lookup_env_var name =
        then_ok (ok_or (EvalError.undefined_variable name) (get name ctx.env_vars))
          λ arr. broadcast_array k arr n

    -- The function on `n` rows, once its arguments are counted.
    unfoldable pub call_function :
        Function
        → Text
        → List (Expr F × Result (EvalError F) (Array F))
        → Result (EvalError F) (Array F)
    unfolding temporal_part to_boolean
    call_function Function.now func [] =
        ok (timestamp_array none (replicate n (some (ctx.clock []).local_us)))
    call_function Function.utcnow func [] =
        ok (timestamp_array (some (codes "UTC")) (replicate n (some (ctx.clock []).utc_us)))
    call_function Function.run_ts func [] =
        ok (timestamp_array (some (codes "UTC")) (replicate n (some ctx.run_start_us)))
    call_function Function.run_ts_naive func [] =
        ok (timestamp_array none (replicate n (some ctx.run_start_us)))
    call_function Function.env func ((name, _) ∷ []) = then_ok (literal_text name) lookup_env_var
    call_function (Function.part part) func ((_, a) ∷ []) = temporal_part k part (a ∷ [])
    call_function Function.upper func ((_, a) ∷ []) =
        on_texts (λ s. string_array (map (map_option k.strings.to_uppercase) s)) a
    call_function Function.lower func ((_, a) ∷ []) =
        on_texts (λ s. string_array (map (map_option k.strings.unicode.to_lowercase) s)) a
    call_function Function.trim func ((_, a) ∷ []) =
        on_texts (λ s. string_array (map (map_option k.strings.trim) s)) a
    call_function Function.string_length func ((_, a) ∷ []) =
        on_texts (λ s. int32_array (map (map_option (λ (x : Text). as_i32 (length x))) s)) a
    call_function Function.regexp_like func ((_, a) ∷ (pattern, _) ∷ []) = then_ok a λ arr.
        then_ok (to_string_array k arr) λ s.
          then_ok (literal_regex k.strings.is_match pattern)
            λ test. ok (boolean_array (map (map_option test) s))
    call_function Function.regexp_replace func ((_, a) ∷ (pattern, _) ∷ (replacement, _) ∷ []) =
        then_ok a λ arr. then_ok (to_string_array k arr) λ s.
          then_ok (literal_regex k.strings.replace_all pattern) λ replace.
            then_ok (literal_text replacement)
              λ r. ok (string_array (map (map_option (λ (x : Text). replace x r)) s))
    call_function Function.truncate func ((_, a) ∷ (len, _) ∷ []) =
        then_ok (literal_length len)
          λ count. on_texts (λ s. string_array (map (map_option (truncated count)) s)) a
    call_function Function.concat func (a ∷ args) =
        then_ok (collect_ok (map (λ (_, r). r) (a ∷ args)))
          (rows_of_texts n (λ row. some (concat_row row)))
    call_function Function.coalesce func (a ∷ args) =
        then_ok (collect_ok (map (λ (_, r). r) (a ∷ args))) (coalesce_arrays n)
    call_function Function.json_get func ((_, a) ∷ (_, key) ∷ []) =
        then_ok a λ arr. then_ok key λ key_arr. json_get arr key_arr
    call_function Function.json_length func ((_, a) ∷ []) =
        on_texts (λ s. int32_array (map (λ v. v >>= json_array_length k.strings.parse_json) s)) a
    call_function Function.cast func ((_, a) ∷ (type, t) ∷ []) =
        then_ok a λ arr. then_ok (target_type type t) λ target. lift (k.cast arr target)
    call_function Function.is_null func ((_, a) ∷ []) = then_ok a λ arr.
        then_ok (row_mask n valid arr.cells)
          λ mask. ok (boolean_array (map (λ v. some (not v)) mask))
    call_function Function.is_not_null func ((_, a) ∷ []) =
        then_ok a
          λ arr. then_ok (row_mask n valid arr.cells) λ mask. ok (boolean_array (map some mask))
    call_function Function.if_null func ((_, a) ∷ (_, d) ∷ []) =
        then_ok a λ arr. then_ok d λ def. if_null n arr def
    call_function Function.if_then_else func ((_, c) ∷ (_, t) ∷ (_, o) ∷ []) = then_ok c λ cond.
        then_ok (to_boolean k cond) λ flags. then_ok t λ then_arr.
          then_ok o
            λ other. then_ok (row_mask n is_true flags) λ mask. pick_rows mask then_arr other
    call_function Function.epoch_to_timestamp func ((_, a) ∷ []) =
        then_ok a λ arr. epoch_to_timestamp arr (codes "s")
    call_function Function.epoch_to_timestamp func ((_, a) ∷ (unit, _) ∷ []) =
        then_ok a λ arr. then_ok (literal_text unit) λ u. epoch_to_timestamp arr u
    call_function Function.aggregate func args = err (EvalError.aggregate_only func)
    call_function f func args = err (EvalError.wrong_arguments func)

    unfoldable pub eval_call :
        Text → List (Expr F × Result (EvalError F) (Array F)) → Result (EvalError F) (Array F)
    unfolding call_function
    eval_call func args = elim (get func functions) [
      | none ↦ err (EvalError.unknown_function func)
      | some f ↦ call_function f func args
    ]
