-- ===== src/Expr/Operators.antt =====
-- common/src/transform/expr/eval.rs: the operators on evaluated arrays. NULL is `none`.
use potato_etl.Base.{
  map, Bool, true, false, not, ◌&&◌, ◌||◌, Option, none, some, List, [], ◌∷◌, Text, if◌then◌else◌,
  ltb, ◌==◌, text_eq, Result, ok, err, out_of_fuel, then_ok,
}
use potato_etl.Arrow.{Array, DataType, Kernels}
use potato_etl.Expr.Syntax.{BinOp, UnaryOp}
use potato_etl.Expr.Arrays.{
  EvalError, map_option, float64_array, boolean_array, to_float64, to_boolean, to_string_array,
}

-- `a.iter().zip(b.iter()).map(f)`
unfoldable pub zip_with {ℓ κ λ'} :
    {A : Type ℓ} {B : Type κ} {C : Type λ'} → (A → B → C) → List A → List B → List C
zip_with f [] ys = []
zip_with f (x ∷ xs) [] = []
zip_with f (x ∷ xs) (y ∷ ys) = f x y ∷ zip_with f xs ys

-- Rust's order of strings, which is that of their characters.
unfoldable pub text_lt : Text → Text → Bool
text_lt s [] = false
text_lt [] (d ∷ t) = true
text_lt (c ∷ s) (d ∷ t) = ltb c d || (c == d) && text_lt s t

-- The cells of `and` and `or`: SQL's three-valued logic.
unfoldable pub and_cell : Option Bool → Option Bool → Option Bool
and_cell (some false) b = some false
and_cell (some true) (some b) = some b
and_cell (some true) none = none
and_cell none (some false) = some false
and_cell none (some true) = none
and_cell none none = none

unfoldable pub or_cell : Option Bool → Option Bool → Option Bool
or_cell (some true) b = some true
or_cell (some false) (some b) = some b
or_cell (some false) none = none
or_cell none (some true) = some true
or_cell none (some false) = none
or_cell none none = none

-- A comparison of two cells: a NULL compares false.
abbrev pub compare_cell {ℓ} : {A : Type ℓ} → (A → A → Bool) → Option A → Option A → Option Bool
compare_cell test (some x) (some y) = some (test x y)
compare_cell test _ _ = some false

unfoldable pub is_string_type : DataType → Bool
is_string_type DataType.utf8 = true
is_string_type DataType.large_utf8 = true
is_string_type DataType.utf8_view = true
is_string_type (DataType.dictionary key value) = is_string_type value
is_string_type _ = false

unfoldable pub compare_texts : BinOp → Text → Text → Bool
unfolding text_eq text_lt
compare_texts BinOp.eq s t = text_eq s t
compare_texts BinOp.ne s t = not (text_eq s t)
compare_texts BinOp.lt s t = text_lt s t
compare_texts BinOp.le s t = not (text_lt t s)
compare_texts BinOp.gt s t = text_lt t s
compare_texts BinOp.ge s t = not (text_lt s t)
compare_texts _ s t = false

module _ {F : Type 0} (k : Kernels F) where
  abbrev pub compare_floats : BinOp → F → F → Bool
  compare_floats BinOp.eq x y = k.floats.eq x y
  compare_floats BinOp.ne x y = not (k.floats.eq x y)
  compare_floats BinOp.lt x y = k.floats.lt x y
  compare_floats BinOp.le x y = k.floats.le x y
  compare_floats BinOp.gt x y = k.floats.lt y x
  compare_floats BinOp.ge x y = k.floats.le y x
  compare_floats _ x y = false

  -- The arithmetic of two cells: NULL if one of them is, and for a division by zero.
  abbrev pub float_op : BinOp → F → F → Option F
  float_op BinOp.add x y = some (k.floats.add x y)
  float_op BinOp.sub x y = some (k.floats.sub x y)
  float_op BinOp.mul x y = some (k.floats.mul x y)
  float_op _ x y = if k.floats.eq y k.floats.zero then none else some (k.floats.div x y)

  abbrev pub float_cell : BinOp → Option F → Option F → Option F
  float_cell op (some x) (some y) = float_op op x y
  float_cell op _ _ = none

  unfoldable pub arithmetic : BinOp → Array F → Array F → Result (EvalError F) (Array F)
  unfolding to_float64 zip_with
  arithmetic op l r =
      then_ok (to_float64 k l)
        λ lf. then_ok (to_float64 k r) λ rf. ok (float64_array (zip_with (float_cell op) lf rf))

  unfoldable pub logical :
      (Option Bool → Option Bool → Option Bool) → Array F → Array F → Result (EvalError F) (Array F)
  unfolding to_boolean zip_with
  logical cell l r =
      then_ok (to_boolean k l)
        λ lb. then_ok (to_boolean k r) λ rb. ok (boolean_array (zip_with cell lb rb))

  unfoldable pub compare_as_strings : BinOp → Array F → Array F → Result (EvalError F) (Array F)
  unfolding to_string_array zip_with compare_texts
  compare_as_strings op l r = then_ok (to_string_array k l) λ ls.
      then_ok (to_string_array k r)
        λ rs. ok (boolean_array (zip_with (compare_cell (compare_texts op)) ls rs))

  unfoldable pub compare_as_floats : BinOp → Array F → Array F → Result (EvalError F) (Array F)
  unfolding to_float64 zip_with
  compare_as_floats op l r = then_ok (to_float64 k l) λ lf.
      then_ok (to_float64 k r)
        λ rf. ok (boolean_array (zip_with (compare_cell (compare_floats op)) lf rf))

  -- The first result, or the second one if the first is an error.
  abbrev pub or_else {ℓ} : {E : Type 0} {A : Type ℓ} → Result E A → Result E A → Result E A
  or_else (ok a) second = ok a
  or_else (err e) second = second
  or_else out_of_fuel second = out_of_fuel

  unfoldable pub eval_comparison : BinOp → Array F → Array F → Result (EvalError F) (Array F)
  unfolding is_string_type compare_as_strings compare_as_floats
  eval_comparison op l r =
      if is_string_type l.data_type && is_string_type r.data_type
      then compare_as_strings op l r
      else or_else (compare_as_floats op l r) (compare_as_strings op l r)

  unfoldable pub eval_binop : BinOp → Array F → Array F → Result (EvalError F) (Array F)
  unfolding arithmetic logical and_cell or_cell eval_comparison
  eval_binop BinOp.add = arithmetic BinOp.add
  eval_binop BinOp.sub = arithmetic BinOp.sub
  eval_binop BinOp.mul = arithmetic BinOp.mul
  eval_binop BinOp.div = arithmetic BinOp.div
  eval_binop BinOp.and = logical and_cell
  eval_binop BinOp.or = logical or_cell
  eval_binop op = eval_comparison op

  unfoldable pub eval_unary : UnaryOp → Array F → Result (EvalError F) (Array F)
  unfolding to_float64 to_boolean
  eval_unary UnaryOp.neg a =
      then_ok (to_float64 k a) λ f. ok (float64_array (map (map_option k.floats.neg) f))
  eval_unary UnaryOp.not a =
      then_ok (to_boolean k a) λ b. ok (boolean_array (map (map_option not) b))
