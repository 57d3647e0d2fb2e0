-- ===== src/Expr/Lengths.antt =====
-- common/src/transform/expr/{helpers,eval}.rs: how many rows the casts, the broadcasts and the
-- operators give.
use potato_etl.Base.{
  arith, Option-cases, ℕ, zero, suc, ◌≡◌, refl, sym, ap, ◌∙◌, Option, none, some, List, [], ◌∷◌,
  ◌⊎◌, inl, inr, Text, map, length, length-map, length-replicate, replicate, Result, ok, then_ok,
  ok_or, Ensures, holds, fails, Ensures-then, Ensures-if, Ensures-ok_or,
}
use potato_etl.Arrow.{Array, Scalar, DataType, TimeUnit, Kernels}
use potato_etl.Expr.Syntax.{BinOp, UnaryOp}
use potato_etl.Expr.Arrays.{
  EvalError, lift, map_option, push_value, array_of, downcast, cast_to, to_float64, to_boolean,
  to_string_array, to_int64, as_int, as_text, as_float, as_bool, repeat_first, broadcast_by_type,
  broadcast_array,
}
use potato_etl.Expr.Operators.{
  zip_with, arithmetic, logical, compare_as_strings, compare_as_floats, or_else, eval_comparison,
  eval_binop, eval_unary,
}
use potato_etl.Expr.Temporal.{TemporalPart, parts_by_type, temporal_part}

-- A value in front of the values of the rest.
pub length-push_value {ℓ} :
    {A : Type ℓ} {n : ℕ} (rest : Option (List A)) (v : A) {values : List A}
    → ((vs : List A) → rest ≡ some vs → length vs ≡ n)
    → map_option (◌∷◌ v) rest ≡ some values
    → length values ≡ suc n
length-push_value none v ih h = cc
length-push_value (some vs) v {values} ih h =
    let e : values ≡ v ∷ vs = cc in ap length e ∙ ap suc (ih vs refl)

push_value-map_option {ℓ} :
    {A : Type ℓ} (a : A) (rest : Option (List (Option A)))
    → push_value (some a) rest ≡ map_option (◌∷◌ (some a)) rest
push_value-map_option a none = refl
push_value-map_option a (some vs) = refl

pub length-downcast {ℓ} :
    {F : Type 0} {A : Type ℓ} (f : Scalar F → Option A) (cells : List (Option (Scalar F)))
    (values : List (Option A))
    → downcast f cells ≡ some values
    → length values ≡ length cells
unfolding downcast
length-downcast f [] values h = grind arith
length-downcast f (none ∷ cells) values h =
    length-push_value (downcast f cells) none (length-downcast f cells) h
length-downcast {A} f (some v ∷ cells) values h = elim (Option-cases (f v)) [
  | inl e ↦ cc
  | inr (a, e) ↦ length-push_value (downcast f cells) (some a) (length-downcast f cells) (
      sym (push_value-map_option a (downcast f cells))
      ∙ ap (λ (o : Option A). push_value o (downcast f cells)) (sym e)
      ∙ h)
]

pub length-zip_with {ℓ κ λ'} :
    {A : Type ℓ} {B : Type κ} {C : Type λ'} {n : ℕ} (f : A → B → C) (xs : List A) (ys : List B)
    → length xs ≡ n
    → length ys ≡ n
    → length (zip_with f xs ys) ≡ n
unfolding zip_with
length-zip_with f [] ys hx hy = hx
length-zip_with f (x ∷ xs) [] hx hy = hy
length-zip_with {n = zero} f (x ∷ xs) (y ∷ ys) hx hy = omega arith
length-zip_with {n = suc n} f (x ∷ xs) (y ∷ ys) hx hy =
    ap suc (length-zip_with f xs ys (omega arith) (omega arith))

-- An array of `n` rows.
abbrev pub HasRows : {F : Type 0} → ℕ → Array F → Type 0
HasRows n a = length a.cells ≡ n

abbrev pub HasLength {ℓ} : {A : Type ℓ} → ℕ → List A → Type 0
HasLength n xs = length xs ≡ n

pub array_of-HasRows {ℓ} :
    {F : Type 0} {A : Type ℓ} {n : ℕ} (t : DataType) (f : A → Scalar F) (values : List (Option A))
    → HasLength n values
    → HasRows n (array_of t f values)
array_of-HasRows t f values h = length-map values (map_option f) ∙ h

module _ {F : Type 0} where
  pub Ensures-lift :
      {P : Array F → Type 0} (r : Text ⊎ Array F)
      → ((a : Array F) → r ≡ inr a → P a)
      → Ensures P (lift {F = F} r)
  Ensures-lift (inl e) h = fails
  Ensures-lift (inr a) h = holds (h a refl)

  pub or_else-HasRows :
      (k : Kernels F) {P : Array F → Type 0} {r s : Result (EvalError F) (Array F)}
      → Ensures P r
      → Ensures P s
      → Ensures P (or_else k r s)
  or_else-HasRows k (holds h) hs = holds h
  or_else-HasRows k fails hs = hs

module _ {F : Type 0} {n : ℕ} (k : Kernels F) where
  pub cast-HasRows :
      (a : Array F) (t : DataType) → HasRows n a → Ensures (HasRows n) (lift {F = F} (k.cast a t))
  cast-HasRows a t h = Ensures-lift (k.cast a t) λ b e. k.cast_length a t b e ∙ h

  pub downcast-HasLength {ℓ} :
      {A : Type ℓ} (f : Scalar F → Option A) (cells : List (Option (Scalar F)))
      → HasLength n cells
      → Ensures {E = EvalError F} (HasLength n) (ok_or EvalError.downcast_failed (downcast f cells))
  downcast-HasLength f cells h =
      Ensures-ok_or EvalError.downcast_failed (downcast f cells)
        λ vs e. length-downcast f cells vs e ∙ h

  pub cast_to-HasLength {ℓ} :
      {A : Type ℓ} (t : DataType) (f : Scalar F → Option A) (a : Array F)
      → HasRows n a
      → Ensures (HasLength n) (cast_to k t f a)
  unfolding cast_to
  cast_to-HasLength t f a h =
      Ensures-then (cast-HasRows a t h) λ b hb. downcast-HasLength f b.cells hb

  pub to_float64-HasLength : (a : Array F) → HasRows n a → Ensures (HasLength n) (to_float64 k a)
  unfolding to_float64
  to_float64-HasLength = cast_to-HasLength DataType.float64 as_float

  pub to_boolean-HasLength : (a : Array F) → HasRows n a → Ensures (HasLength n) (to_boolean k a)
  unfolding to_boolean
  to_boolean-HasLength = cast_to-HasLength DataType.boolean as_bool

  pub to_string_array-HasLength :
      (a : Array F) → HasRows n a → Ensures (HasLength n) (to_string_array k a)
  unfolding to_string_array
  to_string_array-HasLength = cast_to-HasLength DataType.utf8 as_text

  pub to_int64-HasLength : (a : Array F) → HasRows n a → Ensures (HasLength n) (to_int64 k a)
  unfolding to_int64
  to_int64-HasLength = cast_to-HasLength DataType.int64 as_int

  -- Two arrays made values, and an array made of them row by row.
  pub zipped-HasRows {ℓ κ} :
      {A B : Type ℓ} {C : Type κ} (t : DataType) (g : C → Scalar F)
      (cell : Option A → Option B → Option C) {left : Result (EvalError F) (List (Option A))}
      {right : Result (EvalError F) (List (Option B))}
      → Ensures (HasLength n) left
      → Ensures (HasLength n) right
      → Ensures
          (HasRows n)
          (then_ok left λ xs. then_ok right λ ys. ok (array_of t g (zip_with cell xs ys)))
  zipped-HasRows t g cell hl hr = Ensures-then hl λ xs hx.
      Ensures-then hr λ ys hy.
        holds (array_of-HasRows t g (zip_with cell xs ys) (length-zip_with cell xs ys hx hy))

  -- An array made values, and an array made of them.
  pub mapped-HasRows {ℓ κ} :
      {A : Type ℓ} {C : Type κ} (t : DataType) (g : C → Scalar F) (cell : Option A → Option C)
      {values : Result (EvalError F) (List (Option A))}
      → Ensures (HasLength n) values
      → Ensures (HasRows n) (then_ok values λ xs. ok (array_of t g (map cell xs)))
  mapped-HasRows t g cell h =
      Ensures-then h λ xs hx. holds (array_of-HasRows t g (map cell xs) (length-map xs cell ∙ hx))

  pub eval_comparison-HasRows :
      (op : BinOp) (l r : Array F)
      → HasRows n l
      → HasRows n r
      → Ensures (HasRows n) (eval_comparison k op l r)
  unfolding eval_comparison compare_as_strings compare_as_floats
  eval_comparison-HasRows op l r hl hr =
      let texts =
        zipped-HasRows _ _ _ (to_string_array-HasLength l hl) (to_string_array-HasLength r hr) in
      let floats = zipped-HasRows _ _ _ (to_float64-HasLength l hl) (to_float64-HasLength r hr) in
      Ensures-if _ (λ _. texts) (λ _. or_else-HasRows k floats texts)

  pub eval_binop-HasRows :
      (op : BinOp) (l r : Array F)
      → HasRows n l
      → HasRows n r
      → Ensures (HasRows n) (eval_binop k op l r)
  unfolding eval_binop arithmetic logical
  eval_binop-HasRows BinOp.add l r hl hr =
      zipped-HasRows _ _ _ (to_float64-HasLength l hl) (to_float64-HasLength r hr)
  eval_binop-HasRows BinOp.sub l r hl hr =
      zipped-HasRows _ _ _ (to_float64-HasLength l hl) (to_float64-HasLength r hr)
  eval_binop-HasRows BinOp.mul l r hl hr =
      zipped-HasRows _ _ _ (to_float64-HasLength l hl) (to_float64-HasLength r hr)
  eval_binop-HasRows BinOp.div l r hl hr =
      zipped-HasRows _ _ _ (to_float64-HasLength l hl) (to_float64-HasLength r hr)
  eval_binop-HasRows BinOp.and l r hl hr =
      zipped-HasRows _ _ _ (to_boolean-HasLength l hl) (to_boolean-HasLength r hr)
  eval_binop-HasRows BinOp.or l r hl hr =
      zipped-HasRows _ _ _ (to_boolean-HasLength l hl) (to_boolean-HasLength r hr)
  eval_binop-HasRows BinOp.eq l r hl hr = eval_comparison-HasRows BinOp.eq l r hl hr
  eval_binop-HasRows BinOp.ne l r hl hr = eval_comparison-HasRows BinOp.ne l r hl hr
  eval_binop-HasRows BinOp.lt l r hl hr = eval_comparison-HasRows BinOp.lt l r hl hr
  eval_binop-HasRows BinOp.le l r hl hr = eval_comparison-HasRows BinOp.le l r hl hr
  eval_binop-HasRows BinOp.gt l r hl hr = eval_comparison-HasRows BinOp.gt l r hl hr
  eval_binop-HasRows BinOp.ge l r hl hr = eval_comparison-HasRows BinOp.ge l r hl hr

  pub eval_unary-HasRows :
      (op : UnaryOp) (a : Array F) → HasRows n a → Ensures (HasRows n) (eval_unary k op a)
  unfolding eval_unary
  eval_unary-HasRows UnaryOp.neg a h = mapped-HasRows _ _ _ (to_float64-HasLength a h)
  eval_unary-HasRows UnaryOp.not a h = mapped-HasRows _ _ _ (to_boolean-HasLength a h)

  pub parts_by_type-HasRows :
      (part : TemporalPart) (t : DataType) (a : Array F)
      → HasRows n a
      → Ensures (HasRows n) (parts_by_type k part t a)
  unfolding parts_by_type
  parts_by_type-HasRows part (DataType.timestamp unit tz) a h =
      mapped-HasRows _ _ _ (cast_to-HasLength _ _ a h)
  parts_by_type-HasRows part DataType.date32 a h =
      mapped-HasRows _ _ _ (downcast-HasLength _ a.cells h)
  parts_by_type-HasRows part DataType.date64 a h =
      mapped-HasRows _ _ _ (downcast-HasLength _ a.cells h)
  parts_by_type-HasRows part _ a h = mapped-HasRows _ _ _ (to_string_array-HasLength a h)

  pub repeat_first-HasRows {ℓ} :
      {A : Type ℓ} {m : ℕ} {values : Result (EvalError F) (List (Option A))} (t : DataType)
      (g : A → Scalar F)
      → Ensures (HasLength m) values
      → Ensures (HasRows n) (repeat_first k n (array_of t g) values)
  repeat_first-HasRows t g (holds {a = []} h) = fails
  repeat_first-HasRows t g (holds {a = v ∷ vs} h) =
      holds (array_of-HasRows t g (replicate n v) (length-replicate n v))
  repeat_first-HasRows t g fails = fails

module _ {F : Type 0} (k : Kernels F) where
  broadcast_by_type-HasRows :
      (t : DataType) (a : Array F) (n : ℕ) → Ensures (HasRows n) (broadcast_by_type k t a n)
  unfolding broadcast_by_type
  broadcast_by_type-HasRows (DataType.timestamp TimeUnit.microsecond tz) a n =
      repeat_first-HasRows k _ _ (cast_to-HasLength k _ _ a refl)
  broadcast_by_type-HasRows (DataType.timestamp _ tz) a n =
      Ensures-then (cast-HasRows k a _ refl) λ _ _. fails
  broadcast_by_type-HasRows DataType.float64 a n =
      repeat_first-HasRows k _ _ (downcast-HasLength k _ a.cells refl)
  broadcast_by_type-HasRows DataType.int64 a n =
      repeat_first-HasRows k _ _ (downcast-HasLength k _ a.cells refl)
  broadcast_by_type-HasRows DataType.int32 a n =
      repeat_first-HasRows k _ _ (downcast-HasLength k _ a.cells refl)
  broadcast_by_type-HasRows DataType.boolean a n =
      repeat_first-HasRows k _ _ (downcast-HasLength k _ a.cells refl)
  broadcast_by_type-HasRows _ a n = repeat_first-HasRows k _ _ (to_string_array-HasLength k a refl)

  pub broadcast_array-HasRows : (a : Array F) (n : ℕ) → Ensures (HasRows n) (broadcast_array k a n)
  unfolding broadcast_array
  broadcast_array-HasRows a zero = holds refl
  broadcast_array-HasRows a (suc n) = broadcast_by_type-HasRows a.data_type a (suc n)

  pub temporal_part-HasRows :
      {n : ℕ} (part : TemporalPart) (value : Result (EvalError F) (Array F))
      → Ensures (HasRows n) value
      → Ensures (HasRows n) (temporal_part k part (value ∷ []))
  unfolding temporal_part
  temporal_part-HasRows part value h =
      Ensures-then h λ a ha. parts_by_type-HasRows k part a.data_type a ha
