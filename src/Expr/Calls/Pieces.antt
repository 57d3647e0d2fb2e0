-- ===== src/Expr/Calls/Pieces.antt =====
-- common/src/transform/expr/eval.rs: the operations that the functions are made of keep the number of
-- rows.
use potato_etl.Base.{
  arith, ℕ, zero, suc, ◌≡◌, ◌∙◌, Option, none, some, List, [], ◌∷◌, Text, codes, map, length,
  length-map, length-replicate, replicate, All, Result, ok_or, Ensures, holds, fails, Ensures-then,
  Ensures-if, Ensures-ok_or, Bool, ◌>>=◌,
}
use potato_etl.Base.Int.{ℤ, pos}
use potato_etl.Arrow.TypeNames.{parse_arrow_type}
use potato_etl.Arrow.{Array, Scalar, DataType, TimeUnit, Kernels}
use potato_etl.Expr.Syntax.{Expr}
use potato_etl.Expr.Arrays.{
  timestamp_array, EvalError, first_cell, lift, map_option, array_of, to_string_array,
}
use potato_etl.Expr.Temporal.{first_some}
use potato_etl.Expr.Functions.{
  first_rows, by_rows, split_heads, collect_ok, valid, first_valid, to_micros,
}
use potato_etl.Expr.Calls.{
  or_empty, choose, on_texts, row_mask, literal_regex, literal_text, literal_length, coalesce_same,
  rows_of_texts, coalesce_arrays, pick_rows, if_null, json_get, target_type, epoch_to_timestamp,
}
use potato_etl.Expr.Lengths.{
  length-push_value, length-zip_with, HasRows, HasLength, array_of-HasRows, Ensures-lift,
  to_string_array-HasLength, to_int64-HasLength, zipped-HasRows, mapped-HasRows,
}

length-first_rows :
    {A : Type 0} (n : ℕ) (values rows : List A) → first_rows n values ≡ some rows → length rows ≡ n
unfolding first_rows
length-first_rows zero values rows h = grind arith
length-first_rows (suc n) [] rows h = cc
length-first_rows (suc n) (v ∷ values) rows h =
    length-push_value (first_rows n values) v (length-first_rows n values) h

-- A row made of the heads, in front of the rows made of the tails.
length-push_row :
    {A B : Type 0} {n : ℕ} (f : List A → B) (split : Option (List A × List (List A)))
    {rows : List B}
    → ((parts : List (List A)) (vs : List B) → by_rows n f parts ≡ some vs → length vs ≡ n)
    → (split >>= λ (heads, tails). map_option (◌∷◌ (f heads)) (by_rows n f tails)) ≡ some rows
    → length rows ≡ suc n
length-push_row f none ih h = cc
length-push_row {n} f (some (heads, tails)) ih h =
    length-push_value (by_rows n f tails) (f heads) (ih tails) h

pub length-by_rows :
    {A B : Type 0} (n : ℕ) (f : List A → B) (parts : List (List A)) (rows : List B)
    → by_rows n f parts ≡ some rows
    → length rows ≡ n
unfolding by_rows
length-by_rows zero f parts rows h = grind arith
length-by_rows (suc n) f parts rows h = length-push_row f (split_heads parts) (length-by_rows n f) h

-- A result that is a value or an error of the program.
abbrev pub Ends {ℓ} : {F : Type 0} {A : Type ℓ} → Result (EvalError F) A → Type ℓ
Ends r = Ensures {ℓ, 0} (λ _. Unit) r

pub Ends-ok_or {ℓ} : {F : Type 0} {A : Type ℓ} (e : EvalError F) (o : Option A) → Ends (ok_or e o)
Ends-ok_or e o = Ensures-ok_or e o λ _ _. tt

pub collect_ok-All {ℓ} :
    {E A : Type 0} {P : A → Type ℓ} (rs : List (Result E A))
    → All (Ensures P) rs
    → Ensures (All P) (collect_ok rs)
unfolding collect_ok
collect_ok-All [] hs = holds tt
collect_ok-All (r ∷ rs) (h, hs) =
    Ensures-then h λ a ha. Ensures-then (collect_ok-All rs hs) λ as_ has. holds (ha, has)

module _ {F : Type 0} (k : Kernels F) where
  pub Ends-literal_text : (e : Expr F) → Ends (literal_text k e)
  unfolding literal_text
  Ends-literal_text (Expr.str s) = holds tt
  Ends-literal_text _ = fails

  pub Ends-literal_length : (e : Expr F) → Ends (literal_length k e)
  unfolding literal_length
  Ends-literal_length (Expr.int (pos n)) = holds tt
  Ends-literal_length _ = fails

  pub Ends-literal_regex :
      {A : Type 0} (compile : Text → Option A) (e : Expr F) → Ends (literal_regex k compile e)
  unfolding literal_regex
  Ends-literal_regex compile (Expr.str s) = Ends-ok_or _ (compile s)
  Ends-literal_regex compile _ = fails

  pub Ends-first_cell {ℓ} : {A : Type ℓ} (xs : List A) → Ends (first_cell k xs)
  Ends-first_cell [] = fails
  Ends-first_cell (x ∷ xs) = holds tt

  pub Ends-target_type :
      {n : ℕ} (e : Expr F) (value : Result (EvalError F) (Array F))
      → Ensures (HasRows n) value
      → Ends (target_type k e value)
  unfolding target_type
  Ends-target_type (Expr.str s) value h = Ends-ok_or _ (parse_arrow_type k.strings s)
  Ends-target_type _ value h = Ensures-then h λ a ha.
      Ensures-then (to_string_array-HasLength k a ha) λ s _.
        Ensures-then (Ends-first_cell s)
          λ v _. Ends-ok_or _ (parse_arrow_type k.strings (or_empty v))

  All-texts :
      (n : ℕ) (arrs : List (Array F))
      → All (HasRows n) arrs
      → All (Ensures (HasLength n)) (map (to_string_array k) arrs)
  All-texts n [] hs = tt
  All-texts n (a ∷ arrs) (h, hs) = (to_string_array-HasLength k a h, All-texts n arrs hs)

  pub results-All :
      (n : ℕ) (args : List (Expr F × Result (EvalError F) (Array F)))
      → All (λ (e, r). Ensures (HasRows n) r) args
      → All (Ensures (HasRows n)) (map (λ (e, r). r) args)
  results-All n [] hs = tt
  results-All n ((e, r) ∷ args) (h, hs) = (h, results-All n args hs)

  module _ {n : ℕ} where
    pub row_mask-HasLength :
        {A : Type 0} (test : A → Bool) (values : List A)
        → Ensures (HasLength n) (row_mask k n test values)
    unfolding row_mask
    row_mask-HasLength test values =
        Ensures-then (Ensures-ok_or _ (first_rows n values) (length-first_rows n values))
          λ rows h. holds (length-map rows test ∙ h)

    pub on_texts-HasRows {ℓ} :
        {A : Type ℓ} (t : DataType) (g : A → Scalar F) (cell : Option Text → Option A)
        (value : Result (EvalError F) (Array F))
        → Ensures (HasRows n) value
        → Ensures (HasRows n) (on_texts k (λ s. array_of t g (map cell s)) value)
    unfolding on_texts
    on_texts-HasRows t g cell value h =
        Ensures-then h λ a ha. mapped-HasRows k t g cell (to_string_array-HasLength k a ha)

    zip-HasRows :
        (mask : List Bool) (a b : Array F)
        → HasLength n mask
        → Ensures (HasRows n) (lift {F = F} (k.zip mask a b))
    zip-HasRows mask a b h = Ensures-lift (k.zip mask a b) λ c e. k.zip_length mask a b c e ∙ h

    coalesce_same-HasRows :
        (a : Array F) (arrs : List (Array F))
        → All (HasRows n) (a ∷ arrs)
        → Ensures (HasRows n) (coalesce_same k n a arrs)
    unfolding coalesce_same
    coalesce_same-HasRows a [] (h, _) = holds h
    coalesce_same-HasRows a (b ∷ arrs) (h, hs) =
        Ensures-then (coalesce_same-HasRows b arrs hs) λ result _.
          Ensures-then (row_mask-HasLength valid a.cells) λ mask hm. zip-HasRows mask a result hm

    pub rows_of_texts-HasRows :
        (row : List (Option Text) → Option Text) (arrs : List (Array F))
        → All (HasRows n) arrs
        → Ensures (HasRows n) (rows_of_texts k n row arrs)
    unfolding rows_of_texts
    rows_of_texts-HasRows row arrs hs =
        Ensures-then (collect_ok-All _ (All-texts n arrs hs)) λ strs _.
          Ensures-then (Ensures-ok_or _ (by_rows n row strs) (length-by_rows n row strs))
            λ values hv. holds (array_of-HasRows DataType.utf8 Scalar.text values hv)

    pub coalesce_arrays-HasRows :
        (arrs : List (Array F))
        → All (HasRows n) arrs
        → Ensures (HasRows n) (coalesce_arrays k n arrs)
    unfolding coalesce_arrays
    coalesce_arrays-HasRows [] hs = fails
    coalesce_arrays-HasRows (a ∷ arrs) hs =
        Ensures-if _ (λ _. coalesce_same-HasRows a arrs hs)
          (λ _. rows_of_texts-HasRows first_valid (a ∷ arrs) hs)

    pub pick_rows-HasRows :
        (mask : List Bool) (a b : Array F)
        → HasLength n mask
        → HasRows n a
        → HasRows n b
        → Ensures (HasRows n) (pick_rows k mask a b)
    unfolding pick_rows
    pick_rows-HasRows mask a b hm ha hb =
        Ensures-if (k.same_type a.data_type b.data_type) (λ _. zip-HasRows mask a b hm)
          (λ _. Ensures-then (to_string_array-HasLength k a ha) λ xs hx.
            Ensures-then (to_string_array-HasLength k b hb) λ ys hy. holds (
              array_of-HasRows DataType.utf8 Scalar.text _
                (length-zip_with choose mask _ hm (length-zip_with (λ x y. (x, y)) xs ys hx hy))))

    pub if_null-HasRows :
        (a def : Array F) → HasRows n a → HasRows n def → Ensures (HasRows n) (if_null k n a def)
    unfolding if_null
    if_null-HasRows a def ha hd =
        Ensures-if (k.same_type a.data_type def.data_type)
          (λ _.
            Ensures-then (row_mask-HasLength valid a.cells) λ mask hm. zip-HasRows mask a def hm)
          (λ _. Ensures-then (to_string_array-HasLength k a ha) λ xs hx.
            Ensures-then (to_string_array-HasLength k def hd) λ ys hy. holds (
              array_of-HasRows DataType.utf8 Scalar.text _
                (length-zip_with first_some xs ys hx hy)))

    pub json_get-HasRows :
        (a b : Array F) → HasRows n a → HasRows n b → Ensures (HasRows n) (json_get k a b)
    unfolding json_get
    json_get-HasRows a b ha hb =
        zipped-HasRows k _ _ _ (to_string_array-HasLength k a ha) (to_string_array-HasLength k b hb)

    pub epoch_to_timestamp-HasRows :
        (a : Array F) (unit : Text)
        → HasRows n a
        → Ensures (HasRows n) (epoch_to_timestamp k a unit)
    unfolding epoch_to_timestamp
    epoch_to_timestamp-HasRows a unit h = Ensures-then (to_int64-HasLength k a h) λ values hv.
        Ensures-then (Ends-ok_or _ (to_micros unit)) λ f _. holds (
          array_of-HasRows (DataType.timestamp TimeUnit.microsecond (some (codes "UTC"))) Scalar.int
            (map (map_option f) values) (length-map values (map_option f) ∙ hv))

    pub now-HasRows :
        (tz : Option Text) (i : ℤ) → HasRows {F = F} n (timestamp_array tz (replicate n (some i)))
    now-HasRows tz i =
        array_of-HasRows (DataType.timestamp TimeUnit.microsecond tz) Scalar.int
          (replicate n (some i)) (length-replicate n (some i))
