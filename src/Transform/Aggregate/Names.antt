-- ===== src/Transform/Aggregate/Names.antt =====
-- common/src/transform/aggregate.rs: the names of the columns of one group, and the length of its key.
use potato_etl.Base.{
  ℕ, zero, suc, ◌≡◌, refl, sym, subst, ap, ◌∙◌, Bool, true, false, Option, none, some, List, [],
  ◌∷◌, Text, text_eq, map, length, get_elem?, All, ◌⊎◌, inl, inr, if◌then◌else◌, Result, ok_or,
  Ensures, holds, fails, Ensures-then, Ensures-ok_or, Option-cases, Bool-cases, arith,
}
use potato_etl.Arrow.{Array, RecordBatch, DataType, Kernels}
use potato_etl.Expr.Arrays.{downcast, as_float, as_text}
use potato_etl.Expr.Eval.{find_column}
use potato_etl.Expr.Functions.{by_rows, split_heads, collect_ok}
use potato_etl.Transform.Grouping.{AggFunc, Metric, GroupKey, Groups, key_eq, push_row, group_from}
use potato_etl.Transform.Metrics.{
  rows_at, find_valid, floats_of, int64_values, is_numeric, best_of_texts, best_of_numbers,
  agg_min_max, get_col, get_col_float, AggError, lift_agg,
}
use potato_etl.Transform.Map.Outcome.{column_names}
use potato_etl.Transform.Aggregate.{compute_by, key_columns}

-- A result that is a value or an error of the program.
abbrev pub Ends {ℓ} : {E : Type 0} {A : Type ℓ} → Result E A → Type ℓ
Ends r = Ensures {ℓ, 0} (λ _. Unit) r

abbrev pub HasColumns : {F : Type 0} → List Text → RecordBatch F → Type 0
HasColumns names batch = column_names batch.columns ≡ names

pub Ends-ok_or {ℓ} : {E : Type 0} {A : Type ℓ} (e : E) (o : Option A) → Ends (ok_or e o)
Ends-ok_or e o = Ensures-ok_or e o λ _ _. tt

pub Ensures-lift_agg {ℓ} :
    {A : Type 0} {P : A → Type ℓ} (r : Text ⊎ A)
    → ((a : A) → r ≡ inr a → P a)
    → Ensures P (lift_agg r)
Ensures-lift_agg (inl e) h = fails
Ensures-lift_agg (inr a) h = holds (h a refl)

pub Ends-lift_agg : {A : Type 0} (r : Text ⊎ A) → Ends (lift_agg r)
Ends-lift_agg r = Ensures-lift_agg r λ _ _. tt

-- Collected values correspond to what they are computed from.
pub Ensures-collect_ok :
    {E A B C : Type 0} (f : A → Result E B) (g : A → C) (h : B → C)
    → ((a : A) → Ensures (λ b. h b ≡ g a) (f a))
    → (xs : List A) → Ensures (λ bs. map h bs ≡ map g xs) (collect_ok (map f xs))
unfolding collect_ok
Ensures-collect_ok f g h q [] = holds refl
Ensures-collect_ok {B} {C} f g h q (x ∷ xs) = Ensures-then (q x) λ b hb.
    Ensures-then (Ensures-collect_ok f g h q xs)
      λ bs hbs. holds (ap (λ (c : C). c ∷ map h bs) hb ∙ ap (◌∷◌ (g x)) hbs)

-- The keys have a part for each of the columns.
abbrev pub AllLength : ℕ → Groups → Type 0
AllLength n groups = All (λ (key, rows). length key ≡ n) groups

-- The first values of lists, and the rest of them: as many as there are lists.
length-split_heads :
    {A : Type 0} (parts : List (List A)) (heads : List A) (tails : List (List A))
    → split_heads parts ≡ some (heads, tails)
    → (length heads ≡ length parts) × (length tails ≡ length parts)
unfolding split_heads
length-split_heads [] heads tails h = (grind arith, grind arith)
length-split_heads ([] ∷ parts) heads tails h = cc
length-split_heads {A} ((v ∷ values) ∷ parts) heads tails h =
    elim (Option-cases (split_heads parts)) [
      | inl e ↦ let no = rw (split_heads, e) at h in cc
      | inr ((hs, ts), e) ↦
          let (lh, lt) = length-split_heads parts hs ts e in
          let yes = rw (split_heads, e) at h in
          let eh : v ∷ hs ≡ heads = cc in
          let et : values ∷ ts ≡ tails = cc in
          (sym (ap length eh) ∙ ap suc lh, sym (ap length et) ∙ ap suc lt)
    ]

pub by_rows-All :
    {A B : Type 0} (P : B → Type 0) (m n : ℕ) (f : List A → B) (parts : List (List A))
    (rows : List B)
    → ((heads : List A) → length heads ≡ m → P (f heads))
    → length parts ≡ m
    → by_rows n f parts ≡ some rows
    → All P rows
unfolding by_rows
by_rows-All P m zero f parts rows q hm h = let same : [] ≡ rows = cc in subst (All P) same tt
by_rows-All P m (suc n) f parts rows q hm h = elim (Option-cases (split_heads parts)) [
  | inl e ↦ let no = rw (by_rows, e) at h in cc
  | inr ((heads, tails), e) ↦
      let (lh, lt) = length-split_heads parts heads tails e in
      elim (Option-cases (by_rows n f tails)) [
        | inl none_left ↦ let no = rw (by_rows, e, none_left) at h in cc
        | inr (vs, left) ↦
            let yes = rw (by_rows, e, left) at h in
            let same : f heads ∷ vs ≡ rows = cc in
            subst (All P) same (q heads (lh ∙ hm), by_rows-All P m n f tails vs q (lt ∙ hm) left)
      ]
]

push_row-AllLength :
    {n : ℕ} (key : GroupKey) (row : ℕ) (groups : Groups)
    → length key ≡ n
    → AllLength n groups
    → AllLength n (push_row key row groups)
unfolding push_row
push_row-AllLength key row [] h hs = (h, tt)
push_row-AllLength key row ((k, rows) ∷ groups) h (hk, hs) = elim (Bool-cases (key_eq key k)) [
  | inl e ↦ rw e (hk, hs)
  | inr e ↦ rw e (hk, push_row-AllLength key row groups h hs)
]

pub group_from-AllLength :
    (n row : ℕ) (keys : List GroupKey) (groups : Groups)
    → All (λ (key : GroupKey). length key ≡ n) keys
    → AllLength n groups
    → AllLength n (group_from row keys groups)
unfolding group_from
group_from-AllLength n row [] groups hk hs = hs
group_from-AllLength n row (key ∷ keys) groups (h, hk) hs =
    group_from-AllLength n (suc row) keys (push_row key row groups) hk
      (push_row-AllLength key row groups h hs)

Ends-rows_at : {A : Type 0} (row_idx : List ℕ) (values : List A) → Ends (rows_at row_idx values)
unfolding rows_at
Ends-rows_at [] values = holds tt
Ends-rows_at (i ∷ row_idx) values =
    Ensures-then (Ends-ok_or _ (get_elem? values i))
      λ v _. Ensures-then (Ends-rows_at row_idx values) λ rest _. holds tt

Ends-find_valid :
    {A : Type 0} (row_idx : List ℕ) (cells : List (Option A)) → Ends (find_valid row_idx cells)
unfolding find_valid
Ends-find_valid [] cells = holds tt
Ends-find_valid (i ∷ row_idx) cells = elim (Option-cases (get_elem? cells i)) [
  | inl e ↦ rw (find_valid, e) fails
  | inr (none, e) ↦ rw (find_valid, e) (Ends-find_valid row_idx cells)
  | inr (some v, e) ↦ rw (find_valid, e) (holds tt)
]

module _ {F : Type 0} (k : Kernels F) where
  pub Ends-get_col : (batch : RecordBatch F) (col : Text) → Ends (get_col k batch col)
  unfolding get_col
  Ends-get_col batch col =
      Ends-ok_or (AggError.column_not_found col) (find_column (text_eq col) batch.columns)

  pub key_columns-names :
      (batch : RecordBatch F) (cols : List Text) (key : GroupKey)
      → length key ≡ length cols
      → Ensures (λ columns. column_names columns ≡ cols) (key_columns k batch cols key)
  unfolding key_columns
  key_columns-names batch [] key h = holds refl
  key_columns-names batch (col ∷ cols) [] h = grind arith
  key_columns-names batch (col ∷ cols) (part ∷ key) h =
      Ensures-then (Ends-get_col batch col) λ arr _.
        Ensures-then (key_columns-names batch cols key (omega arith))
          λ rest hr. holds (ap (◌∷◌ col) hr)

  Ends-get_col_float :
      (batch : RecordBatch F) (col : Text) (row_idx : List ℕ)
      → Ends (get_col_float k batch col row_idx)
  unfolding get_col_float
  Ends-get_col_float batch col row_idx = Ensures-then (Ends-get_col batch col) λ arr _.
      Ensures-then (Ends-lift_agg (k.cast arr DataType.float64)) λ b _.
        Ensures-then (Ends-ok_or AggError.downcast_failed (downcast as_float b.cells))
          λ values _. Ends-rows_at row_idx values

  Ends-best_of_texts :
      (arr : Array F) (row_idx : List ℕ) (want_max : Bool)
      → Ends (best_of_texts k arr row_idx want_max)
  unfolding best_of_texts
  Ends-best_of_texts arr row_idx want_max =
      Ensures-then (Ends-lift_agg (k.cast arr DataType.utf8)) λ b _.
        Ensures-then (Ends-ok_or AggError.downcast_failed (downcast as_text b.cells))
          λ texts _. Ensures-then (Ends-rows_at row_idx texts) λ values _. holds tt

  Ends-best_of_numbers :
      (arr : Array F) (row_idx : List ℕ) (want_max : Bool)
      → Ends (best_of_numbers k arr row_idx want_max)
  unfolding best_of_numbers
  Ends-best_of_numbers arr row_idx want_max =
      elim (Option-cases (if is_numeric arr.data_type then floats_of k arr else none)) [
        | inl e ↦ rw (best_of_numbers, e) (Ends-best_of_texts arr row_idx want_max)
        | inr (floats, e) ↦
            rw (best_of_numbers, e)
              (Ensures-then (Ends-rows_at row_idx floats) λ values _. holds tt)
      ]

  Ends-agg_min_max :
      (arr : Array F) (row_idx : List ℕ) (want_max : Bool)
      → Ends (agg_min_max k arr row_idx want_max)
  unfolding agg_min_max
  Ends-agg_min_max arr row_idx want_max = elim (Option-cases (int64_values k arr.data_type arr)) [
    | inl e ↦ rw (agg_min_max, e) (Ends-best_of_numbers arr row_idx want_max)
    | inr (ints, e) ↦
        rw (agg_min_max, e) (Ensures-then (Ends-rows_at row_idx ints) λ values _. holds tt)
  ]

  pub compute_by-name :
      (func : AggFunc) (batch : RecordBatch F) (m : Metric) (row_idx : List ℕ)
      → Ensures (λ (f, a). f.name ≡ m.output_col) (compute_by k func batch m row_idx)
  unfolding compute_by
  compute_by-name AggFunc.count batch m row_idx = holds refl
  compute_by-name AggFunc.count_col batch m row_idx =
      Ensures-then (Ends-ok_or (AggError.argument_required m.output_col) m.arg) λ col _.
        Ensures-then (Ends-get_col batch col)
          λ arr _. Ensures-then (Ends-rows_at row_idx arr.cells) λ cells _. holds refl
  compute_by-name AggFunc.sum batch m row_idx =
      Ensures-then (Ends-ok_or (AggError.argument_required m.output_col) m.arg)
        λ col _. Ensures-then (Ends-get_col_float batch col row_idx) λ values _. holds refl
  compute_by-name AggFunc.avg batch m row_idx =
      Ensures-then (Ends-ok_or (AggError.argument_required m.output_col) m.arg)
        λ col _. Ensures-then (Ends-get_col_float batch col row_idx) λ values _. holds refl
  compute_by-name AggFunc.min batch m row_idx =
      Ensures-then (Ends-ok_or (AggError.argument_required m.output_col) m.arg) λ col _.
        Ensures-then (Ends-get_col batch col)
          λ arr _. Ensures-then (Ends-agg_min_max arr row_idx false) λ best _. holds refl
  compute_by-name AggFunc.max batch m row_idx =
      Ensures-then (Ends-ok_or (AggError.argument_required m.output_col) m.arg) λ col _.
        Ensures-then (Ends-get_col batch col)
          λ arr _. Ensures-then (Ends-agg_min_max arr row_idx true) λ best _. holds refl
  compute_by-name AggFunc.first batch m row_idx =
      Ensures-then (Ends-ok_or (AggError.argument_required m.output_col) m.arg) λ col _.
        Ensures-then (Ends-get_col batch col)
          λ arr _. Ensures-then (Ends-find_valid row_idx arr.cells) λ cell _. holds refl
