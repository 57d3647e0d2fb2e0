-- ===== src/Transform/Map.antt =====
-- common/src/transform/map.rs: adding, replacing and selecting columns.
use potato_etl.Base.{
  ℕ, zero, suc, ◌+◌, ◌≡◌, Bool, true, false, ◌&&◌, ◌||◌, Option, none, some, List, [], ◌∷◌, ◌++◌,
  Text, codes, text_eq, is_prefix, map, length, any, ◌⊎◌, inl, inr, if◌then◌else◌, Result, ok, err,
  out_of_fuel, then_ok, ok_or,
}
use potato_etl.Arrow.{Scalar, Array, Field, RecordBatch, Kernels}
use potato_etl.Expr.Syntax.{Expr, Error, references_columns}
use potato_etl.Expr.Lexer.{parse}
use potato_etl.Expr.Arrays.{EvalError}
use potato_etl.Expr.Functions.{EvalContext, Step, at}
use potato_etl.Expr.Eval.{eval}
pub mod Entries
pub mod Passes
pub mod Outcome
mod Tests

-- The errors, with the column that they name.
pub data MapError (F : Type 0) : Type 0 where
  parse_error : Text → Error → MapError F
  eval_error : Text → EvalError F → MapError F
  unresolved : List Text → MapError F
  not_selected : Text → MapError F
  arrow : Text → MapError F

-- `str::contains`
unfoldable pub contains_text : Text → Text → Bool
unfolding is_prefix
contains_text part [] = is_prefix part []
contains_text part (c ∷ s) = is_prefix part (c ∷ s) || contains_text part s

-- Whether the message of an error contains "not found in batch": that of a missing column does, the
-- others where a text that they quote does. `debug` is the derived text of an expression.
unfoldable pub mentions_missing : {F : Type 0} → (Expr F → Text) → EvalError F → Bool
unfolding contains_text
mentions_missing debug (EvalError.column_not_found col) = true
mentions_missing debug (EvalError.undefined_variable name) =
    contains_text (codes "not found in batch") name
mentions_missing debug (EvalError.bad_pattern p) = contains_text (codes "not found in batch") p
mentions_missing debug (EvalError.unknown_function f) = contains_text (codes "not found in batch") f
mentions_missing debug (EvalError.unknown_type t) = contains_text (codes "not found in batch") t
mentions_missing debug (EvalError.unknown_unit u) = contains_text (codes "not found in batch") u
mentions_missing debug (EvalError.literal_expected e) =
    contains_text (codes "not found in batch") (debug e)
mentions_missing debug (EvalError.arrow e) = contains_text (codes "not found in batch") e
mentions_missing debug _ = false

-- A column in the place of the first one of its name, whose metadata it keeps, or behind the others.
unfoldable pub put_column :
    {F : Type 0} → Text → Array F → Bool → List (Field × Array F) → List (Field × Array F)
unfolding text_eq
put_column name arr nullable [] =
    (record { name = name; data_type = arr.data_type; nullable = nullable; metadata = [] }, arr)
    ∷ []
put_column name arr nullable ((f, a) ∷ columns) =
    if text_eq name f.name
    then (
      record { name = name; data_type = arr.data_type; nullable = nullable; metadata = f.metadata },
      arr,
    )
      ∷ columns
    else (f, a) ∷ put_column name arr nullable columns

-- `schema.index_of`, with the field and the array there.
unfoldable pub find_entry : {F : Type 0} → Text → List (Field × Array F) → Option (Field × Array F)
unfolding text_eq
find_entry name [] = none
find_entry name ((f, a) ∷ columns) =
    if text_eq name f.name then some (f, a) else find_entry name columns

abbrev pub is_null : {A : Type 0} → Option A → Bool
is_null none = true
is_null (some a) = false

unfoldable pub is_nullable : {F : Type 0} → Expr F → Array F → Bool
unfolding references_columns
is_nullable e arr = references_columns e || any is_null arr.cells

-- Arrow's error under `?`, and those of a column.
abbrev pub lift_map : {F : Type 0} {A : Type 0} → Text ⊎ A → Result (MapError F) A
lift_map (inl e) = err (MapError.arrow e)
lift_map (inr a) = ok a

abbrev pub named {ℓ} :
    {E F : Type 0} {A : Type ℓ} → (E → MapError F) → Result E A → Result (MapError F) A
named f (ok a) = ok a
named f (err e) = err (f e)
named f out_of_fuel = out_of_fuel

-- A column behind those that wait for the next pass.
abbrev pub push_pending :
    {F : Type 0}
    → Text × Text
    → RecordBatch F × List (Text × Text)
    → RecordBatch F × List (Text × Text)
push_pending column (batch, pending) = (batch, column ∷ pending)

module _ {F : Type 0} (k : Kernels F) (ctx : EvalContext F) (parse_float : Text → Option F)
    (debug : Expr F → Text) where
  unfoldable pub replace_or_add_column :
      RecordBatch F → Text → Array F → Bool → Text ⊎ RecordBatch F
  unfolding put_column
  replace_or_add_column batch name arr nullable =
      k.try_new (put_column name arr nullable batch.columns)

  -- One column: the batch with its value, none if it waits for the next pass.
  abbrev pub after_eval :
      Bool
      → RecordBatch F
      → Text
      → Expr F
      → Result (EvalError F) (Array F)
      → Result (MapError F) (Option (RecordBatch F))
  after_eval first batch name e (ok arr) =
      then_ok (lift_map (replace_or_add_column batch name arr (is_nullable e arr))) λ b. ok (some b)
  after_eval first batch name e (err x) =
      if mentions_missing debug x && first then ok none else err (MapError.eval_error name x)
  after_eval first batch name e out_of_fuel = out_of_fuel

  unfoldable pub map_column :
      Bool → RecordBatch F → Text → Text → Result (MapError F) (Option (RecordBatch F))
  unfolding parse eval replace_or_add_column is_nullable mentions_missing
  map_column first batch name src =
      then_ok (named (MapError.parse_error name) (parse k.strings.unicode parse_float src))
        λ e. after_eval first batch name e (eval k (at (Step.column first name) ctx) batch e)

  -- A pass over the columns: the batch, and the columns that wait for the next one.
  unfoldable pub map_pass :
      Bool
      → RecordBatch F
      → List (Text × Text)
      → Result (MapError F) (RecordBatch F × List (Text × Text))
  unfolding map_column
  map_pass first batch [] = ok (batch, [])
  map_pass first batch ((name, src) ∷ columns) = then_ok (map_column first batch name src) λ result.
      elim result [
        | none ↦ then_ok (map_pass first batch columns) λ rest. ok (push_pending (name, src) rest)
        | some b ↦ map_pass first b columns
      ]

  -- The passes that are left, of which the first one comes next or not.
  unfoldable pub map_passes :
      ℕ → Bool → RecordBatch F → List (Text × Text) → Result (MapError F) (RecordBatch F)
  unfolding map_pass
  map_passes left first batch [] = ok batch
  map_passes zero first batch (c ∷ pending) =
      err (MapError.unresolved (map (λ (name, src). name) (c ∷ pending)))
  map_passes (suc left) first batch (c ∷ pending) =
      then_ok (map_pass first batch (c ∷ pending))
        λ (b, still_pending). map_passes left false b still_pending

  -- The columns of the names, in their order.
  unfoldable pub select_columns :
      List (Field × Array F) → List (Text × Text) → Result (MapError F) (List (Field × Array F))
  unfolding find_entry
  select_columns columns [] = ok []
  select_columns columns ((name, src) ∷ names) =
      then_ok (ok_or (MapError.not_selected name) (find_entry name columns))
        λ entry. then_ok (select_columns columns names) λ rest. ok (entry ∷ rest)

  unfoldable pub apply_map :
      RecordBatch F → List (Text × Text) → Bool → Result (MapError F) (RecordBatch F)
  unfolding map_passes select_columns
  apply_map batch [] select_only = ok batch
  apply_map batch (c ∷ columns) select_only =
      then_ok (map_passes (suc (length (c ∷ columns))) true batch (c ∷ columns)) λ current.
        if select_only
        then (then_ok (select_columns current.columns (c ∷ columns))
            λ selected. lift_map (k.try_new selected))
        else ok current
