-- ===== src/Transform/Map/Tests.antt =====
-- `map` steps on a small batch, and the theorem at one.
use potato_etl.Base.{
  ◌≡◌, refl, ℕ, Bool, true, false, Option, none, some, List, [], ◌∷◌, Text, codes, Result, err,
  Meets, meets,
}
use potato_etl.Base.Int.{pos}
use potato_etl.Arrow.{Array, Scalar, DataType, Field, RecordBatch, IsBatch}
use potato_etl.Arrow.Sample.{kernels, batch_of}
use potato_etl.Expr.Syntax.{Expr}
use potato_etl.Expr.Arrays.{EvalError}
use potato_etl.Expr.Functions.{EvalContext}
use potato_etl.Transform.Map.{MapError, apply_map}
use potato_etl.Transform.Map.Passes.{names_of, IsReported}
use potato_etl.Transform.Map.Outcome.{column_names, Mapped, apply_map-Mapped}

abbrev context : EvalContext ℕ
context = record {
  run_start_us = pos 5;
  env_vars = [];
  clock = λ place. record { local_us = pos 7200; utc_us = pos 3600 };
}

abbrev parse_float : Text → Option ℕ
parse_float s = some 0

abbrev debug : Expr ℕ → Text
debug e = []

abbrev price : Field × Array ℕ
price = (
  record { name = codes "price"; data_type = DataType.float64; nullable = true; metadata = [] },
  record { data_type = DataType.float64; cells = some (Scalar.float 5) ∷ none ∷ [] },
)

abbrev batch : RecordBatch ℕ
batch = batch_of (price ∷ [])

-- A column may use one that is declared behind it, once.
abbrev forward : List (Text × Text)
forward = (codes "b", codes "a * a") ∷ (codes "a", codes "price + price") ∷ []

abbrev chain : List (Text × Text)
chain = (codes "c", codes "b") ∷ (codes "b", codes "a") ∷ (codes "a", codes "price") ∷ []

abbrev run : List (Text × Text) → Bool → Result (MapError ℕ) (RecordBatch ℕ)
run columns select_only = apply_map kernels context parse_float debug batch columns select_only

forward_done :
    Meets (λ out. column_names out.columns ≡ codes "b" ∷ codes "a" ∷ []) (λ e. ⊥) (run forward true)
unfolding apply_map
forward_done = meets refl

-- A chain of three in the reverse order is not resolved: the second pass stops at its first column.
chain_fails :
    run chain false ≡ err (MapError.eval_error (codes "c") (EvalError.column_not_found (codes "b")))
unfolding apply_map
chain_fails = refl

apply_map-Mapped_example :
    Meets
      (λ out. IsBatch out × Mapped batch forward true out)
      (IsReported {F = ℕ} (names_of forward))
      (run forward true)
apply_map-Mapped_example =
    apply_map-Mapped kernels context parse_float debug batch forward true (refl, tt)
