-- ===== src/Expr/Eval/Tests.antt =====
-- Expressions on a small batch, and the theorems at them.
use potato_etl.Base.{
  ◌+◌, length, get, ◌≡◌, refl, ℕ, true, false, none, some, List, [], ◌∷◌, Text, codes, ok, Ensures,
}
use potato_etl.Base.Int.{pos}
use potato_etl.Arrow.{Array, Scalar, DataType, Field, RecordBatch}
use potato_etl.Arrow.Sample.{kernels}
use potato_etl.Expr.Syntax.{references_columns, Expr, Args, BinOp, UnaryOp}
use potato_etl.Expr.Functions.{EvalContext, Step, Reading, collect_ok, concat_row}
use potato_etl.Expr.Arrays.{broadcast_array}
use potato_etl.Expr.Calls.{rows_of_texts}
use potato_etl.Expr.Lengths.{HasRows}
use potato_etl.Expr.Eval.{eval}
use potato_etl.Expr.Eval.Rows.{eval-HasRows}
use potato_etl.Expr.Eval.Columns.{reads_clock, with_clock, eval-constant}
use potato_etl.Expr.Eval.Logic.{eval-de_morgan}

abbrev context : EvalContext ℕ
context = record {
  run_start_us = pos 5;
  env_vars =
      (
        codes "region",
        record { data_type = DataType.utf8; cells = some (Scalar.text (codes "eu")) ∷ [] },
      )
      ∷ [];
  clock =
      λ place. record { local_us = pos (7200 + length place); utc_us = pos (3600 + length place) };
}

abbrev field : Text → DataType → Field
field name t = record { name = name; data_type = t; nullable = true; metadata = [] }

abbrev flags : Array ℕ
flags = record {
  data_type = DataType.boolean;
  cells = some (Scalar.bool true) ∷ none ∷ some (Scalar.bool false) ∷ [];
}

abbrev prices : Array ℕ
prices = record {
  data_type = DataType.float64;
  cells = some (Scalar.float 5) ∷ some (Scalar.float 10) ∷ none ∷ [];
}

abbrev batch : RecordBatch ℕ
batch = record {
  num_rows = 3;
  columns =
      (field (codes "Active") DataType.boolean, flags)
      ∷ (field (codes "price") DataType.float64, prices)
      ∷ [];
}

abbrev other_batch : RecordBatch ℕ
other_batch = record {
  num_rows = 3;
  columns = (field (codes "price") DataType.float64, prices) ∷ [];
}

abbrev active : Expr ℕ
active = Expr.column (codes "Active")

abbrev price : Expr ℕ
price = Expr.column (codes "price")

abbrev half : Expr ℕ
half = Expr.bin_op BinOp.div price (Expr.float 2)

abbrev labels : Expr ℕ
labels =
    Expr.call (codes "concat")
      (Args.arg (Expr.str (codes "in ")) (Args.arg (Expr.env_var (codes "region")) Args.no_args))

abbrev ready : Expr ℕ
ready = Expr.column_ref (codes "orders") (codes "ACTIVE")

half_prices :
    eval kernels context batch half
    ≡ ok (record {
      data_type = DataType.float64;
      cells = some (Scalar.float 2) ∷ some (Scalar.float 5) ∷ none ∷ [];
    })
unfolding eval
half_prices = refl

false_and_null :
    eval kernels context batch (Expr.bin_op BinOp.and active (Expr.bool false))
    ≡ ok (record {
      data_type = DataType.boolean;
      cells = some (Scalar.bool false) ∷ some (Scalar.bool false) ∷ some (Scalar.bool false) ∷ [];
    })
unfolding eval
false_and_null = refl

label_rows :
    eval kernels context batch labels
    ≡ ok (record {
      data_type = DataType.utf8;
      cells =
          some (Scalar.text (codes "in eu"))
          ∷ some (Scalar.text (codes "in eu"))
          ∷ some (Scalar.text (codes "in eu"))
          ∷ [];
    })
unfolding eval get collect_ok broadcast_array rows_of_texts concat_row
label_rows = refl

ready_rows : eval kernels context batch ready ≡ ok flags
unfolding eval
ready_rows = refl

eval-HasRows_example : Ensures (HasRows 3) (eval kernels context batch half)
eval-HasRows_example = eval-HasRows kernels context batch (refl, (refl, tt)) half

-- Readings that differ from place to place, and later ones.
abbrev early : List Step → Reading
early place = record { local_us = pos (7200 + length place); utc_us = pos (3600 + length place) }

abbrev late : List Step → Reading
late place = record { local_us = pos (9000 + length place); utc_us = pos (5400 + length place) }

now_reads_clock :
    reads_clock {F = ℕ} (Expr.unary UnaryOp.not (Expr.call (codes "now") Args.no_args)) ≡ true
unfolding reads_clock get
now_reads_clock = refl

eval-constant_example :
    eval kernels (with_clock context early) batch labels
    ≡ eval kernels (with_clock context late) other_batch labels
unfolding references_columns reads_clock get
eval-constant_example =
    eval-constant kernels batch other_batch refl context early late labels refl refl

eval-de_morgan_example :
    (eval kernels context batch
        (Expr.unary UnaryOp.not (Expr.bin_op BinOp.and active (Expr.bool true)))
      ≡ eval kernels context batch (
          Expr.bin_op BinOp.or
            (Expr.unary UnaryOp.not active)
            (Expr.unary UnaryOp.not (Expr.bool true))))
    × (eval kernels context batch
          (Expr.unary UnaryOp.not (Expr.bin_op BinOp.or active (Expr.bool true)))
        ≡ eval kernels context batch (
            Expr.bin_op BinOp.and
              (Expr.unary UnaryOp.not active)
              (Expr.unary UnaryOp.not (Expr.bool true))))
unfolding eval
eval-de_morgan_example =
    eval-de_morgan kernels context batch active (Expr.bool true) flags _ refl refl
