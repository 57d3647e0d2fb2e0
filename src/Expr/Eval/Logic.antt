-- ===== src/Expr/Eval/Logic.antt =====
-- common/src/transform/expr/eval.rs: `and`, `or` and `not` are the three-valued logic of SQL.
use potato_etl.Base.{
  ◌≡◌, refl, ap, ◌∙◌, map, not, Bool, true, false, Option, none, some, List, [], ◌∷◌, Result, ok,
  err, out_of_fuel, then_ok,
}
use potato_etl.Arrow.{Array, Scalar, RecordBatch, Kernels}
use potato_etl.Expr.Syntax.{Expr, BinOp, UnaryOp}
use potato_etl.Expr.Arrays.{
  EvalError, map_option, downcast, as_bool, cast_to, to_boolean, boolean_array,
}
use potato_etl.Expr.Operators.{zip_with, and_cell, or_cell, logical, eval_binop, eval_unary}
use potato_etl.Expr.Functions.{EvalContext, Step, at}
use potato_etl.Expr.Eval.{eval}

not-and_cell :
    (a b : Option Bool)
    → map_option not (and_cell a b) ≡ or_cell (map_option not a) (map_option not b)
unfolding and_cell or_cell
not-and_cell none none = refl
not-and_cell none (some true) = refl
not-and_cell none (some false) = refl
not-and_cell (some true) none = refl
not-and_cell (some true) (some b) = refl
not-and_cell (some false) b = refl

not-or_cell :
    (a b : Option Bool)
    → map_option not (or_cell a b) ≡ and_cell (map_option not a) (map_option not b)
unfolding and_cell or_cell
not-or_cell none none = refl
not-or_cell none (some true) = refl
not-or_cell none (some false) = refl
not-or_cell (some true) b = refl
not-or_cell (some false) none = refl
not-or_cell (some false) (some b) = refl

-- A map through a zip, for cells with a law like De Morgan's.
map-zip_with {ℓ} :
    {A : Type ℓ} (f : A → A) (g h : A → A → A) (law : (a b : A) → f (g a b) ≡ h (f a) (f b))
    (xs ys : List A)
    → map f (zip_with g xs ys) ≡ zip_with h (map f xs) (map f ys)
unfolding zip_with
map-zip_with f g h law [] ys = refl
map-zip_with f g h law (x ∷ xs) [] = refl
map-zip_with {A} f g h law (x ∷ xs) (y ∷ ys) =
    ap (◌∷◌ (f (g x y))) (map-zip_with f g h law xs ys)
    ∙ ap (λ (z : A). z ∷ zip_with h (map f xs) (map f ys)) (law x y)

downcast-boolean_array :
    (F : Type 0) (values : List (Option Bool))
    → downcast (as_bool {F = F}) (map (map_option Scalar.bool) values) ≡ some values
unfolding downcast
downcast-boolean_array F [] = refl
downcast-boolean_array F (none ∷ values) = rw (downcast-boolean_array F values) refl
downcast-boolean_array F (some b ∷ values) = rw (downcast-boolean_array F values) refl

module _ {F : Type 0} (k : Kernels F) where
  to_boolean-boolean_array :
      (values : List (Option Bool)) → to_boolean k (boolean_array values) ≡ ok values
  unfolding to_boolean cast_to
  to_boolean-boolean_array values =
      rw (k.cast_same (boolean_array values), downcast-boolean_array F values) refl

  -- Cells with a law like De Morgan's, and the arrays of them.
  not-logical :
      (g h : Option Bool → Option Bool → Option Bool)
      → ((x y : Option Bool) → map_option not (g x y) ≡ h (map_option not x) (map_option not y))
      → (a b : Array F) (ra rb : Result (EvalError F) (List (Option Bool))) → to_boolean k a ≡ ra
      → to_boolean k b ≡ rb
      → then_ok (logical k g a b) (eval_unary k UnaryOp.not)
        ≡ then_ok
            (eval_unary k UnaryOp.not a)
            λ x. then_ok (eval_unary k UnaryOp.not b) λ y. logical k h x y
  unfolding logical eval_unary
  not-logical g h law a b (ok xs) (ok ys) ea eb =
      rw
        (
          ea,
          eb,
          to_boolean-boolean_array (zip_with g xs ys),
          to_boolean-boolean_array (map (map_option not) xs),
          to_boolean-boolean_array (map (map_option not) ys),
          map-zip_with (map_option not) g h law xs ys,
        )
        refl
  not-logical g h law a b (ok xs) (err e) ea eb = rw (ea, eb) refl
  not-logical g h law a b (ok xs) out_of_fuel ea eb = rw (ea, eb) refl
  not-logical g h law a b (err e) rb ea eb = rw ea refl
  not-logical g h law a b out_of_fuel rb ea eb = rw ea refl

  module _ (ctx : EvalContext F) (batch : RecordBatch F) (l r : Expr F) (a b : Array F)
      (hl : eval k (at Step.left ctx) batch l ≡ ok a)
      (hr : eval k (at Step.right ctx) batch r ≡ ok b) where
    -- Where the two operands have values, at the readings of the clock that are theirs, the negation of `and` evaluates as `or` of their negations
    -- does, and the negation of `or` as `and` of them, NULLs and errors of the casts included.
    pub eval-de_morgan :
        (eval k ctx batch (Expr.unary UnaryOp.not (Expr.bin_op BinOp.and l r))
          ≡ eval k ctx batch
              (Expr.bin_op BinOp.or (Expr.unary UnaryOp.not l) (Expr.unary UnaryOp.not r)))
        × (eval k ctx batch (Expr.unary UnaryOp.not (Expr.bin_op BinOp.or l r))
            ≡ eval k ctx batch
                (Expr.bin_op BinOp.and (Expr.unary UnaryOp.not l) (Expr.unary UnaryOp.not r)))
    unfolding eval eval_binop
    eval-de_morgan = (
      rw (hl, hr) (not-logical and_cell or_cell not-and_cell a b _ _ refl refl),
      rw (hl, hr) (not-logical or_cell and_cell not-or_cell a b _ _ refl refl),
    )
