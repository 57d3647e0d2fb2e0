-- ===== src/Expr/Eval/Columns.antt =====
-- common/src/transform/expr/{ast,eval}.rs: an expression that references no column and does not read the
-- clock is a constant.
use potato_etl.Base.{
  ℕ, ◌≡◌, refl, Bool, true, false, ◌||◌, Option, some, List, [], ◌∷◌, Text, get, Option-cases, inl,
  inr, Result,
}
use potato_etl.Arrow.{Array, RecordBatch, Kernels}
use potato_etl.Expr.Syntax.{Expr, Args, references_columns, any_references_columns}
use potato_etl.Expr.Arrays.{EvalError}
use potato_etl.Expr.Functions.{functions, Function, EvalContext, Reading, Step}
use potato_etl.Expr.Calls.{call_function, eval_call}
use potato_etl.Expr.Eval.{eval, eval_args}

-- The functions that read the clock.
abbrev pub is_clock : Option Function → Bool
is_clock (some Function.now) = true
is_clock (some Function.utcnow) = true
is_clock _ = false

-- Whether a call of now() or utcnow() occurs.
unfoldable mutual
  unfolding get

  pub reads_clock : {F : Type 0} → Expr F → Bool
  reads_clock (Expr.bin_op op l r) = reads_clock l || reads_clock r
  reads_clock (Expr.unary op operand) = reads_clock operand
  reads_clock (Expr.call func args) = is_clock (get func functions) || any_reads_clock args
  reads_clock (Expr.index e i) = reads_clock e || reads_clock i
  reads_clock _ = false

  pub any_reads_clock : {F : Type 0} → Args F → Bool
  any_reads_clock Args.no_args = false
  any_reads_clock (Args.arg e rest) = reads_clock e || any_reads_clock rest

or-false : (a b : Bool) → a || b ≡ false → (a ≡ false) × (b ≡ false)
or-false true b h = cc
or-false false b h = (refl, h)

-- The context with other readings of the clock.
abbrev pub with_clock : {F : Type 0} → EvalContext F → (List Step → Reading) → EvalContext F
with_clock ctx clock = record ctx { clock = clock }

-- The readings of a part.
abbrev under : Step → (List Step → Reading) → List Step → Reading
under step clock place = clock (step ∷ place)

module _ {F : Type 0} (k : Kernels F) (ctx : EvalContext F) (n : ℕ)
    (c1 c2 : List Step → Reading) where
  call_function-with_clock :
      (f : Function) (func : Text) (args : List (Expr F × Result (EvalError F) (Array F)))
      → is_clock (some f) ≡ false
      → call_function k (with_clock ctx c1) n f func args
        ≡ call_function k (with_clock ctx c2) n f func args
  unfolding call_function
  call_function-with_clock Function.now func args h = cc
  call_function-with_clock Function.utcnow func args h = cc
  call_function-with_clock f func [] h = refl
  call_function-with_clock f func (a ∷ []) h = refl
  call_function-with_clock f func (a ∷ b ∷ []) h = refl
  call_function-with_clock f func (a ∷ b ∷ c ∷ []) h = refl
  call_function-with_clock f func (a ∷ b ∷ c ∷ d ∷ args) h = refl

  eval_call-with_clock :
      (func : Text) (args : List (Expr F × Result (EvalError F) (Array F)))
      → is_clock (get func functions) ≡ false
      → eval_call k (with_clock ctx c1) n func args ≡ eval_call k (with_clock ctx c2) n func args
  unfolding eval_call
  eval_call-with_clock func args h = elim (Option-cases (get func functions)) [
    | inl e ↦ rw (e, eval_call) refl
    | inr (f, e) ↦ rw (e, eval_call) (call_function-with_clock f func args (rw e at h))
  ]

module _ {F : Type 0} (k : Kernels F) (b1 b2 : RecordBatch F) (h : b1.num_rows ≡ b2.num_rows) where
  mutual
    unfolding eval eval_args references_columns any_references_columns reads_clock any_reads_clock

    expr-constant :
        (ctx : EvalContext F) (c1 c2 : List Step → Reading) (e : Expr F)
        → references_columns e ≡ false
        → reads_clock e ≡ false
        → eval k (with_clock ctx c1) b1 e ≡ eval k (with_clock ctx c2) b2 e
    expr-constant ctx c1 c2 (Expr.int v) q s = rw h refl
    expr-constant ctx c1 c2 (Expr.float v) q s = rw h refl
    expr-constant ctx c1 c2 (Expr.str t) q s = rw h refl
    expr-constant ctx c1 c2 (Expr.bool b) q s = rw h refl
    expr-constant ctx c1 c2 Expr.null q s = rw h refl
    expr-constant ctx c1 c2 (Expr.column col) q s = cc
    expr-constant ctx c1 c2 (Expr.bin_op op l r) q s =
        let (ql, qr) = or-false (references_columns l) (references_columns r) q in
        let (sl, sr) = or-false (reads_clock l) (reads_clock r) s in
        rw
          (
            expr-constant ctx (under Step.left c1) (under Step.left c2) l ql sl,
            expr-constant ctx (under Step.right c1) (under Step.right c2) r qr sr,
          )
          refl
    expr-constant ctx c1 c2 (Expr.unary op operand) q s =
        rw (expr-constant ctx c1 c2 operand q s) refl
    expr-constant ctx c1 c2 (Expr.call func args) q s =
        let (sf, sa) = or-false (is_clock (get func functions)) (any_reads_clock args) s in
        rw (args-constant ctx c1 c2 args q sa, h)
          (eval_call-with_clock k ctx b2.num_rows c1 c2 func _ sf)
    expr-constant ctx c1 c2 (Expr.index e i) q s =
        let (qe, qi) = or-false (references_columns e) (references_columns i) q in
        let (se, si) = or-false (reads_clock e) (reads_clock i) s in
        rw
          (
            expr-constant ctx (under Step.left c1) (under Step.left c2) e qe se,
            expr-constant ctx (under Step.right c1) (under Step.right c2) i qi si,
          )
          refl
    expr-constant ctx c1 c2 (Expr.env_var name) q s = rw h refl
    expr-constant ctx c1 c2 (Expr.column_ref step col) q s = cc

    args-constant :
        (ctx : EvalContext F) (c1 c2 : List Step → Reading) (args : Args F)
        → any_references_columns args ≡ false
        → any_reads_clock args ≡ false
        → eval_args k (with_clock ctx c1) b1 args ≡ eval_args k (with_clock ctx c2) b2 args
    args-constant ctx c1 c2 Args.no_args q s = refl
    args-constant ctx c1 c2 (Args.arg e rest) q s =
        let (qe, qr) = or-false (references_columns e) (any_references_columns rest) q in
        let (se, sr) = or-false (reads_clock e) (any_reads_clock rest) s in
        rw
          (
            expr-constant ctx (under Step.left c1) (under Step.left c2) e qe se,
            args-constant ctx (under Step.right c1) (under Step.right c2) rest qr sr,
          )
          refl

  -- An expression that references no column and calls neither now() nor utcnow() has the same value, or
  -- the same error, on all batches of a number of rows, whatever the clock shows, in a run with the same
  -- start and environment variables.
  pub eval-constant :
      (ctx : EvalContext F) (c1 c2 : List Step → Reading) (e : Expr F)
      → references_columns e ≡ false
      → reads_clock e ≡ false
      → eval k (with_clock ctx c1) b1 e ≡ eval k (with_clock ctx c2) b2 e
  eval-constant = expr-constant
