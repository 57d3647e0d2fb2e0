-- ===== src/Transform/Map/Passes.antt =====
-- common/src/transform/map.rs: the passes over the columns of a `map` step.
use potato_etl.Base.{
  ℕ, ◌≡◌, ◌≢◌, refl, sym, Bool, true, false, Option, none, some, List, [], ◌∷◌, Text, text_eq,
  text_eq→eq, contains, map, get_elem?, All, Bool-cases, ◌⊎◌, inl, inr, arith, Result, ok, err,
  out_of_fuel, then_ok, Ensures, holds, fails, Meets, meets, refuses, Meets-then, Meets-weaken,
  subst,
}
use potato_etl.Arrow.{Array, Field, RecordBatch, IsBatch, Kernels}
use potato_etl.Expr.Syntax.{Expr}
use potato_etl.Expr.Lexer.{parse}
use potato_etl.Expr.Lexer.Total.{parse-ne-out_of_fuel}
use potato_etl.Expr.Arrays.{EvalError}
use potato_etl.Expr.Functions.{EvalContext, Step, at}
use potato_etl.Expr.Lengths.{HasRows}
use potato_etl.Expr.Eval.{eval}
use potato_etl.Expr.Eval.Rows.{eval-HasRows}
use potato_etl.Transform.Map.{
  MapError, mentions_missing, put_column, replace_or_add_column, is_nullable, lift_map, named,
  after_eval, map_column, push_pending, map_pass,
}
use potato_etl.Transform.Map.Entries.{
  HasEntry, put_column-HasEntry, put_column-keeps-HasEntry, put_column-keeps,
}

abbrev pub names_of : List (Text × Text) → List Text
names_of columns = map (λ (n, s). n) columns

-- The columns of the second list: those of the first one that are not named stand where they were,
-- and no name is lost.
pub record Extends {F : Type 0} (names : List Text) (columns columns' : List (Field × Array F))
    : Type 0 where
  pub grows : (m : Text) → HasEntry m columns → HasEntry m columns'
  pub keeps :
      (i : ℕ) (f : Field) (a : Array F)
      → get_elem? columns i ≡ some (f, a)
      → contains f.name names ≡ false
      → get_elem? columns' i ≡ some (f, a)

-- The errors that a `map` step reports: never those of its own accounting.
abbrev pub IsReported : {F : Type 0} → List Text → MapError F → Type 0
IsReported names (MapError.parse_error n e) = contains n names ≡ true
IsReported names (MapError.eval_error n e) = contains n names ≡ true
IsReported names (MapError.arrow e) = Unit
IsReported names (MapError.unresolved ns) = ⊥
IsReported names (MapError.not_selected n) = ⊥

module _ {F : Type 0} (names : List Text) where
  pub Extends-refl : (columns : List (Field × Array F)) → Extends names columns columns
  Extends-refl columns = record { grows = λ m h. h; keeps = λ i f a h ne. h }

  pub Extends-trans :
      {c1 c2 c3 : List (Field × Array F)}
      → Extends names c1 c2
      → Extends names c2 c3
      → Extends names c1 c3
  Extends-trans e1 e2 = record {
    grows = λ m h. e2.grows m (e1.grows m h);
    keeps = λ i f a h ne. e2.keeps i f a (e1.keeps i f a h ne) ne;
  }

  Extends-put_column :
      (name : Text) (arr : Array F) (nullable : Bool) (columns : List (Field × Array F))
      → contains name names ≡ true
      → Extends names columns (put_column name arr nullable columns)
  Extends-put_column name arr nullable columns h = record {
    grows = λ m. put_column-keeps-HasEntry name m arr nullable columns;
    keeps =
        λ i f a e ne. put_column-keeps name arr nullable columns i f a e (other name f.name h ne);
  }
    where
      other :
          (m n : Text) → contains m names ≡ true → contains n names ≡ false → text_eq m n ≡ false
      other m n hm hn = elim (Bool-cases (text_eq m n)) [
        | inl e ↦ let same : m ≡ n = text_eq→eq m n e in cc
        | inr e ↦ e
      ]

contains_first : (m n : Text) (ns : List Text) → text_eq m n ≡ true → contains m (n ∷ ns) ≡ true
unfolding contains
contains_first m n ns h = ground arith

contains_later : (m n : Text) (ns : List Text) → contains m ns ≡ true → contains m (n ∷ ns) ≡ true
unfolding contains
contains_later m n ns h = ground arith

contains_tail :
    (m n : Text) (ns : List Text)
    → text_eq m n ≡ false
    → contains m (n ∷ ns) ≡ true
    → contains m ns ≡ true
unfolding contains
contains_tail m n ns h hm = ground arith

module _ {F : Type 0} (k : Kernels F) (ctx : EvalContext F) (parse_float : Text → Option F)
    (debug : Expr F → Text) (names : List Text) where
  -- What one column leaves: it waits in the first pass only, or the batch has it.
  abbrev Stored : Bool → RecordBatch F → Text → Option (RecordBatch F) → Type 0
  Stored first batch name none = first ≡ true
  Stored first batch name (some b) =
      IsBatch b × (Extends names batch.columns b.columns × HasEntry name b.columns)

  replace_or_add_column-Meets :
      (first : Bool) (batch : RecordBatch F) (name : Text) (arr : Array F) (nullable : Bool)
      → contains name names ≡ true
      → Meets (Stored first batch name) (IsReported {F = F} names) (
          then_ok
            (lift_map (replace_or_add_column k ctx parse_float debug batch name arr nullable))
            λ b. ok (some b))
  unfolding replace_or_add_column
  replace_or_add_column-Meets first batch name arr nullable h =
      go (k.try_new (put_column name arr nullable batch.columns)) refl
    where
      go :
          (r : Text ⊎ RecordBatch F)
          → k.try_new (put_column name arr nullable batch.columns) ≡ r
          → Meets
              (Stored first batch name)
              (IsReported {F = F} names)
              (then_ok (lift_map r) λ b. ok (some b))
      go (inl e) q = refuses tt
      go (inr b) q =
          let same : b.columns ≡ put_column name arr nullable batch.columns =
            k.try_new_columns _ b q in
          meets (
            k.try_new_rows _ b q,
            (
              rw same (Extends-put_column names name arr nullable batch.columns h),
              rw same (put_column-HasEntry name arr nullable batch.columns),
            ),
          )

  after_eval-Meets :
      (first : Bool) (batch : RecordBatch F) (name : Text) (e : Expr F)
      (r : Result (EvalError F) (Array F))
      → contains name names ≡ true
      → Ensures (HasRows batch.num_rows) r
      → Meets
          (Stored first batch name)
          (IsReported {F = F} names)
          (after_eval k ctx parse_float debug first batch name e r)
  after_eval-Meets first batch name e _ h (holds {a = arr} hr) =
      replace_or_add_column-Meets first batch name arr (is_nullable e arr) h
  after_eval-Meets true batch name e _ h (fails {e = x}) =
      elim (Bool-cases (mentions_missing debug x)) [
        | inl q ↦ rw q (meets refl)
        | inr q ↦ rw q (refuses h)
      ]
  after_eval-Meets false batch name e _ h (fails {e = x}) =
      elim (Bool-cases (mentions_missing debug x)) [
        | inl q ↦ rw q (refuses h)
        | inr q ↦ rw q (refuses h)
      ]

  map_column-Meets :
      (first : Bool) (batch : RecordBatch F) (name src : Text)
      → IsBatch batch
      → contains name names ≡ true
      → Meets
          (Stored first batch name)
          (IsReported {F = F} names)
          (map_column k ctx parse_float debug first batch name src)
  unfolding map_column
  map_column-Meets first batch name src hb h =
      parsed (parse k.strings.unicode parse_float src)
        (parse-ne-out_of_fuel k.strings.unicode parse_float src)
    where
      parsed :
          (r : Result _ (Expr F))
          → r ≢ out_of_fuel
          → Meets (Stored first batch name) (IsReported {F = F} names) (
              then_ok (named (MapError.parse_error name) r) λ e.
                after_eval k ctx parse_float debug first batch name e
                  (eval k (at (Step.column first name) ctx) batch e))
      parsed (ok e) ne =
          after_eval-Meets first batch name e (eval k (at (Step.column first name) ctx) batch e) h
            (eval-HasRows k (at (Step.column first name) ctx) batch hb e)
      parsed (err e) ne = refuses h
      parsed out_of_fuel ne = absurd (ne refl)

  -- What a pass leaves: each of its columns is in the batch or waits, and only the first pass leaves
  -- columns that wait.
  pub record Passed (first : Bool) (batch : RecordBatch F) (columns : List (Text × Text))
      (b : RecordBatch F) (pending : List (Text × Text)) : Type 0 where
    pub is_batch : IsBatch b
    pub extends : Extends names batch.columns b.columns
    pub waiting : All (λ (n, s). contains n names ≡ true) pending
    pub covers :
        (m : Text)
        → contains m (names_of columns) ≡ true
        → HasEntry m b.columns ⊎ (contains m (names_of pending) ≡ true)
    pub last : first ≡ false → pending ≡ []

  Passed-nil :
      (first : Bool) (batch : RecordBatch F) → IsBatch batch → Passed first batch [] batch []
  unfolding contains
  Passed-nil first batch hb = record {
    is_batch = hb;
    extends = Extends-refl names batch.columns;
    waiting = tt;
    covers = λ m h. cc;
    last = λ h. refl;
  }

  Passed-wait :
      {first : Bool} {batch b : RecordBatch F} {columns pending : List (Text × Text)}
      (name src : Text)
      → first ≡ true
      → contains name names ≡ true
      → Passed first batch columns b pending
      → Passed first batch ((name, src) ∷ columns) b ((name, src) ∷ pending)
  unfolding contains
  Passed-wait {b} {columns} {pending} name src hf h p = record {
    is_batch = p.is_batch;
    extends = p.extends;
    waiting = (h, p.waiting);
    covers = λ m hm. elim (Bool-cases (text_eq m name)) [
      | inl e ↦ inr (contains_first m name (names_of pending) e)
      | inr e ↦ elim (p.covers m (contains_tail m name (names_of columns) e hm)) [
        | inl has ↦ inl has
        | inr waits ↦ inr (contains_later m name (names_of pending) waits)
      ]
    ];
    last = λ e. cc;
  }

  Passed-store :
      {first : Bool} {batch b' b : RecordBatch F} {columns pending : List (Text × Text)}
      (name src : Text)
      → Stored first batch name (some b')
      → Passed first b' columns b pending
      → Passed first batch ((name, src) ∷ columns) b pending
  unfolding contains
  Passed-store {b'} {columns} name src (hb, (he, hn)) p = record {
    is_batch = p.is_batch;
    extends = Extends-trans names he p.extends;
    waiting = p.waiting;
    covers = λ m hm. elim (Bool-cases (text_eq m name)) [
      | inl e ↦ inl (
          p.extends.grows m
            (subst (λ (n : Text). HasEntry n b'.columns) (sym (text_eq→eq m name e)) hn))
      | inr e ↦ p.covers m (contains_tail m name (names_of columns) e hm)
    ];
    last = p.last;
  }

  map_pass-step :
      (first : Bool) (batch : RecordBatch F) (name src : Text) (columns : List (Text × Text))
      → contains name names ≡ true
      → ((b : RecordBatch F)
          → IsBatch b
          → Meets
              (λ (b', pending). Passed first b columns b' pending)
              (IsReported {F = F} names)
              (map_pass k ctx parse_float debug first b columns))
      → IsBatch batch
      → (result : Option (RecordBatch F)) → Stored first batch name result
      → Meets
          (λ (b, pending). Passed first batch ((name, src) ∷ columns) b pending)
          (IsReported {F = F} names)
          (elim result as (λ _. Result (MapError F) (RecordBatch F × List (Text × Text))) [
            | none ↦
                then_ok
                  (map_pass k ctx parse_float debug first batch columns)
                  λ rest. ok (push_pending (name, src) rest)
            | some b ↦ map_pass k ctx parse_float debug first b columns
          ])
  map_pass-step first batch name src columns h ih hb none stored =
      Meets-then (ih batch hb) λ (b, pending) p. meets (Passed-wait name src stored h p)
  map_pass-step first batch name src columns h ih hb (some b) stored =
      Meets-weaken (ih b stored.0) λ (b', pending) p. Passed-store name src stored p

  pub map_pass-Meets :
      (first : Bool) (batch : RecordBatch F) (columns : List (Text × Text))
      → IsBatch batch
      → All (λ (n, s). contains n names ≡ true) columns
      → Meets
          (λ (b, pending). Passed first batch columns b pending)
          (IsReported {F = F} names)
          (map_pass k ctx parse_float debug first batch columns)
  unfolding map_pass
  map_pass-Meets first batch [] hb hs = meets (Passed-nil first batch hb)
  map_pass-Meets first batch ((name, src) ∷ columns) hb (h, hs) =
      Meets-then (map_column-Meets first batch name src hb h) (
        map_pass-step first batch name src columns h (λ b q. map_pass-Meets first b columns q hs)
          hb)
