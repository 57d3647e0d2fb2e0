-- ===== src/Transform/Map/Outcome.antt =====
-- common/src/transform/map.rs: what a `map` step makes of a batch.
use potato_etl.Base.{
  ℕ, suc, ◌≡◌, refl, sym, ap, ◌∙◌, Bool, true, false, Option, some, List, [], ◌∷◌, Text, text_eq,
  text_eq_refl, text_eq→eq, contains, map, length, All, Bool-cases, Option-cases, ◌⊎◌, inl, inr,
  arith, Meets, meets, refuses, Meets-then, Meets-weaken,
}
use potato_etl.Arrow.{Array, Field, RecordBatch, IsBatch, Kernels}
use potato_etl.Expr.Syntax.{Expr}
use potato_etl.Expr.Functions.{EvalContext}
use potato_etl.Transform.Map.{find_entry, lift_map, map_passes, select_columns, apply_map}
use potato_etl.Transform.Map.Entries.{HasEntry}
use potato_etl.Transform.Map.Passes.{
  names_of, Extends, Extends-trans, Extends-refl, IsReported, Passed, map_pass-Meets,
}

-- The names of the columns of a batch.
abbrev pub column_names : {F : Type 0} → List (Field × Array F) → List Text
column_names columns = map (λ (f, a). f.name) columns

find_entry-name :
    {F : Type 0} (name : Text) (columns : List (Field × Array F)) (f : Field) (a : Array F)
    → find_entry name columns ≡ some (f, a)
    → name ≡ f.name
unfolding find_entry
find_entry-name name [] f a h = cc
find_entry-name name ((g, b) ∷ columns) f a h = elim (Bool-cases (text_eq name g.name)) [
  | inl e ↦ let same : g ≡ f = cc in text_eq→eq name g.name e ∙ ap (λ (x : Field). x.name) same
  | inr e ↦ find_entry-name name columns f a (rw (find_entry, e) at h)
]

-- A batch in which the columns are done: the others stand where they were.
pub record Finished {F : Type 0} (names : List Text) (batch : RecordBatch F)
    (columns : List (Text × Text)) (b : RecordBatch F) : Type 0 where
  pub is_batch : IsBatch b
  pub extends : Extends names batch.columns b.columns
  pub covers : (m : Text) → contains m (names_of columns) ≡ true → HasEntry m b.columns

-- What the step promises of its result.
abbrev pub Mapped :
    {F : Type 0} → RecordBatch F → List (Text × Text) → Bool → RecordBatch F → Type 0
Mapped batch [] select_only out = out ≡ batch
Mapped batch (c ∷ columns) true out = column_names out.columns ≡ names_of (c ∷ columns)
Mapped batch (c ∷ columns) false out = Finished (names_of (c ∷ columns)) batch (c ∷ columns) out

lift_map-Meets :
    {F : Type 0} {P : RecordBatch F → Type 0} (names : List Text) (r : Text ⊎ RecordBatch F)
    → ((b : RecordBatch F) → r ≡ inr b → P b)
    → Meets P (IsReported {F = F} names) (lift_map r)
lift_map-Meets names (inl e) h = refuses tt
lift_map-Meets names (inr b) h = meets (h b refl)

All-contains :
    (names : List Text) (columns : List (Text × Text))
    → ((m : Text) → contains m (names_of columns) ≡ true → contains m names ≡ true)
    → All (λ (n, s). contains n names ≡ true) columns
unfolding contains
All-contains names [] h = tt
All-contains names ((n, s) ∷ columns) h =
    (h n (ground (arith, text_eq_refl n)), All-contains names columns λ m hm. h m (ground arith))

module _ {F : Type 0} (k : Kernels F) (ctx : EvalContext F) (parse_float : Text → Option F)
    (debug : Expr F → Text) where
  module _ (names : List Text) where
    Passed-Finished :
        {batch b : RecordBatch F} {columns rest : List (Text × Text)}
        → rest ≡ []
        → Passed k ctx parse_float debug names false batch columns b rest
        → Finished names batch columns b
    unfolding contains
    Passed-Finished e p = record {
      is_batch = p.is_batch;
      extends = p.extends;
      covers = λ m hm. elim (p.covers m hm) [
        | inl has ↦ has
        | inr waits ↦
            let gone = ap (λ (r : List (Text × Text)). contains m (names_of r)) (sym e) ∙ waits in
            cc
      ];
    }

    -- The second pass, which leaves no column waiting.
    second-Meets :
        (left : ℕ) (batch : RecordBatch F) (pending : List (Text × Text))
        → IsBatch batch
        → All (λ (n, s). contains n names ≡ true) pending
        → Meets
            (Finished names batch pending)
            (IsReported {F = F} names)
            (map_passes k ctx parse_float debug (suc left) false batch pending)
    unfolding map_passes contains
    second-Meets left batch [] hb hs =
        meets (record {
          is_batch = hb;
          extends = Extends-refl names batch.columns;
          covers = λ m hm. cc;
        })
    second-Meets left batch (c ∷ pending) hb hs =
        Meets-then (map_pass-Meets k ctx parse_float debug names false batch (c ∷ pending) hb hs)
          λ (b, rest) p. rw (p.last refl) (meets (Passed-Finished (p.last refl) p))

    Finished-after :
        {batch b b' : RecordBatch F} {columns pending : List (Text × Text)}
        → Passed k ctx parse_float debug names true batch columns b pending
        → Finished names b pending b'
        → Finished names batch columns b'
    Finished-after p fin = record {
      is_batch = fin.is_batch;
      extends = Extends-trans names p.extends fin.extends;
      covers = λ m hm. elim (p.covers m hm) [
        | inl has ↦ fin.extends.grows m has
        | inr waits ↦ fin.covers m waits
      ];
    }

    passes-Meets :
        (left : ℕ) (batch : RecordBatch F) (columns : List (Text × Text))
        → IsBatch batch
        → All (λ (n, s). contains n names ≡ true) columns
        → Meets
            (Finished names batch columns)
            (IsReported {F = F} names)
            (map_passes k ctx parse_float debug (suc (suc left)) true batch columns)
    unfolding map_passes contains
    passes-Meets left batch [] hb hs =
        meets (record {
          is_batch = hb;
          extends = Extends-refl names batch.columns;
          covers = λ m hm. cc;
        })
    passes-Meets left batch (c ∷ columns) hb hs =
        Meets-then (map_pass-Meets k ctx parse_float debug names true batch (c ∷ columns) hb hs)
          λ (b, pending) p.
            Meets-weaken (second-Meets left b pending p.is_batch p.waiting)
              λ b' fin. Finished-after p fin

    select_columns-Meets :
        (columns : List (Field × Array F)) (names' : List (Text × Text))
        → ((m : Text) → contains m (names_of names') ≡ true → HasEntry m columns)
        → Meets
            (λ selected. column_names selected ≡ names_of names')
            (IsReported {F = F} names)
            (select_columns k ctx parse_float debug columns names')
    unfolding select_columns contains
    select_columns-Meets columns [] h = meets refl
    select_columns-Meets columns ((n, s) ∷ rest) h = elim (Option-cases (find_entry n columns)) [
      | inl e ↦ absurd (h n (ground (arith, text_eq_refl n)) e)
      | inr ((f, a), e) ↦
          rw (select_columns, e)
            (Meets-then (select_columns-Meets columns rest λ m hm. h m (ground arith))
              λ selected hs. meets (rw (hs, sym (find_entry-name n columns f a e)) refl))
    ]

  -- A `map` step on a well-formed batch ends with a well-formed batch, or with an error of one of its
  -- expressions or of Arrow: never with its own errors for unresolved or lost columns. With
  -- `select_only`, the result has the columns of the step, in their order; without it, every column
  -- of the step, and the columns of the batch that the step does not name as they were, at their
  -- places. A step without columns leaves the batch as it is.
  pub apply_map-Mapped :
      (batch : RecordBatch F) (columns : List (Text × Text)) (select_only : Bool)
      → IsBatch batch
      → Meets
          (λ out. IsBatch out × Mapped batch columns select_only out)
          (IsReported {F = F} (names_of columns))
          (apply_map k ctx parse_float debug batch columns select_only)
  unfolding apply_map
  apply_map-Mapped batch [] select_only hb = meets (hb, refl)
  apply_map-Mapped batch (c ∷ columns) false hb =
      let names = names_of (c ∷ columns) in
      Meets-then
        (passes-Meets names (length columns) batch (c ∷ columns) hb
          (All-contains names (c ∷ columns) λ m h. h))
        λ b fin. meets (fin.is_batch, fin)
  apply_map-Mapped batch (c ∷ columns) true hb =
      let names = names_of (c ∷ columns) in
      Meets-then
        (passes-Meets names (length columns) batch (c ∷ columns) hb
          (All-contains names (c ∷ columns) λ m h. h))
        λ b fin.
          Meets-then (select_columns-Meets names b.columns (c ∷ columns) fin.covers) λ selected hs.
            lift_map-Meets names (k.try_new selected) λ out e. (
              k.try_new_rows selected out e,
              ap column_names (k.try_new_columns selected out e) ∙ hs,
            )
