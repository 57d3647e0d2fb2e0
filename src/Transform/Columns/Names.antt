-- ===== src/Transform/Columns/Names.antt =====
-- common/src/schema/apply.rs, common/src/transform/schema.rs and common/src/util/schema.rs: renaming changes names alone.
use potato_etl.Base.{
  ◌≡◌, ◌≢◌, ◌++◌, All, false, text_eq_refl, arith, refl, sym, ap, ◌∙◌, subst, true, List, [], ◌∷◌,
  Text, text_eq, text_eq→eq, map, all, ◌⊎◌, inl, inr, Bool-cases,
}
use potato_etl.Arrow.{Array, Field, RecordBatch, Kernels}
use potato_etl.Arrow.TypeNames.{apply_normalize_columns}
use potato_etl.Transform.Columns.{
  IdentifierCase, transform, find_rename, new_name, rename_fields, apply_rename, apply_rename_all,
}

-- The columns under other names: the arrays, types, nullability and metadata are those of before.
abbrev pub Renamed :
    {F : Type 0} → (Text → Text) → List (Field × Array F) → List (Field × Array F) → Type 0
Renamed rename columns columns' =
    columns' ≡ map (λ (f, a). (record f { name = rename f.name }, a)) columns

-- What a `rename` step means for a name: the new name of the first entry whose old name is the name, up
-- to case, and the name itself where there is no such entry.
abbrev pub IsNewName : (Text → Text) → List (Text × Text) → Text → Text → Type 0
IsNewName fold columns name name' =
    ((before : List (Text × Text)) × (old : Text) × (after : List (Text × Text)) × (columns
        ≡ before ++ (old, name') ∷ after)
      × (fold old ≡ fold name)
      × All (λ (other, new). fold other ≢ fold name) before)
    ⊎ (All (λ (other, new). fold other ≢ fold name) columns × (name' ≡ name))

-- The same arrays under names in the relation, with the types, nullability and metadata of before.
abbrev pub RenamedBy :
    {F : Type 0} → (Text → Text → Type 0) → List (Field × Array F) → List (Field × Array F) → Type 0
RenamedBy R [] [] = Unit {0}
RenamedBy R ((f, a) ∷ columns) ((g, b) ∷ columns') =
    (R f.name g.name × (g ≡ record f { name = g.name }) × (b ≡ a)) × RenamedBy R columns columns'
RenamedBy R _ _ = ⊥

differ : (a b : Text) → text_eq a b ≡ false → a ≢ b
differ a b h e =
    let same : text_eq a a ≡ false = rw (sym e) at h in
    absurd (ground (arith, text_eq_refl a, same))

module _ (fold : Text → Text) (name : Text) where
  find_rename-FirstMatch :
      (columns : List (Text × Text)) → IsNewName fold columns name (new_name fold columns name)
  unfolding new_name find_rename
  find_rename-FirstMatch [] = inr (tt, refl)
  find_rename-FirstMatch ((old, new) ∷ columns) =
      elim (Bool-cases (text_eq (fold old) (fold name)))
        as (λ _.
          IsNewName fold ((old, new) ∷ columns) name (new_name fold ((old, new) ∷ columns) name)) [
            | inl e ↦
                rw (new_name, find_rename, e)
                  (inl ([], old, columns, refl, text_eq→eq (fold old) (fold name) e, tt))
            | inr e ↦
                let ne = differ (fold old) (fold name) e in
                rw (new_name, find_rename, e)
                  (elim (find_rename-FirstMatch columns) [
                    | inl (before, k, after, q, l, hs) ↦
                        inl ((old, new) ∷ before, k, after, ap (◌∷◌ (old, new)) q, l, (ne, hs))
                    | inr (hs, q) ↦ inr ((ne, hs), q)
                  ])
          ]

rename_fields-RenamedBy :
    {F : Type 0} (R : Text → Text → Type 0) (rename : Text → Text)
    → ((name : Text) → R name (rename name))
    → (columns : List (Field × Array F)) → RenamedBy R columns (rename_fields rename columns)
rename_fields-RenamedBy R rename h [] = tt
rename_fields-RenamedBy R rename h ((f, a) ∷ columns) =
    ((h f.name, refl, refl), rename_fields-RenamedBy R rename h columns)

unnamed-RenamedBy :
    {F : Type 0} (fold : Text → Text) (columns : List (Field × Array F))
    → RenamedBy (IsNewName fold []) columns columns
unnamed-RenamedBy fold [] = tt
unnamed-RenamedBy fold ((f, a) ∷ columns) =
    ((inr (tt, refl), refl, refl), unnamed-RenamedBy fold columns)

inr-injective : {A : Type 0} {x y : A} → ◌≡◌ {A = Text ⊎ A} (inr x) (inr y) → x ≡ y
inr-injective h = cc

module _ {F : Type 0} where
  rename_fields-Renamed :
      (rename : Text → Text) (columns : List (Field × Array F))
      → Renamed rename columns (rename_fields rename columns)
  rename_fields-Renamed rename [] = refl
  rename_fields-Renamed rename ((f, a) ∷ columns) =
      ap (◌∷◌ (record f { name = rename f.name }, a)) (rename_fields-Renamed rename columns)

  -- Names that a renaming leaves alone.
  all-Renamed :
      (rename : Text → Text) (columns : List (Field × Array F))
      → all (λ (f, a). text_eq f.name (rename f.name)) columns ≡ true
      → Renamed rename columns columns
  all-Renamed rename [] h = refl
  all-Renamed rename ((f, a) ∷ columns) h = elim (Bool-cases (text_eq f.name (rename f.name))) [
    | inl e ↦
        let rest = all-Renamed rename columns (rw e at h) in
        rw (sym (text_eq→eq f.name (rename f.name) e)) (ap (◌∷◌ (f, a)) rest)
    | inr e ↦ let no = rw e at h in cc
  ]

module _ {F : Type 0} (k : Kernels F) (batch out : RecordBatch F) where
  -- A `rename` step gives each column the new name of the first entry whose old name is that of the
  -- column, up to case, and leaves the name of a column without such an entry. It changes nothing else:
  -- the columns, their order, arrays, types, nullability and metadata.
  pub apply_rename-Renamed :
      (columns : List (Text × Text))
      → apply_rename k batch columns ≡ inr out
      → RenamedBy (IsNewName k.strings.unicode.to_lowercase columns) batch.columns out.columns
  unfolding apply_rename
  apply_rename-Renamed [] h =
      let same : batch ≡ out = inr-injective h in
      subst
        (λ (b : RecordBatch F).
          RenamedBy (IsNewName k.strings.unicode.to_lowercase []) batch.columns b.columns)
        same (unnamed-RenamedBy k.strings.unicode.to_lowercase batch.columns)
  apply_rename-Renamed (c ∷ cs) h =
      let lower = k.strings.unicode.to_lowercase in
      subst (RenamedBy (IsNewName lower (c ∷ cs)) batch.columns) (sym (k.try_new_columns _ out h)) (
        rename_fields-RenamedBy (IsNewName lower (c ∷ cs)) (new_name lower (c ∷ cs))
          (λ name. find_rename-FirstMatch lower name (c ∷ cs)) batch.columns)

  pub apply_rename_all-Renamed :
      (case : IdentifierCase)
      → apply_rename_all k batch case ≡ inr out
      → Renamed (transform k.strings case) batch.columns out.columns
  unfolding apply_rename_all
  apply_rename_all-Renamed case h =
      k.try_new_columns _ out h ∙ rename_fields-Renamed (transform k.strings case) batch.columns

  -- Lower-casing, by its fast path too, puts each name in lower case, and changes nothing else.
  pub apply_normalize_columns-Renamed :
      apply_normalize_columns k batch ≡ inr out
      → Renamed k.strings.unicode.to_lowercase batch.columns out.columns
  unfolding apply_normalize_columns
  apply_normalize_columns-Renamed h =
      let lower = k.strings.unicode.to_lowercase in
      elim (Bool-cases (all (λ (f, a). text_eq f.name (lower f.name)) batch.columns)) [
        | inl e ↦
            let same : batch ≡ out = inr-injective (rw (apply_normalize_columns, e) at h) in
            subst (λ (b : RecordBatch F). Renamed lower batch.columns b.columns) same
              (all-Renamed lower batch.columns e)
        | inr e ↦ k.try_new_columns _ out (rw (apply_normalize_columns, e) at h)
      ]
