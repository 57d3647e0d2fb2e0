-- ===== src/Alignment/Mapping.antt =====
-- What the mapping of an alignment points at, and that applying it stays within the batch.
use potato_etl.Base.{
  ℕ, zero, suc, ◌+◌, ◌≡◌, refl, ap, Bool, true, false, not, none, filter, contains, get-insert-none,
  text_eq_refl, sym, ◌∙◌, subst, some, List, [], ◌∷◌, Text, text_eq, text_eq→eq, map, get_elem?,
  All, get, insert, get-insert, get-insert_other, Ensures, holds, fails, Ensures-then, Ensures-if,
  Bool-cases, Option-cases, ◌⊎◌, inl, inr, arith,
}
use potato_etl.Unicode.{Unicode}
use potato_etl.Alignment.{
  TargetColumn, MissingColumnBehavior, AlignedColumn, Gathered, is_refused, batch_names,
  map_targets, dropped_of, bad_rename, compute_alignment, select,
}

module _ (u : Unicode) where
  -- The index is of a field with the name, up to case.
  abbrev pub IsFieldAt : List Text → Text → ℕ → Type 0
  IsFieldAt fields k idx = (f : Text) × (get_elem? fields idx ≡ some f) × (u.to_lowercase f ≡ k)

  -- An index that `batch_names` finds was there before, or is of one of the fields that are added.
  batch_names_sound :
      (i : ℕ) (acc : List (Text × ℕ)) (fields : List Text) (k : Text) (idx : ℕ)
      → get k (batch_names u i acc fields) ≡ some idx
      → (get k acc ≡ some idx) ⊎ ((j : ℕ) × (idx ≡ i + j) × IsFieldAt fields k j)
  unfolding batch_names
  batch_names_sound i acc [] k idx h = inl h
  batch_names_sound i acc (f ∷ fields) k idx h =
      let lower = u.to_lowercase f in
      elim (batch_names_sound (suc i) (insert lower i acc) fields k idx h) [
        | inl old ↦ elim (Bool-cases (text_eq k lower)) [
          | inl same ↦
              let q : k ≡ lower = text_eq→eq k lower same in
              let e : some i ≡ some idx = sym (get-insert lower i acc) ∙ rw q at old in
              let v : i ≡ idx = cc in inr (0, omega arith, (f, refl, sym q))
          | inr other ↦ inl (sym (get-insert_other lower k i acc other) ∙ old)
        ]
        | inr (j, l, r) ↦ inr (suc j, omega arith, r)
      ]

  pub batch_names-IsFieldAt :
      (fields : List Text) (k : Text) (idx : ℕ)
      → get k (batch_names u 0 [] fields) ≡ some idx
      → IsFieldAt fields k idx
  unfolding get
  batch_names-IsFieldAt fields k idx h = elim (batch_names_sound 0 [] fields k idx h) [
    | inl old ↦ absurd cc
    | inr (j, l, r) ↦ let e : j ≡ idx = omega arith in subst (IsFieldAt fields k) e r
  ]

  -- An entry of the mapping points at a field with the name of its table column, up to case.
  abbrev pub PointsAt : List Text → AlignedColumn → Type 0
  PointsAt fields ac = IsFieldAt fields (u.to_lowercase ac.target_name) ac.batch_index

  -- Whether the batch has a field with the name of the column, up to case.
  abbrev pub is_there : List Text → TargetColumn → Bool
  is_there fields tc = contains (u.to_lowercase tc.name) (map u.to_lowercase fields)

  IsFieldAt-contains :
      (fields : List Text) (k : Text) (idx : ℕ)
      → IsFieldAt fields k idx
      → contains k (map u.to_lowercase fields) ≡ true
  unfolding contains
  IsFieldAt-contains [] k idx (f, e, l) = absurd cc
  IsFieldAt-contains (g ∷ fields) k zero (f, e, l) =
      let same : g ≡ f = cc in rw (same, l, text_eq_refl k) refl
  IsFieldAt-contains (g ∷ fields) k (suc idx) (f, e, l) =
      let ih = IsFieldAt-contains fields k idx (f, e, l) in ground arith

  batch_names-none :
      (i : ℕ) (acc : List (Text × ℕ)) (fields : List Text) (k : Text)
      → get k (batch_names u i acc fields) ≡ none
      → (get k acc ≡ none) × (contains k (map u.to_lowercase fields) ≡ false)
  unfolding batch_names contains
  batch_names-none i acc [] k h = (h, refl)
  batch_names-none i acc (f ∷ fields) k h =
      let lower = u.to_lowercase f in
      let (before, rest) = batch_names-none (suc i) (insert lower i acc) fields k h in
      elim (Bool-cases (text_eq k lower)) [
        | inl same ↦
            let q : k ≡ lower = text_eq→eq k lower same in
            let e : some i ≡ none = sym (get-insert lower i acc) ∙ rw q at before in absurd cc
        | inr other ↦ (get-insert-none lower k i acc before, ground arith)
      ]

  -- The columns of the table that the batch has are mapped, in their order, each to such a field, and the
  -- others are missing.
  abbrev Gathers : List Text → List TargetColumn → Gathered → Type 0
  Gathers fields targets g =
      All (PointsAt fields) g.mapping
      × (map (λ (ac : AlignedColumn). ac.target_name) g.mapping
          ≡ map (λ (tc : TargetColumn). tc.name) (filter (is_there fields) targets))
      × (g.missing_columns
          ≡ map (λ (tc : TargetColumn). tc.name) (filter (λ tc. not (is_there fields tc)) targets))

  map_targets-Gathers :
      (behavior : MissingColumnBehavior) (fields : List Text) (i : ℕ) (targets : List TargetColumn)
      → Ensures
          (Gathers fields targets)
          (map_targets u behavior (batch_names u 0 [] fields) i targets)
  unfolding map_targets filter
  map_targets-Gathers behavior fields i [] = holds (tt, refl, refl)
  map_targets-Gathers behavior fields i (tc ∷ tcs) =
      let ih = map_targets-Gathers behavior fields (suc i) tcs in
      let k = u.to_lowercase tc.name in
      elim (Option-cases (get k (batch_names u 0 [] fields))) [
        | inl e ↦
            let absent = batch_names-none 0 [] fields k e in
            rw (e, map_targets)
              (Ensures-if (is_refused behavior tc) (λ _. fails)
                λ _. Ensures-then ih λ g r.
                  holds
                    (r.0, rw (absent.1, filter) r.1, rw (absent.1, filter) (ap (◌∷◌ tc.name) r.2)))
        | inr (idx, e) ↦
            let at = batch_names-IsFieldAt fields k idx e in
            let there = IsFieldAt-contains fields k idx at in
            rw (e, map_targets)
              (Ensures-then ih λ g r.
                holds
                  ((at, r.0), rw (there, filter) (ap (◌∷◌ tc.name) r.1), rw (there, filter) r.2))
      ]

module _ {A : Type 0} where
  get_elem?-map :
      (columns : List (Text × A)) (i : ℕ) (f : Text)
      → get_elem? (map (λ c. c.0) columns) i ≡ some f
      → (c : Text × A) × (get_elem? columns i ≡ some c) × (c.0 ≡ f)
  get_elem?-map [] i f h = absurd cc
  get_elem?-map (c ∷ columns) zero f h = (c, refl, cc)
  get_elem?-map (c ∷ columns) (suc i) f h = get_elem?-map columns i f h

  -- The columns that the mapping selects are there, and have the names of the table's columns, up to
  -- case, in the order of the table.
  abbrev pub Selects : Unicode → List (Text × A) → List AlignedColumn → Type 0
  Selects u columns mapping =
      (selected : List (Text × A)) × (select columns mapping ≡ some selected)
      × (map (λ c. u.to_lowercase c.0) selected
          ≡ map (λ (ac : AlignedColumn). u.to_lowercase ac.target_name) mapping)

  select_lem :
      (u : Unicode) (columns : List (Text × A)) (mapping : List AlignedColumn)
      → All (PointsAt u (map (λ c. c.0) columns)) mapping
      → Selects u columns mapping
  unfolding select
  select_lem u columns [] h = ([], refl, refl)
  select_lem u columns (ac ∷ mapping) ((f, e, n), hs) =
      let (c, g, q) = get_elem?-map columns ac.batch_index f e in
      let (selected, s, t) = select_lem u columns mapping hs in
      (c ∷ selected, rw (g, s) refl, rw (q, n, t) refl)

  -- An alignment of a batch with a table maps the columns of the table that the batch has, up to case, in
  -- the order of the table, and reports the others, and only these, as missing. The columns of the batch
  -- that it selects are there, so applying it stays within the batch, and they have the names of the
  -- mapped columns, up to case, one for one.
  pub compute_alignment-Selects :
      (u : Unicode) (columns : List (Text × A)) (targets : List TargetColumn)
      (behavior : MissingColumnBehavior) (rename_targets : List Text)
      → Ensures
          (λ a.
            Selects u columns a.mapping
            × (map (λ (ac : AlignedColumn). ac.target_name) a.mapping
                ≡ map
                    (λ (tc : TargetColumn). tc.name)
                    (filter (is_there u (map (λ c. c.0) columns)) targets))
            × (a.missing_columns
                ≡ map
                    (λ (tc : TargetColumn). tc.name)
                    (filter (λ tc. not (is_there u (map (λ c. c.0) columns) tc)) targets)))
          (compute_alignment u (map (λ c. c.0) columns) targets behavior rename_targets)
  unfolding compute_alignment
  compute_alignment-Selects u columns [] behavior rename_targets = fails
  compute_alignment-Selects u columns (tc ∷ tcs) behavior rename_targets =
      let fields = map (λ c. c.0) columns in
      Ensures-then (map_targets-Gathers u behavior fields 0 (tc ∷ tcs)) λ g r.
        elim (Option-cases (bad_rename u rename_targets (dropped_of u fields (tc ∷ tcs)))) [
          | inl e ↦ rw e (holds (select_lem u columns g.mapping r.0, r.1, r.2))
          | inr (bad, e) ↦ rw e fails
        ]
