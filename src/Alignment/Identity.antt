-- ===== src/Alignment/Identity.antt =====
-- When the alignment leaves a batch as it is.
use potato_etl.Base.{
  ℕ, suc, ◌≡◌, refl, ap, sym, ◌∙◌, subst, Bool, true, false, not, ◌&&◌, List, [], ◌∷◌, Text, is_nil,
  map, length, ◌==◌, get, Ensures, holds, fails, Ensures-then, Ensures-if, Option-cases, inl, inr,
  arith,
}
use potato_etl.Unicode.{Unicode}
use potato_etl.Alignment.{
  TargetColumn, MissingColumnBehavior, Gathered, is_refused, batch_names, map_targets, dropped_of,
  bad_rename, compute_alignment,
}
use potato_etl.Alignment.Mapping.{IsFieldAt, batch_names-IsFieldAt}

identity_parts :
    (reorder dropped missing : Bool) (m n : ℕ)
    → (not reorder && (dropped && (missing && (m == n)))) ≡ true
    → (reorder ≡ false) × (missing ≡ true) × (m ≡ n)
identity_parts reorder dropped missing m n h = ground arith

module _ (u : Unicode) where
  -- The fields from the index `i` on have the names of the table's columns, up to case.
  abbrev InOrder : List Text → ℕ → List TargetColumn → Type 0
  InOrder fields i [] = Unit {0}
  InOrder fields i (tc ∷ tcs) =
      IsFieldAt u fields (u.to_lowercase tc.name) i × InOrder fields (suc i) tcs

  InOrder-tail :
      (f : Text) (fields : List Text) (i : ℕ) (targets : List TargetColumn)
      → InOrder (f ∷ fields) (suc i) targets
      → InOrder fields i targets
  InOrder-tail f fields i [] h = tt
  InOrder-tail f fields i (tc ∷ tcs) (h, hs) = (h, InOrder-tail f fields (suc i) tcs hs)

  InOrder-names :
      (fields : List Text) (targets : List TargetColumn)
      → length fields ≡ length targets
      → InOrder fields 0 targets
      → map u.to_lowercase fields ≡ map (λ (tc : TargetColumn). u.to_lowercase tc.name) targets
  InOrder-names [] [] l h = refl
  InOrder-names [] (tc ∷ tcs) l h = absurd (omega arith)
  InOrder-names (f ∷ fields) [] l h = absurd (omega arith)
  InOrder-names (f ∷ fields) (tc ∷ tcs) l ((g, e, n), hs) =
      let q : f ≡ g = cc in
      rw (q, n, InOrder-names fields tcs (omega arith) (InOrder-tail f fields 0 tcs hs)) refl

  -- No column is missing or out of its place.
  abbrev IsStraight : List Text → ℕ → List TargetColumn → Gathered → Type 0
  IsStraight fields i targets g =
      g.needs_reorder ≡ false
      → is_nil g.missing_columns ≡ true
      → InOrder fields i targets × (length g.mapping ≡ length targets)

  map_targets-IsStraight :
      (behavior : MissingColumnBehavior) (fields : List Text) (i : ℕ) (targets : List TargetColumn)
      → Ensures
          (IsStraight fields i targets)
          (map_targets u behavior (batch_names u 0 [] fields) i targets)
  unfolding map_targets
  map_targets-IsStraight behavior fields i [] = holds λ n m. (tt, refl)
  map_targets-IsStraight behavior fields i (tc ∷ tcs) =
      let ih = map_targets-IsStraight behavior fields (suc i) tcs in
      let k = u.to_lowercase tc.name in
      elim (Option-cases (get k (batch_names u 0 [] fields))) [
        | inl e ↦
            rw (e, map_targets)
              (Ensures-if (is_refused behavior tc) (λ _. fails)
                λ _. Ensures-then ih λ g r. holds λ n m. absurd cc)
        | inr (idx, e) ↦
            rw (e, map_targets)
              (Ensures-then ih λ g r. holds λ n m.
                let v : idx ≡ i = ground arith in
                let rest = r (ground arith) m in
                (
                  (subst (IsFieldAt u fields k) v (batch_names-IsFieldAt u fields k idx e), rest.0),
                  ap suc rest.1,
                ))
      ]

  -- An alignment is the identity, for which the batch is written as it is, only if the batch has the
  -- table's columns and no others, in the order of the table, up to case.
  pub compute_alignment-identity :
      (fields : List Text) (targets : List TargetColumn) (behavior : MissingColumnBehavior)
      (rename_targets : List Text)
      → Ensures
          (λ a.
            a.identity ≡ true
            → map u.to_lowercase fields
              ≡ map (λ (tc : TargetColumn). u.to_lowercase tc.name) targets)
          (compute_alignment u fields targets behavior rename_targets)
  unfolding compute_alignment
  compute_alignment-identity fields [] behavior rename_targets = fails
  compute_alignment-identity fields (tc ∷ tcs) behavior rename_targets =
      Ensures-then (map_targets-IsStraight behavior fields 0 (tc ∷ tcs)) λ g r.
        elim (Option-cases (bad_rename u rename_targets (dropped_of u fields (tc ∷ tcs)))) [
          | inl e ↦ rw e (
              holds λ h.
                let p =
                  identity_parts g.needs_reorder (is_nil (dropped_of u fields (tc ∷ tcs)))
                    (is_nil g.missing_columns) (length g.mapping) (length fields) h in
                let s = r p.0 p.1 in InOrder-names fields (tc ∷ tcs) (sym p.2 ∙ s.1) s.0)
          | inr (bad, e) ↦ rw e fails
        ]
