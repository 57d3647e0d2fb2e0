-- ===== src/Dag/Building.antt =====
-- Pipelines as the `add_*` methods build them: `Dag::validate` never indexes a component that is not
-- there, so it does not panic.
use potato_etl.Base.{
  ◌≡◌, ◌≢◌, true, ◌⊎◌, inl, inr, none, List, [], ◌∷◌, ◌++◌, Text, text_eq_refl, text_eq→eq, Result,
  ok, err, out_of_fuel, then_ok, arith, Option-cases, contains, get, get-insert, get-insert-none,
}
use potato_etl.Dag.{
  Dag, ComponentSpec, WiringError, missing_spec, inputs, add, check_ids, check_inputs, check_order,
  validate,
}

contains-append :
    (x id : Text) (ids : List Text)
    → contains x (ids ++ id ∷ []) ≡ true
    → (contains x ids ≡ true) ⊎ (x ≡ id)
unfolding contains
contains-append x id [] h = ground (arith, text_eq→eq x id)
contains-append x id (y ∷ ids) h = ground (arith, contains-append x id ids)

second_err :
    {r : Result WiringError (Unit {0})} {e : WiringError} (q : Result WiringError (Unit {0}))
    → then_ok q (λ _. r) ≡ err e
    → q ≢ err e
    → r ≡ err e
second_err (ok x) h n = h
second_err (err x) h n = absurd (n h)
second_err out_of_fuel h n = absurd cc

check_ids-missing :
    (defined ids : List Text) (id : Text) → check_ids defined ids ≢ err (missing_spec id)
unfolding check_ids
check_ids-missing defined [] id h = cc
check_ids-missing defined (x ∷ ids) id h = ground (arith, check_ids-missing (x ∷ defined) ids id)

check_inputs-missing :
    (x : Text) (seen ins : List Text) (id : Text) → check_inputs x seen ins ≢ err (missing_spec id)
unfolding check_inputs
check_inputs-missing x seen [] id h = cc
check_inputs-missing x seen (i ∷ ins) id h = ground (arith, check_inputs-missing x seen ins id)

module _ {C : Type 0} where
  -- Every id of the order has a component.
  abbrev HasSpecs : List Text → List (Text × ComponentSpec C) → Type 0
  HasSpecs order specs = (id : Text) → contains id order ≡ true → get id specs ≢ none

  add-HasSpecs :
      (id : Text) (spec : ComponentSpec C) (d : Dag C)
      → HasSpecs d.order d.specs
      → HasSpecs (add id spec d).order (add id spec d).specs
  unfolding add
  add-HasSpecs id spec d h x m = elim (contains-append x id d.order m) [
    | inl old ↦ λ e. h x old (get-insert-none id x spec d.specs e)
    | inr new ↦ λ e. ground (arith, get-insert id spec d.specs)
  ]

  -- A new pipeline with components added one by one.
  unfoldable pub build : List (Text × ComponentSpec C) → Dag C → Dag C
  unfolding add
  build [] d = d
  build ((id, spec) ∷ steps) d = build steps (add id spec d)

  build-HasSpecs :
      (steps : List (Text × ComponentSpec C)) (d : Dag C)
      → HasSpecs d.order d.specs
      → HasSpecs (build steps d).order (build steps d).specs
  unfolding build
  build-HasSpecs [] d h = h
  build-HasSpecs ((id, spec) ∷ steps) d h =
      build-HasSpecs steps (add id spec d) (add-HasSpecs id spec d h)

  check_order-missing :
      (specs : List (Text × ComponentSpec C)) (seen ids : List Text) (id : Text)
      → check_order specs seen ids ≡ err (missing_spec id)
      → (contains id ids ≡ true) × (get id specs ≡ none)
  unfolding check_order contains
  check_order-missing specs seen [] id h = absurd cc
  check_order-missing specs seen (x ∷ ids) id h = elim (Option-cases (get x specs)) [
    | inl e ↦
        let k = rw (e, check_order) at h in
        let same : x ≡ id = cc in (ground (arith, text_eq_refl id), rw same at e)
    | inr (spec, e) ↦
        let k = rw (e, check_order) at h in
        let r = check_order-missing specs (x ∷ seen) ids id (
          second_err (check_inputs x seen (inputs spec)) k
            (check_inputs-missing x seen (inputs spec) id)) in
        (ground arith, r.1)
  ]

  -- A pipeline that the `add_*` methods build validates or is refused for its ids or its inputs:
  -- every id has a component, so looking one up does not panic.
  pub validate-build-ne-missing :
      (steps : List (Text × ComponentSpec C)) (id : Text)
      → validate (build steps (record { order = []; specs = [] })) ≢ err (missing_spec id)
  unfolding validate
  validate-build-ne-missing steps id h =
      let d = build steps (record { order = []; specs = [] }) in
      let m =
        check_order-missing d.specs [] d.order id
          (second_err (check_ids [] d.order) h (check_ids-missing [] d.order id)) in
      build-HasSpecs steps (record { order = []; specs = [] }) (λ x m e. absurd (ground arith)) id
        m.0 m.1
