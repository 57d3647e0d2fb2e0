-- ===== src/Dag.antt =====
-- The wiring of a pipeline: its components, how they are added, and `Dag::validate`
-- (runtime/src/dag/mod.rs). The configuration that a component has beside its inputs is a type `C`,
-- on which the wiring does not depend.
use potato_etl.Base.{
  ◌≡◌, Bool, true, false, Option, none, some, List, [], ◌∷◌, ◌++◌, Text, if◌then◌else◌, contains,
  get, insert, Result, ok, err, then_ok,
}
mod Wiring
mod Building
mod Tests

pub data ComponentSpec (C : Type 0) : Type 0 where
  source rest_api_source json_file_source csv_file_source parquet_file_source : C → ComponentSpec C
  transform rename flatten unnest sink scd2_sink aggregate : (input : Text) → C → ComponentSpec C
  rest_api_sink csv_file_sink json_file_sink parquet_file_sink :
      (input : Text) → C → ComponentSpec C
  join : (left right : Text) → C → ComponentSpec C

unfoldable pub inputs : {C : Type 0} → ComponentSpec C → List Text
inputs (source c) = []
inputs (rest_api_source c) = []
inputs (json_file_source c) = []
inputs (csv_file_source c) = []
inputs (parquet_file_source c) = []
inputs (transform input c) = input ∷ []
inputs (rename input c) = input ∷ []
inputs (flatten input c) = input ∷ []
inputs (unnest input c) = input ∷ []
inputs (sink input c) = input ∷ []
inputs (scd2_sink input c) = input ∷ []
inputs (aggregate input c) = input ∷ []
inputs (rest_api_sink input c) = input ∷ []
inputs (csv_file_sink input c) = input ∷ []
inputs (json_file_sink input c) = input ∷ []
inputs (parquet_file_sink input c) = input ∷ []
inputs (join left right c) = left ∷ right ∷ []

-- The order of declaration and the map from an id to its component.
pub record Dag (C : Type 0) : Type 0 where
  pub order : List Text
  pub specs : List (Text × ComponentSpec C)

-- `missing_spec` is the panic of the index `self.specs[id]`.
pub data WiringError : Type 0 where
  duplicate_id missing_spec : (id : Text) → WiringError
  undefined_input : (id input : Text) → WiringError

-- What every `add_*` method does with the component that it makes.
unfoldable pub add : {C : Type 0} → Text → ComponentSpec C → Dag C → Dag C
unfolding insert
add id spec d = record { order = d.order ++ id ∷ []; specs = insert id spec d.specs }

-- The check of duplicate ids; `defined` are the ids before.
unfoldable pub check_ids : List Text → List Text → Result WiringError (Unit {0})
unfolding contains
check_ids defined [] = ok tt
check_ids defined (id ∷ ids) =
    let rest = check_ids (id ∷ defined) ids in
    if contains id defined then err (duplicate_id id) else rest

-- The check of the inputs of one component; `seen` are the ids before it.
unfoldable pub check_inputs : Text → List Text → List Text → Result WiringError (Unit {0})
unfolding contains
check_inputs id seen [] = ok tt
check_inputs id seen (input ∷ more) =
    let rest = check_inputs id seen more in
    if contains input seen then rest else err (undefined_input id input)

unfoldable pub check_order :
    {C : Type 0}
    → List (Text × ComponentSpec C)
    → List Text
    → List Text
    → Result WiringError (Unit {0})
unfolding get inputs check_inputs
check_order specs seen [] = ok tt
check_order specs seen (id ∷ ids) =
    let rest = check_order specs (id ∷ seen) ids in
    elim (get id specs) [
      | none ↦ err (missing_spec id)
      | some spec ↦ then_ok (check_inputs id seen (inputs spec)) λ _. rest
    ]

unfoldable pub validate : {C : Type 0} → Dag C → Result WiringError (Unit {0})
unfolding check_ids check_order
validate d = then_ok (check_ids [] d.order) λ _. check_order d.specs [] d.order
