-- ===== src/Dag/Tests.antt =====
-- A small pipeline, and the theorems on wiring at it.
use potato_etl.Base.{◌≡◌, ◌≢◌, ◌<◌, refl, ok, err, List, [], ◌∷◌, Text, codes, contains, get}
use potato_etl.Dag.{
  Dag, ComponentSpec, source, join, sink, missing_spec, duplicate_id, undefined_input, inputs,
  validate,
}
use potato_etl.Dag.Wiring.{position, DependsOn, validate-position, validate-acyclic}
use potato_etl.Dag.Building.{build, validate-build-ne-missing}

abbrev orders : Text
orders = codes "orders"

abbrev people : Text
people = codes "people"

abbrev joined : Text
joined = codes "joined"

abbrev steps : List (Text × ComponentSpec (Unit {0}))
steps =
    (orders, source tt)
    ∷ (people, source tt)
    ∷ (joined, join orders people tt)
    ∷ (codes "out", sink joined tt)
    ∷ []

abbrev empty_dag : Dag (Unit {0})
empty_dag = record { order = []; specs = [] }

abbrev pipeline : Dag (Unit {0})
unfolding build
pipeline = build steps empty_dag

validates : validate pipeline ≡ ok tt
unfolding validate pipeline
validates = refl

refuses_duplicate :
    validate (build ((orders, source tt) ∷ steps) empty_dag) ≡ err (duplicate_id orders)
unfolding validate build
refuses_duplicate = refl

refuses_undefined :
    validate (build ((orders, sink people tt) ∷ []) empty_dag) ≡ err (undefined_input orders people)
unfolding validate build
refuses_undefined = refl

validate-position_example : position people pipeline.order < position joined pipeline.order
unfolding contains get inputs pipeline
validate-position_example =
    validate-position pipeline joined people (join orders people tt) validates refl refl refl

validate-acyclic_example : ¬ DependsOn pipeline joined joined
validate-acyclic_example = validate-acyclic pipeline joined validates

validate-build-ne-missing_example : validate (build steps empty_dag) ≢ err (missing_spec joined)
validate-build-ne-missing_example = validate-build-ne-missing steps joined
