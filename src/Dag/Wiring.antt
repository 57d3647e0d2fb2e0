-- ===== src/Dag/Wiring.antt =====
-- What `Dag::validate` accepts: every input stands before the step that reads it, so the steps form
-- no cycle and can be run in their order.
use potato_etl.Base.{
  ℕ, suc, ◌<◌, ◌≡◌, refl, true, ◌⊎◌, inl, inr, some, List, [], ◌∷◌, Text, text_eq, text_eq→eq,
  if◌then◌else◌, Result, ok, err, out_of_fuel, then_ok, arith, Bool-cases, Option-cases, contains,
  get,
}
use potato_etl.Dag.{Dag, ComponentSpec, inputs, check_ids, check_inputs, check_order, validate}

-- The place of the first occurrence of an id, or the length of the list.
unfoldable pub position : Text → List Text → ℕ
unfolding text_eq
position id [] = 0
position id (x ∷ xs) = if text_eq id x then 0 else suc (position id xs)

both_ok :
    {E : Type 0} {r : Result E (Unit {0})} (q : Result E (Unit {0}))
    → then_ok q (λ _. r) ≡ ok tt
    → (q ≡ ok tt) × (r ≡ ok tt)
both_ok (ok x) h = (refl, h)
both_ok (err e) h = absurd cc
both_ok out_of_fuel h = absurd cc

check_inputs_sound :
    (id : Text) (seen ins : List Text) (input : Text)
    → check_inputs id seen ins ≡ ok tt
    → contains input ins ≡ true
    → contains input seen ≡ true
unfolding check_inputs contains
check_inputs_sound id seen [] input h m = ground arith
check_inputs_sound id seen (x ∷ more) input h m =
    ground (arith, text_eq→eq input x, check_inputs_sound id seen more input)

module _ {C : Type 0} where
  -- The step `a` reads the step `b`, itself or through others.
  pub data DependsOn (d : Dag C) : Text → Text → Type 0 where
    direct :
        {a b : Text} {spec : ComponentSpec C}
        → contains a d.order ≡ true
        → get a d.specs ≡ some spec
        → contains b (inputs spec) ≡ true
        → DependsOn d a b
    chain : {a b c : Text} → DependsOn d a b → DependsOn d b c → DependsOn d a c

  check_order-inputs :
      (specs : List (Text × ComponentSpec C)) (seen ids : List Text) (x : Text)
      (spec : ComponentSpec C)
      → check_order specs seen (x ∷ ids) ≡ ok tt
      → get x specs ≡ some spec
      → check_inputs x seen (inputs spec) ≡ ok tt
  unfolding check_order
  check_order-inputs specs seen ids x spec h e = (both_ok _ (rw (e, check_order) at h)).0

  check_order-rest :
      (specs : List (Text × ComponentSpec C)) (seen ids : List Text) (x : Text)
      → check_order specs seen (x ∷ ids) ≡ ok tt
      → check_order specs (x ∷ seen) ids ≡ ok tt
  unfolding check_order
  check_order-rest specs seen ids x h = elim (Option-cases (get x specs)) [
    | inl e ↦ absurd (let k = rw (e, check_order) at h in cc)
    | inr (spec, e) ↦ (both_ok _ (rw (e, check_order) at h)).1
  ]

  check_order_sound :
      (specs : List (Text × ComponentSpec C)) (seen ids : List Text) (id input : Text)
      (spec : ComponentSpec C)
      → check_order specs seen ids ≡ ok tt
      → contains id ids ≡ true
      → get id specs ≡ some spec
      → contains input (inputs spec) ≡ true
      → (contains input seen ≡ true) ⊎ (position input ids < position id ids)
  unfolding check_order contains position
  check_order_sound specs seen [] id input spec h m e i = ground arith
  check_order_sound specs seen (x ∷ ids) id input spec h m e i = elim (Bool-cases (text_eq id x)) [
    | inl same ↦ inl (
        check_inputs_sound x seen (inputs spec) input
          (check_order-inputs specs seen ids x spec h (rw (text_eq→eq id x same) at e)) i)
    | inr other ↦
        let ih =
          check_order_sound specs (x ∷ seen) ids id input spec (check_order-rest specs seen ids x h)
            (ground arith) e i in
        elim ih [ inl k ↦ ground arith | inr l ↦ inr (ground arith) ]
  ]

  -- In a pipeline that validates, each input of a step is declared before the step: the order of the
  -- steps matters.
  pub validate-position :
      (d : Dag C) (id input : Text) (spec : ComponentSpec C)
      → validate d ≡ ok tt
      → contains id d.order ≡ true
      → get id d.specs ≡ some spec
      → contains input (inputs spec) ≡ true
      → position input d.order < position id d.order
  unfolding validate contains
  validate-position d id input spec h m e i =
      elim (check_order_sound d.specs [] d.order id input spec (both_ok (check_ids [] d.order) h).1
        m e i) [ inl k ↦ absurd cc | inr l ↦ l ]

  DependsOn-position :
      (d : Dag C) (a b : Text)
      → validate d ≡ ok tt
      → DependsOn d a b
      → position b d.order < position a d.order
  DependsOn-position d a b h (direct {spec = spec} m e i) = validate-position d a b spec h m e i
  DependsOn-position d a b h (chain {b = x} p q) =
      omega (arith, DependsOn-position d a x h p, DependsOn-position d x b h q)

  -- A pipeline that validates has no cycle: no step reads its own output, itself or through others.
  pub validate-acyclic : (d : Dag C) (a : Text) → validate d ≡ ok tt → ¬ DependsOn d a a
  validate-acyclic d a h p = omega (arith, DependsOn-position d a a h p)
