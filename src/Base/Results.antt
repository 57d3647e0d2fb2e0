-- ===== src/Base/Results.antt =====
-- `anyhow::Result` with the errors of one component, and a third outcome for the loops of the model
-- that run on fuel. A theorem says where it cannot occur.
use mathlib.Core.Path.{◌≡◌, refl}
use mathlib.Core.Option.{Option, none, some}
use mathlib.Core.Bool.{Bool, true, false}
use potato_etl.Base.Tests.{if◌then◌else◌}

pub data Result {ℓ} (E : Type 0) (A : Type ℓ) : Type ℓ where
  ok : A → Result E A
  err : E → Result E A
  out_of_fuel : Result E A

-- `?`
abbrev pub then_ok {ℓ κ} :
    {E : Type 0} {A : Type ℓ} {B : Type κ} → Result E A → (A → Result E B) → Result E B
then_ok (ok a) f = f a
then_ok (err e) f = err e
then_ok out_of_fuel f = out_of_fuel

-- `Option::ok_or`
abbrev pub ok_or {ℓ} : {E : Type 0} {A : Type ℓ} → E → Option A → Result E A
ok_or e none = err e
ok_or e (some a) = ok a

-- Inversion of a successful `?`.
pub then_ok-eq-ok {ℓ κ} :
    {E : Type 0} {A : Type ℓ} {B : Type κ} (m : Result E A) (f : A → Result E B) {b : B}
    → then_ok m f ≡ ok b
    → (a : A) × (m ≡ ok a) × (f a ≡ ok b)
then_ok-eq-ok (ok a) f h = (a, refl, h)
then_ok-eq-ok (err e) f h = cc
then_ok-eq-ok out_of_fuel f h = cc

-- The run kept within its fuel, and `P` holds of its value if it has one.
pub data Ensures {ℓ κ} {E : Type 0} {A : Type ℓ} (P : A → Type κ) : Result E A → Type (ℓ ⊔ κ) where
  holds : {a : A} → P a → Ensures P (ok a)
  fails : {e : E} → Ensures P (err e)

module _ {ℓ κ} {E : Type 0} {A : Type ℓ} {P : A → Type κ} where
  pub Ensures-then {ℓ' κ'} :
      {B : Type ℓ'} {Q : B → Type κ'} {r : Result E A} {f : A → Result E B}
      → Ensures P r
      → ((a : A) → P a → Ensures Q (f a))
      → Ensures Q (then_ok r f)
  Ensures-then (holds {a} h) k = k a h
  Ensures-then fails k = fails

  pub Ensures-ne-out_of_fuel : {r : Result E A} → Ensures P r → r ≡ out_of_fuel → ⊥
  Ensures-ne-out_of_fuel (holds h) = cc
  Ensures-ne-out_of_fuel fails = cc

  pub Ensures-if :
      (b : Bool) {x y : Result E A}
      → (b ≡ true → Ensures P x)
      → (b ≡ false → Ensures P y)
      → Ensures P (if b then x else y)
  Ensures-if true hx hy = hx refl
  Ensures-if false hx hy = hy refl

  pub Ensures-weaken {κ'} :
      {Q : A → Type κ'} {r : Result E A} → Ensures P r → ((a : A) → P a → Q a) → Ensures Q r
  Ensures-weaken (holds {a} h) k = holds (k a h)
  Ensures-weaken fails k = fails

  pub Ensures-ok_or : (e : E) (o : Option A) → ((a : A) → o ≡ some a → P a) → Ensures P (ok_or e o)
  Ensures-ok_or e none h = fails
  Ensures-ok_or e (some a) h = holds (h a refl)

-- The run kept within its fuel, and `P` holds of its value or `Q` of its error.
pub data Meets {ℓ κ λ'} {E : Type 0} {A : Type ℓ} (P : A → Type κ) (Q : E → Type λ')
    : Result E A → Type (ℓ ⊔ κ ⊔ λ') where
  meets : {a : A} → P a → Meets P Q (ok a)
  refuses : {e : E} → Q e → Meets P Q (err e)

pub Meets-then {ℓ κ λ' ℓ' κ'} :
    {E : Type 0} {A : Type ℓ} {P : A → Type κ} {Q : E → Type λ'} {B : Type ℓ'} {P' : B → Type κ'}
    {r : Result E A} {f : A → Result E B}
    → Meets P Q r
    → ((a : A) → P a → Meets P' Q (f a))
    → Meets P' Q (then_ok r f)
Meets-then (meets {a} h) k = k a h
Meets-then (refuses q) k = refuses q

pub Meets-weaken {ℓ κ λ' κ'} :
    {E : Type 0} {A : Type ℓ} {P : A → Type κ} {Q : E → Type λ'} {P' : A → Type κ'} {r : Result E A}
    → Meets P Q r
    → ((a : A) → P a → P' a)
    → Meets P' Q r
Meets-weaken (meets {a} h) k = meets (k a h)
Meets-weaken (refuses q) k = refuses q
