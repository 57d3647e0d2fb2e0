-- ===== src/Base/Maps.antt =====
-- Sets and maps keyed by texts: a list of the keys, and an association list in the order of insertion.
use mathlib.Core.Path.{◌≡◌, refl}
use mathlib.Core.Bool.{Bool, false}
use mathlib.Core.Option.{Option, none, some}
use mathlib.Core.List.{List, [], ◌∷◌}
use native.Mathlib.Omega.{arith}
use potato_etl.Base.Tests.{if◌then◌else◌}
use potato_etl.Base.Lists.{any}
use potato_etl.Base.Texts.{Text, text_eq, text_eq_refl, text_eq→eq}

-- `HashSet::contains`
unfoldable pub contains : Text → List Text → Bool
unfolding text_eq
contains id ids = any (text_eq id) ids

-- `IndexMap::get`, `HashMap::get`
unfoldable pub get {ℓ} : {A : Type ℓ} → Text → List (Text × A) → Option A
unfolding text_eq
get id [] = none
get id ((k, a) ∷ rest) = if text_eq id k then some a else get id rest

-- `IndexMap::insert`, `HashMap::insert`: the value of a key that is there is replaced where it stands.
unfoldable pub insert {ℓ} : {A : Type ℓ} → Text → A → List (Text × A) → List (Text × A)
unfolding text_eq
insert id a [] = (id, a) ∷ []
insert id a ((k, b) ∷ rest) =
    let kept = insert id a rest in if text_eq id k then (k, a) ∷ rest else (k, b) ∷ kept

pub get-insert {ℓ} :
    {A : Type ℓ} (k : Text) (a : A) (m : List (Text × A)) → get k (insert k a m) ≡ some a
unfolding get insert
get-insert k a [] = ground (arith, text_eq_refl k)
get-insert k a ((x, b) ∷ m) = ground (arith, text_eq_refl k, get-insert k a m)

pub get-insert-none {ℓ} :
    {A : Type ℓ} (k x : Text) (a : A) (m : List (Text × A))
    → get x (insert k a m) ≡ none
    → get x m ≡ none
unfolding get insert
get-insert-none k x a [] h = refl
get-insert-none k x a ((y, b) ∷ m) h = ground (arith, get-insert-none k x a m)

pub get-insert_other {ℓ} :
    {A : Type ℓ} (k x : Text) (a : A) (m : List (Text × A))
    → text_eq x k ≡ false
    → get x (insert k a m) ≡ get x m
unfolding get insert
get-insert_other k x a [] h = rw h refl
get-insert_other k x a ((y, b) ∷ m) h = ground (arith, text_eq→eq k y, get-insert_other k x a m)
