-- ===== src/Base/Filters.antt =====
-- The elements of a list that pass a test.
use mathlib.Core.Bool.{Bool, true, false}
use mathlib.Core.List.{List, [], ◌∷◌}
use potato_etl.Base.Tests.{if◌then◌else◌}

-- `Iterator::filter`
unfoldable pub filter {ℓ} : {A : Type ℓ} → (A → Bool) → List A → List A
filter p [] = []
filter p (x ∷ xs) = let kept = filter p xs in if p x then x ∷ kept else kept

-- `Vec::is_empty`
abbrev pub is_nil {ℓ} : {A : Type ℓ} → List A → Bool
is_nil [] = true
is_nil (x ∷ xs) = false
