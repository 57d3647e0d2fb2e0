-- ===== src/Transform/Map/Entries.antt =====
-- common/src/transform/map.rs: what replacing or adding a column leaves as it was.
use potato_etl.Base.{
  ◌≢◌, ℕ, zero, suc, ◌≡◌, ap, ◌∙◌, Bool, false, none, some, List, [], ◌∷◌, Text, text_eq,
  text_eq_refl, text_eq→eq, get_elem?, arith,
}
use potato_etl.Arrow.{Array, Field}
use potato_etl.Transform.Map.{put_column, find_entry}

-- There is a column of the name.
abbrev pub HasEntry : {F : Type 0} → Text → List (Field × Array F) → Type 0
HasEntry name columns = find_entry name columns ≢ none

module _ {F : Type 0} where
  pub put_column-HasEntry :
      (name : Text) (arr : Array F) (nullable : Bool) (columns : List (Field × Array F))
      → HasEntry name (put_column name arr nullable columns)
  unfolding put_column find_entry
  put_column-HasEntry name arr nullable [] = ground (arith, text_eq_refl name)
  put_column-HasEntry name arr nullable ((f, a) ∷ columns) =
      ground (arith, text_eq_refl name, put_column-HasEntry name arr nullable columns)

  pub put_column-keeps-HasEntry :
      (name m : Text) (arr : Array F) (nullable : Bool) (columns : List (Field × Array F))
      → HasEntry m columns
      → HasEntry m (put_column name arr nullable columns)
  unfolding put_column find_entry
  put_column-keeps-HasEntry name m arr nullable [] h = ground arith
  put_column-keeps-HasEntry name m arr nullable ((f, a) ∷ columns) h =
      ground (arith, text_eq→eq name f.name, put_column-keeps-HasEntry name m arr nullable columns)

  pub put_column-keeps :
      (name : Text) (arr : Array F) (nullable : Bool) (columns : List (Field × Array F)) (i : ℕ)
      (f : Field) (a : Array F)
      → get_elem? columns i ≡ some (f, a)
      → text_eq name f.name ≡ false
      → get_elem? (put_column name arr nullable columns) i ≡ some (f, a)
  unfolding put_column
  put_column-keeps name arr nullable [] i f a h ne = cc
  put_column-keeps name arr nullable ((g, b) ∷ columns) zero f a h ne =
      let same : g ≡ f = cc in rw (ap (λ (x : Field). text_eq name x.name) same ∙ ne) h
  put_column-keeps name arr nullable ((g, b) ∷ columns) (suc i) f a h ne =
      ground (arith, put_column-keeps name arr nullable columns i f a)
