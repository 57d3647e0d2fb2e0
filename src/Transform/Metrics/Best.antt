-- ===== src/Transform/Metrics/Best.antt =====
-- common/src/transform/aggregate.rs: the least and the greatest integer of a group.
use potato_etl.Base.{
  ℕ, suc, ◌≡◌, refl, sym, ap, ◌∙◌, subst, Bool, true, false, Option, none, some, List, [], ◌∷◌,
  get_elem?, All, ◌↔◌, ◌≢◌, ◌⊎◌, inl, inr, Bool-cases, arith,
}
use potato_etl.Base.Int.{ℤ, pos, negsuc, leb_int}
use potato_etl.Transform.Metrics.{best_from, best_int}

-- `v` is no better than `m`.
abbrev pub within : Bool → ℤ → ℤ → Bool
within true m v = leb_int v m
within false m v = leb_int m v

-- No value of the rows is better than `m`.
abbrev pub Within : Bool → ℤ → Option ℤ → Type 0
Within want_max m none = Unit
Within want_max m (some v) = within want_max m v ≡ true

leb_int_refl : (a : ℤ) → leb_int a a ≡ true
leb_int_refl (pos n) = ground arith
leb_int_refl (negsuc n) = ground arith

leb_int_trans : (a b c : ℤ) → leb_int a b ≡ true → leb_int b c ≡ true → leb_int a c ≡ true
leb_int_trans (pos a) (pos b) (pos c) h k = ground arith
leb_int_trans (pos a) (pos b) (negsuc c) h k = cc
leb_int_trans (pos a) (negsuc b) c h k = cc
leb_int_trans (negsuc a) (pos b) (pos c) h k = refl
leb_int_trans (negsuc a) (pos b) (negsuc c) h k = cc
leb_int_trans (negsuc a) (negsuc b) (pos c) h k = refl
leb_int_trans (negsuc a) (negsuc b) (negsuc c) h k = ground arith

leb_int_total : (a b : ℤ) → leb_int a b ≡ false → leb_int b a ≡ true
leb_int_total (pos a) (pos b) h = ground arith
leb_int_total (pos a) (negsuc b) h = refl
leb_int_total (negsuc a) (pos b) h = cc
leb_int_total (negsuc a) (negsuc b) h = ground arith

within_refl : (w : Bool) (a : ℤ) → within w a a ≡ true
within_refl true a = leb_int_refl a
within_refl false a = leb_int_refl a

within_trans :
    (w : Bool) (m b a : ℤ) → within w m b ≡ true → within w b a ≡ true → within w m a ≡ true
within_trans true m b a h k = leb_int_trans a b m k h
within_trans false m b a h k = leb_int_trans m b a h k

-- The better one of two integers is one of them, and neither is better than it.
best_int_lem :
    (w : Bool) (c v : ℤ)
    → (within w (best_int w c v) c ≡ true)
      × ((within w (best_int w c v) v ≡ true) × ((best_int w c v ≡ c) ⊎ (best_int w c v ≡ v)))
best_int_lem true c v = elim (Bool-cases (leb_int c v)) [
  | inl e ↦ rw e (e, (leb_int_refl v, inr refl))
  | inr e ↦ rw e (leb_int_refl c, (leb_int_total c v e, inl refl))
]
best_int_lem false c v = elim (Bool-cases (leb_int c v)) [
  | inl e ↦ rw e (leb_int_refl c, (e, inl refl))
  | inr e ↦ rw e (leb_int_total c v e, (leb_int_refl v, inr refl))
]

abbrev pub Occurs : ℤ → List (Option ℤ) → Type 0
Occurs m values = (i : ℕ) × (get_elem? values i ≡ some (some m))

-- A place behind one more value, and the place of the better one of two integers.
later :
    {m c : ℤ} (values : List (Option ℤ)) (v : Option ℤ)
    → (m ≡ c) ⊎ Occurs m values
    → (m ≡ c) ⊎ Occurs m (v ∷ values)
later values v (inl e) = inl e
later values v (inr (i, h)) = inr (suc i, h)

chosen :
    {m b c v : ℤ} (values : List (Option ℤ))
    → (m ≡ b) ⊎ Occurs m values
    → (b ≡ c) ⊎ (b ≡ v)
    → (m ≡ c) ⊎ Occurs m (some v ∷ values)
chosen values (inl e) (inl q) = inl (e ∙ q)
chosen values (inl e) (inr q) = inr (0, ap (λ (x : ℤ). some (some x)) (sym (e ∙ q)))
chosen values (inr (i, h)) which = inr (suc i, h)

from_some :
    (w : Bool) (c : ℤ) (values : List (Option ℤ)) (m : ℤ)
    → best_from (best_int w) (some c) values ≡ some m
    → (within w m c ≡ true) × (All (Within w m) values × ((m ≡ c) ⊎ Occurs m values))
unfolding best_from
from_some w c [] m h =
    let same : c ≡ m = cc in
    (subst (λ (x : ℤ). within w x c ≡ true) same (within_refl w c), (tt, inl (sym same)))
from_some w c (none ∷ values) m h =
    let (hc, (hs, place)) = from_some w c values m h in (hc, ((tt, hs), later values none place))
from_some w c (some v ∷ values) m h =
    let (hb, (hs, place)) = from_some w (best_int w c v) values m h in
    let (bc, (bv, which)) = best_int_lem w c v in
    (
      within_trans w m (best_int w c v) c hb bc,
      ((within_trans w m (best_int w c v) v hb bv, hs), chosen values place which),
    )

from_none :
    (w : Bool) (values : List (Option ℤ)) (m : ℤ)
    → best_from (best_int w) none values ≡ some m
    → All (Within w m) values × Occurs m values
unfolding best_from
from_none w [] m h = cc
from_none w (none ∷ values) m h =
    let (hs, (i, e)) = from_none w values m h in ((tt, hs), (suc i, e))
from_none w (some v ∷ values) m h =
    let (hv, (hs, place)) = from_some w v values m h in ((hv, hs), found place)
  where
    found : (m ≡ v) ⊎ Occurs m values → Occurs m (some v ∷ values)
    found (inl e) = (0, ap (λ (x : ℤ). some (some x)) (sym e))
    found (inr (i, e)) = (suc i, e)

some-ne-none :
    (w : Bool) (c : ℤ) (values : List (Option ℤ)) → best_from (best_int w) (some c) values ≢ none
unfolding best_from
some-ne-none w c [] h = cc
some-ne-none w c (none ∷ values) h = some-ne-none w c values h
some-ne-none w c (some v ∷ values) h = some-ne-none w (best_int w c v) values h

none_if :
    (w : Bool) (values : List (Option ℤ))
    → best_from (best_int w) none values ≡ none
    → All (λ v. v ≡ none) values
unfolding best_from
none_if w [] h = tt
none_if w (none ∷ values) h = (refl, none_if w values h)
none_if w (some v ∷ values) h = absurd (some-ne-none w v values h)

none_of :
    (w : Bool) (values : List (Option ℤ))
    → All (λ v. v ≡ none) values
    → best_from (best_int w) none values ≡ none
unfolding best_from
none_of w [] hs = refl
none_of w (none ∷ values) (h, hs) = none_of w values hs
none_of w (some v ∷ values) (h, hs) = cc

-- The least, or the greatest, of the integers of the rows is one of them, and none is better; there is
-- none if all rows are NULL, and only then.
pub best_from_lem :
    (want_max : Bool) (values : List (Option ℤ))
    → ((m : ℤ)
        → best_from (best_int want_max) none values ≡ some m
        → All (Within want_max m) values × Occurs m values)
      × ((best_from (best_int want_max) none values ≡ none) ↔ All (λ v. v ≡ none) values)
best_from_lem want_max values =
    (from_none want_max values, (none_if want_max values, none_of want_max values))
