-- ===== src/Join/Matched.antt =====
-- The keys that a full join records as matched.
use potato_etl.Base.{
  ℕ, suc, ◌≤◌, ◌^◌, ◌≡◌, refl, ap, sym, ◌∙◌, Bool, true, false, not, ◌&&◌, ◌||◌, Option, none, some,
  List, [], ◌∷◌, Text, text_eq, text_eq→eq, is_nil, length, contains, get, Option-cases, inl, inr,
  arith,
}
use potato_etl.Join.{JoinHow, full, build_right_hash_map, mark_row, mark_rows, after_probe}
use potato_etl.Join.NestedLoop.{rows_with, extended, get-index_rows}

-- The key of some row.
unfoldable pub occurs : Text → List (Option Text) → Bool
unfolding text_eq
occurs key [] = false
occurs key (none ∷ keys) = occurs key keys
occurs key (some k ∷ keys) = text_eq key k || occurs key keys

is_nil-rows_with :
    (key : Text) (i : ℕ) (keys : List (Option Text))
    → is_nil (rows_with key i keys) ≡ not (occurs key keys)
unfolding rows_with occurs
is_nil-rows_with key i [] = refl
is_nil-rows_with key i (none ∷ keys) = is_nil-rows_with key (suc i) keys
is_nil-rows_with key i (some k ∷ keys) = ground (arith, is_nil-rows_with key (suc i) keys)

abbrev is_none : Option (List ℕ) → Bool
is_none none = true
is_none (some rows) = false

is_none-extended : (rows : List ℕ) → is_none (extended none rows) ≡ is_nil rows
is_none-extended [] = refl
is_none-extended (r ∷ rs) = refl

is_none-get :
    (right : List (Option Text)) (how : JoinHow) (key : Text)
    → length right ≤ 2 ^ 32
    → is_none (get key (build_right_hash_map right how).map) ≡ not (occurs key right)
unfolding build_right_hash_map get
is_none-get right how key l =
    rw (get-index_rows key 0 right [] [] (omega arith))
      (is_none-extended (rows_with key 0 right) ∙ is_nil-rows_with key 0 right)

false_of_true : (b : Bool) → true ≡ not b → b ≡ false
false_of_true b h = ground arith

true_of_false : (b : Bool) → false ≡ not b → b ≡ true
true_of_false b h = ground arith

contains-mark_row :
    (right : List (Option Text)) (how : JoinHow) (matched : List Text) (key k : Text)
    → length right ≤ 2 ^ 32
    → contains key (mark_row (build_right_hash_map right how) matched (some k))
      ≡ (contains key matched || (text_eq key k && occurs k right))
unfolding mark_row contains
contains-mark_row right how matched key k l =
    let n = is_none-get right how k l in
    elim (Option-cases (get k (build_right_hash_map right how).map)) [
      | inl e ↦
          let o = false_of_true (occurs k right) (rw e at n) in rw (mark_row, e, o) (ground arith)
      | inr (rows, e) ↦
          let o = true_of_false (occurs k right) (rw e at n) in rw (mark_row, e, o) (ground arith)
    ]

merge_tests :
    (matched same later here there : Bool)
    → (same ≡ true → here ≡ there)
    → ((matched || (same && here)) || (later && there)) ≡ (matched || ((same || later) && there))
merge_tests matched same later here there h = ground arith

contains-mark_rows :
    (right : List (Option Text)) (how : JoinHow) (matched : List Text) (keys : List (Option Text))
    (key : Text)
    → length right ≤ 2 ^ 32
    → contains key (mark_rows (build_right_hash_map right how) matched keys)
      ≡ (contains key matched || (occurs key keys && occurs key right))
unfolding mark_rows occurs
contains-mark_rows right how matched [] key l = ground arith
contains-mark_rows right how matched (none ∷ keys) key l =
    unfold mark_row in contains-mark_rows right how matched keys key l
contains-mark_rows right how matched (some k ∷ keys) key l =
    let hash = build_right_hash_map right how in
    let ih = contains-mark_rows right how (mark_row hash matched (some k)) keys key l in
    let head = contains-mark_row right how matched key k l in
    ih
    ∙ ap (λ (b : Bool). b || (occurs key keys && occurs key right)) head
    ∙ merge_tests (contains key matched) (text_eq key k) (occurs key keys) (occurs k right)
        (occurs key right) (λ same. sym (ap (λ (x : Text). occurs x right) (text_eq→eq key k same)))

-- After a full join has probed its first left batch, the keys that are recorded as matched are those
-- that both sides have, if the right side's row numbers fit 32 bits.
pub after_probe-build :
    (right keys : List (Option Text))
    → length right ≤ 2 ^ 32
    → (matched : List Text) × ((after_probe keys (build_right_hash_map right full)).matched_keys
        ≡ some matched)
      × ((key : Text) → contains key matched ≡ (occurs key keys && occurs key right))
unfolding after_probe build_right_hash_map contains
after_probe-build right keys l = (
  mark_rows (build_right_hash_map right full) [] keys,
  refl,
  λ key. contains-mark_rows right full [] keys key l,
)
