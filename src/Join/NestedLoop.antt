-- ===== src/Join/NestedLoop.antt =====
-- The hash join finds the pairs of a nested loop over both sides.
use potato_etl.Base.{
  ℕ, suc, ◌+◌, ◌^◌, ◌<◌, ◌≤◌, ◌≡◌, refl, ap, sym, ◌∙◌, Option, none, some, List, [], ◌∷◌, ◌++◌,
  append_assoc, append-nil, Text, text_eq, text_eq→eq, map, length, get, get-insert,
  get-insert_other, if◌then◌else◌, Bool-cases, inl, inr, arith,
}
use potato_etl.Join.{
  inner, left, full, JoinHow, as_u32, or_default, push_row, index_rows, build_right_hash_map,
  matches_of, keep_unmatched, probe_row, probe_rows, probe_left_batch,
}

-- The numbers of the rows with a key, the first row being number `i`.
unfoldable pub rows_with : Text → ℕ → List (Option Text) → List ℕ
unfolding text_eq
rows_with key i [] = []
rows_with key i (none ∷ keys) = rows_with key (suc i) keys
rows_with key i (some k ∷ keys) =
    let rest = rows_with key (suc i) keys in if text_eq key k then i ∷ rest else rest

-- SQL's join: a left row is paired with each right row of an equal key that is not NULL, and a left
-- row without one is kept with NULL in a left or full join.
unfoldable pub unmatched : JoinHow → ℕ → List (ℕ × Option ℕ)
unmatched inner i = []
unmatched left i = (i, none) ∷ []
unmatched full i = (i, none) ∷ []

unfoldable pub pairs_of : JoinHow → ℕ → List ℕ → List (ℕ × Option ℕ)
unfolding unmatched
pairs_of how i [] = unmatched how i
pairs_of how i (r ∷ rs) = map (λ x. (i, some x)) (r ∷ rs)

unfoldable pub nested_loop :
    JoinHow → ℕ → List (Option Text) → List (Option Text) → List (ℕ × Option ℕ)
unfolding rows_with pairs_of
nested_loop how i [] right = []
nested_loop how i (none ∷ keys) right = pairs_of how i [] ++ nested_loop how (suc i) keys right
nested_loop how i (some key ∷ keys) right =
    pairs_of how i (rows_with key 0 right) ++ nested_loop how (suc i) keys right

-- An entry of the map with more rows pushed on it.
abbrev pub extended : Option (List ℕ) → List ℕ → Option (List ℕ)
extended none [] = none
extended none (r ∷ rs) = some (r ∷ rs)
extended (some rows) rs = some (rows ++ rs)

extended-push :
    (o : Option (List ℕ)) (i : ℕ) (rs : List ℕ)
    → extended (some (or_default o ++ i ∷ [])) rs ≡ extended o (i ∷ rs)
extended-push none i rs = refl
extended-push (some rows) i rs = ap some (append_assoc rows (i ∷ []) rs)

extended-nil : (o : Option (List ℕ)) → o ≡ extended o []
extended-nil none = refl
extended-nil (some rows) = ap some (sym (append-nil rows))

as_u32_lem : (i : ℕ) → i < 2 ^ 32 → as_u32 i ≡ i
as_u32_lem i h = omega arith

-- The map holds the rows of each key, in order, and no key without rows.
pub get-index_rows :
    (key : Text) (i : ℕ) (keys : List (Option Text)) (rows : List (Text × List ℕ)) (nulls : List ℕ)
    → i + length keys ≤ 2 ^ 32
    → get key (index_rows i keys (rows, nulls)).0 ≡ extended (get key rows) (rows_with key i keys)
unfolding index_rows rows_with push_row
get-index_rows key i [] rows nulls h = extended-nil (get key rows)
get-index_rows key i (none ∷ keys) rows nulls h =
    get-index_rows key (suc i) keys rows (nulls ++ as_u32 i ∷ []) (omega arith)
get-index_rows key i (some k ∷ keys) rows nulls h =
    let ih = get-index_rows key (suc i) keys (push_row k (as_u32 i) rows) nulls (omega arith) in
    elim (Bool-cases (text_eq key k)) [
      | inl same ↦
          let q : key ≡ k = text_eq→eq key k same in
          let pushed : get key (push_row k (as_u32 i) rows)
              ≡ some (or_default (get key rows) ++ i ∷ []) =
            rw (q, as_u32_lem i (omega arith))
              (get-insert k (or_default (get k rows) ++ i ∷ []) rows) in
          let rest = rows_with key (suc i) keys in
          rw same (
            ih
            ∙ ap (λ (o : Option (List ℕ)). extended o rest) pushed
            ∙ extended-push (get key rows) i rest)
      | inr other ↦
          let kept : get key (push_row k (as_u32 i) rows) ≡ get key rows =
            get-insert_other k key (or_default (get k rows) ++ as_u32 i ∷ []) rows other in
          let rest = rows_with key (suc i) keys in
          rw other (ih ∙ ap (λ (o : Option (List ℕ)). extended o rest) kept)
    ]

probe_row-extended :
    (how : JoinHow) (i : ℕ) (rows : List ℕ)
    → i < 2 ^ 32
    → probe_row how i (extended none rows) ≡ pairs_of how i rows
unfolding probe_row pairs_of keep_unmatched unmatched
probe_row-extended inner i [] h = refl
probe_row-extended left i [] h = rw (as_u32_lem i h) refl
probe_row-extended full i [] h = rw (as_u32_lem i h) refl
probe_row-extended how i (r ∷ rs) h =
    ap (λ (j : ℕ). map (λ (x : ℕ). (j, some x)) (r ∷ rs)) (as_u32_lem i h)

probe_rows-nested_loop :
    (how : JoinHow) (i : ℕ) (keys right : List (Option Text))
    → i + length keys ≤ 2 ^ 32
    → length right ≤ 2 ^ 32
    → probe_rows (build_right_hash_map right how) how i keys ≡ nested_loop how i keys right
unfolding probe_rows nested_loop matches_of build_right_hash_map get
probe_rows-nested_loop how i [] right h l = refl
probe_rows-nested_loop how i (none ∷ keys) right h l =
    rw (probe_rows-nested_loop how (suc i) keys right (omega arith) l) (
      ap (λ (p : List (ℕ × Option ℕ)). p ++ nested_loop how (suc i) keys right)
        (probe_row-extended how i [] (omega arith)))
probe_rows-nested_loop how i (some key ∷ keys) right h l =
    let found = get-index_rows key 0 right [] [] (omega arith) in
    rw (probe_rows-nested_loop how (suc i) keys right (omega arith) l) (
      ap (λ (p : List (ℕ × Option ℕ)). p ++ nested_loop how (suc i) keys right)
        (ap (λ (o : Option (List ℕ)). probe_row how i o) found
          ∙ probe_row-extended how i (rows_with key 0 right) (omega arith)))

-- Probing the hash map finds the pairs of a nested loop over both sides, in the same order, if
-- the row numbers fit 32 bits: NULL keys match nothing, not even each other, and a left row without a
-- match is kept in a left or full join only.
pub probe_left_batch-build :
    (how : JoinHow) (keys right : List (Option Text))
    → length keys ≤ 2 ^ 32
    → length right ≤ 2 ^ 32
    → probe_left_batch keys (build_right_hash_map right how) how ≡ nested_loop how 0 keys right
unfolding probe_left_batch
probe_left_batch-build how keys right h l = probe_rows-nested_loop how 0 keys right (omega arith) l
