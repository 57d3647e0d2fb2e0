-- ===== src/Join.antt =====
-- The row numbers of a hash join (common/src/transform/join.rs): the hash map of the right side, and
-- the pairs of left and right rows that probing a left batch finds. A side is the list of its join
-- keys as texts, `none` for NULL, as `key_strings` casts them; a row number is cut to 32 bits.
use potato_etl.Base.{
  ℕ, zero, suc, ◌+◌, ◌%◌, ◌^◌, ◌≡◌, Bool, true, false, Option, none, some, List, [], ◌∷◌, ◌++◌,
  Text, map, get, insert, if◌then◌else◌,
}
mod NestedLoop
mod Matched
mod Tests

pub data JoinHow : Type 0 where
  inner left full : JoinHow

-- `map` and `null_rows` of the source's `RightHashMap`, and `matched_keys`, which only a full join has.
pub record RightHashMap : Type 0 where
  pub map : List (Text × List ℕ)
  pub null_rows : List ℕ
  pub matched_keys : Option (List Text)

-- `i as u32`
abbrev pub as_u32 : ℕ → ℕ
as_u32 i = i % 2 ^ 32

abbrev pub or_default : Option (List ℕ) → List ℕ
or_default none = []
or_default (some rows) = rows

-- `map.entry(key).or_default().push(i)`
unfoldable pub push_row : Text → ℕ → List (Text × List ℕ) → List (Text × List ℕ)
unfolding get insert
push_row key i rows = insert key (or_default (get key rows) ++ i ∷ []) rows

-- The loop over the right side's keys, from row `i` on.
unfoldable pub index_rows :
    ℕ → List (Option Text) → List (Text × List ℕ) × List ℕ → List (Text × List ℕ) × List ℕ
unfolding push_row
index_rows i [] acc = acc
index_rows i (none ∷ keys) (rows, nulls) = index_rows (suc i) keys (rows, nulls ++ as_u32 i ∷ [])
index_rows i (some key ∷ keys) (rows, nulls) =
    index_rows (suc i) keys (push_row key (as_u32 i) rows, nulls)

unfoldable pub build_right_hash_map : List (Option Text) → JoinHow → RightHashMap
unfolding index_rows
build_right_hash_map keys how =
    let indexed = index_rows 0 keys ([], []) in
    record {
      map = indexed.0;
      null_rows = indexed.1;
      matched_keys = elim how [ full ↦ some [] | _ ↦ none ];
    }

-- NULL keys never match.
unfoldable pub matches_of : RightHashMap → Option Text → Option (List ℕ)
unfolding get
matches_of right none = none
matches_of right (some key) = get key right.map

-- `*how == JoinHow::Left || *how == JoinHow::Full`
unfoldable pub keep_unmatched : JoinHow → Bool
keep_unmatched inner = false
keep_unmatched left = true
keep_unmatched full = true

-- The pairs for one left row: `left_idx` with `right_idx`, where `none` pads with NULL.
unfoldable pub probe_row : JoinHow → ℕ → Option (List ℕ) → List (ℕ × Option ℕ)
unfolding keep_unmatched
probe_row how i (some rows) = map (λ r. (as_u32 i, some r)) rows
probe_row how i none = if keep_unmatched how then (as_u32 i, none) ∷ [] else []

-- The loop over the left batch's keys, from row `i` on.
unfoldable pub probe_rows : RightHashMap → JoinHow → ℕ → List (Option Text) → List (ℕ × Option ℕ)
unfolding matches_of probe_row
probe_rows right how i [] = []
probe_rows right how i (key ∷ keys) =
    probe_row how i (matches_of right key) ++ probe_rows right how (suc i) keys

unfoldable pub probe_left_batch : List (Option Text) → RightHashMap → JoinHow → List (ℕ × Option ℕ)
unfolding probe_rows
probe_left_batch keys right how = probe_rows right how 0 keys

-- The keys that probing one left row, and a left batch, adds to the matched ones. The set is a list,
-- the last key in front.
unfoldable pub mark_row : RightHashMap → List Text → Option Text → List Text
unfolding get
mark_row right matched none = matched
mark_row right matched (some key) = elim (get key right.map) [
  | none ↦ matched
  | some rows ↦ key ∷ matched
]

unfoldable pub mark_rows : RightHashMap → List Text → List (Option Text) → List Text
unfolding mark_row
mark_rows right matched [] = matched
mark_rows right matched (key ∷ keys) = mark_rows right (mark_row right matched key) keys

-- The hash map after a probe, which only a full join changes.
unfoldable pub after_probe : List (Option Text) → RightHashMap → RightHashMap
unfolding mark_rows
after_probe keys right = record right {
  matched_keys = elim right.matched_keys [
    | none ↦ none
    | some matched ↦ some (mark_rows right matched keys)
  ];
}
