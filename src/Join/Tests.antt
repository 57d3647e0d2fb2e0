-- ===== src/Join/Tests.antt =====
-- Joins with duplicate, missing and NULL keys, and the theorem at them.
use potato_etl.Base.{
  contains, ◌&&◌, ◌≡◌, refl, Option, none, some, List, [], ◌∷◌, Text, codes, arith,
}
use potato_etl.Join.{after_probe, inner, left, full, build_right_hash_map, probe_left_batch}
use potato_etl.Join.Matched.{occurs, after_probe-build}
use potato_etl.Join.NestedLoop.{nested_loop, probe_left_batch-build}

abbrev a : Option Text
a = some (codes "a")

abbrev b : Option Text
b = some (codes "b")

abbrev left_keys : List (Option Text)
left_keys = a ∷ none ∷ some (codes "x") ∷ a ∷ []

abbrev right_keys : List (Option Text)
right_keys = b ∷ a ∷ none ∷ a ∷ []

inner_pairs :
    probe_left_batch left_keys (build_right_hash_map right_keys inner) inner
    ≡ (0, some 1) ∷ (0, some 3) ∷ (3, some 1) ∷ (3, some 3) ∷ []
unfolding probe_left_batch build_right_hash_map
inner_pairs = refl

left_pairs :
    probe_left_batch (none ∷ b ∷ []) (build_right_hash_map right_keys left) left
    ≡ (0, none) ∷ (1, some 0) ∷ []
unfolding probe_left_batch build_right_hash_map
left_pairs = refl

probe_left_batch-build_example :
    probe_left_batch left_keys (build_right_hash_map right_keys full) full
    ≡ nested_loop full 0 left_keys right_keys
probe_left_batch-build_example =
    probe_left_batch-build full left_keys right_keys (omega arith) (omega arith)

after_probe-build_example :
    (matched : List Text) × ((after_probe left_keys
        (build_right_hash_map right_keys full)).matched_keys
      ≡ some matched)
    × ((key : Text) → contains key matched ≡ (occurs key left_keys && occurs key right_keys))
after_probe-build_example = after_probe-build right_keys left_keys (omega arith)
