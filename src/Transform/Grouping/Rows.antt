-- ===== src/Transform/Grouping/Rows.antt =====
-- common/src/transform/aggregate.rs: the groups are the rows with equal keys.
use potato_etl.Base.{
  ℕ, suc, ◌≡◌, refl, sym, ap, ◌∙◌, Bool, true, false, ◌||◌, List, [], ◌∷◌, ◌++◌, append_assoc,
  append-nil, Text, text_eq, text_eq_refl, text_eq→eq, map, if◌then◌else◌, Bool-cases, inl, inr,
  arith,
}
use potato_etl.Transform.Grouping.{
  KeyPart, GroupKey, part_eq, key_eq, Groups, push_row, group_from, group_rows,
}

-- The numbers of the rows with the key, from a first number on.
unfoldable pub positions : GroupKey → ℕ → List GroupKey → List ℕ
positions key row [] = []
positions key row (k ∷ keys) =
    let rest = positions key (suc row) keys in if key_eq key k then row ∷ rest else rest

-- The rows of the first group with the key.
unfoldable pub rows_of : GroupKey → Groups → List ℕ
rows_of key [] = []
rows_of key ((k, rows) ∷ groups) = if key_eq key k then rows else rows_of key groups

key_eq_refl : (key : GroupKey) → key_eq key key ≡ true
unfolding key_eq part_eq
key_eq_refl [] = refl
key_eq_refl (KeyPart.null ∷ key) = key_eq_refl key
key_eq_refl (KeyPart.value s ∷ key) = rw (text_eq_refl s) (key_eq_refl key)

key_eq→eq : (k l : GroupKey) → key_eq k l ≡ true → k ≡ l
unfolding key_eq part_eq
key_eq→eq [] [] h = refl
key_eq→eq [] (p ∷ l) h = cc
key_eq→eq (p ∷ k) [] h = cc
key_eq→eq (KeyPart.null ∷ k) (KeyPart.null ∷ l) h = ap (◌∷◌ KeyPart.null) (key_eq→eq k l h)
key_eq→eq (KeyPart.null ∷ k) (KeyPart.value t ∷ l) h = cc
key_eq→eq (KeyPart.value s ∷ k) (KeyPart.null ∷ l) h = cc
key_eq→eq (KeyPart.value s ∷ k) (KeyPart.value t ∷ l) h = elim (Bool-cases (text_eq s t)) [
  | inl e ↦
      let rest = key_eq→eq k l (rw (key_eq, part_eq, e) at h) in
      let same = text_eq→eq s t e in
      ap (λ (x : Text). KeyPart.value x ∷ k) same ∙ ap (◌∷◌ (KeyPart.value t)) rest
  | inr e ↦ let no = rw (key_eq, part_eq, e) at h in cc
]

rows_of-push_row :
    (key k : GroupKey) (row : ℕ) (groups : Groups)
    → rows_of key (push_row k row groups)
      ≡ rows_of key groups ++ (if key_eq key k then row ∷ [] else [])
unfolding rows_of push_row
rows_of-push_row key k row [] = refl
rows_of-push_row key k row ((l, rows) ∷ groups) = ground (
  arith,
  key_eq→eq k l,
  key_eq→eq key l,
  key_eq→eq key k,
  key_eq_refl l,
  append-nil rows,
  append-nil (rows_of key groups),
  rows_of-push_row key k row groups,
)

rows_of-group_from :
    (key : GroupKey) (row : ℕ) (keys : List GroupKey) (groups : Groups)
    → rows_of key (group_from row keys groups) ≡ rows_of key groups ++ positions key row keys
unfolding group_from positions
rows_of-group_from key row [] groups = sym (append-nil (rows_of key groups))
rows_of-group_from key row (k ∷ keys) groups = elim (Bool-cases (key_eq key k)) [
  | inl e ↦
      rw
        (
          rows_of-group_from key (suc row) keys (push_row k row groups),
          rows_of-push_row key k row groups,
          e,
        )
        (append_assoc (rows_of key groups) (row ∷ []) (positions key (suc row) keys))
  | inr e ↦
      rw
        (
          rows_of-group_from key (suc row) keys (push_row k row groups),
          rows_of-push_row key k row groups,
          e,
          append-nil (rows_of key groups),
        )
        refl
]

unfoldable pub has_key : GroupKey → List GroupKey → Bool
has_key key [] = false
has_key key (k ∷ keys) = key_eq key k || has_key key keys

-- The keys that are not seen yet, each where it comes first.
unfoldable pub first_occurrences : List GroupKey → List GroupKey → List GroupKey
unfolding has_key
first_occurrences seen [] = []
first_occurrences seen (k ∷ keys) =
    let repeated = first_occurrences seen keys in
    let rest = first_occurrences (seen ++ k ∷ []) keys in
    if has_key k seen then repeated else k ∷ rest

abbrev pub keys_of : Groups → List GroupKey
keys_of groups = map (λ (k, rows). k) groups

keys_of-push_row :
    (key : GroupKey) (row : ℕ) (groups : Groups)
    → keys_of (push_row key row groups)
      ≡ (if has_key key (keys_of groups) then keys_of groups else keys_of groups ++ key ∷ [])
unfolding push_row has_key
keys_of-push_row key row [] = refl
keys_of-push_row key row ((k, rows) ∷ groups) = ground (arith, keys_of-push_row key row groups)

keys_of-group_from :
    (row : ℕ) (keys : List GroupKey) (groups : Groups)
    → keys_of (group_from row keys groups)
      ≡ keys_of groups ++ first_occurrences (keys_of groups) keys
unfolding group_from first_occurrences
keys_of-group_from row [] groups = sym (append-nil (keys_of groups))
keys_of-group_from row (k ∷ keys) groups = elim (Bool-cases (has_key k (keys_of groups))) [
  | inl e ↦
      rw
        (
          keys_of-group_from (suc row) keys (push_row k row groups),
          keys_of-push_row k row groups,
          e,
        )
        refl
  | inr e ↦
      rw
        (
          keys_of-group_from (suc row) keys (push_row k row groups),
          keys_of-push_row k row groups,
          e,
        )
        (append_assoc (keys_of groups) (k ∷ []) (first_occurrences (keys_of groups ++ k ∷ []) keys))
]

-- The groups have the keys of the rows, each once, in the order of their first rows, and the rows of a
-- key are the numbers of all rows with that key, in ascending order.
pub group_rows_lem :
    (keys : List GroupKey)
    → (keys_of (group_rows keys) ≡ first_occurrences [] keys)
      × ((key : GroupKey) → rows_of key (group_rows keys) ≡ positions key 0 keys)
unfolding group_rows positions rows_of
group_rows_lem keys = (keys_of-group_from 0 keys [], λ key. rows_of-group_from key 0 keys [])
