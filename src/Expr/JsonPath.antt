-- ===== src/Expr/JsonPath.antt =====
-- common/src/transform/expr/helpers.rs: `json_path_get`.
use potato_etl.Base.{
  ℕ, zero, suc, ◌+◌, ◌*◌, ◌-◌, ◌^◌, ◌&&◌, Option, none, some, List, [], ◌∷◌, ◌++◌, Text, text_eq,
  is_empty, split_once, split_on, ◌>>=◌, if◌then◌else◌, ltb, ◌==◌,
}
use potato_etl.Unicode.{is_ascii_digit}
use potato_etl.Arrow.{Json, Items, Entries}

-- `Value::get` of a key and of an index: none in a value of another kind.
unfoldable pub entry_at : Text → Entries → Option Json
unfolding text_eq
entry_at key Entries.no_entries = none
entry_at key (Entries.entry k v rest) = if text_eq key k then some v else entry_at key rest

unfoldable pub item_at : ℕ → Items → Option Json
item_at i Items.no_items = none
item_at zero (Items.item v rest) = some v
item_at (suc i) (Items.item v rest) = item_at i rest

unfoldable pub get_key : Text → Json → Option Json
unfolding entry_at
get_key key (Json.object entries) = entry_at key entries
get_key key _ = none

unfoldable pub get_index : ℕ → Json → Option Json
unfolding item_at
get_index i (Json.array items) = item_at i items
get_index i _ = none

-- `str::parse::<usize>`: digits behind an optional `+`, below 2 ^ 64.
unfoldable pub parse_digits : ℕ → Text → Option ℕ
parse_digits acc [] = some acc
parse_digits acc (c ∷ s) =
    if is_ascii_digit c && ltb (acc * 10 + (c - b'0')) (2 ^ 64)
    then parse_digits (acc * 10 + (c - b'0')) s
    else none

unfoldable pub parse_usize : Text → Option ℕ
unfolding parse_digits
parse_usize [] = none
parse_usize (c ∷ s) =
    if c == b'+' then (if is_empty s then none else parse_digits 0 s) else parse_digits 0 (c ∷ s)

-- The loop over the indices in brackets: `remaining` at a bracket, and behind one, with the
-- characters of the index so far. What follows the last bracket is left out.
unfoldable mutual
  unfolding parse_usize get_index

  pub after_index : Json → Text → Option Json
  after_index cur [] = some cur
  after_index cur (c ∷ s) = if c == b'[' then in_index cur [] s else some cur

  pub in_index : Json → Text → Text → Option Json
  in_index cur digits [] = none
  in_index cur digits (c ∷ s) =
      let close = parse_usize digits >>= λ i. get_index i cur >>= λ next. after_index next s in
      let more = in_index cur (digits ++ c ∷ []) s in if c == b']' then close else more

-- One segment of the path: a key, or a key (if it is not empty) with indices.
unfoldable pub step_into : Text → Json → Option Json
unfolding split_once get_key in_index
step_into segment cur = elim (split_once b'[' segment) [
  | none ↦ get_key segment cur
  | some (field, brackets) ↦
      (if is_empty field then some cur else get_key field cur) >>= λ next. in_index next [] brackets
]

unfoldable pub walk : Text → List Text → Json → Option Json
unfolding step_into
walk segment [] cur = step_into segment cur
walk segment (s ∷ segments) cur = step_into segment cur >>= λ next. walk s segments next

-- The value as a text: a string without its quotes, none for null.
unfoldable pub text_of : (Json → Text) → Json → Option Text
text_of print_json (Json.string s) = some s
text_of print_json Json.null = none
text_of print_json v = some (print_json v)

unfoldable pub json_path_get : (Json → Text) → Json → Text → Option Text
unfolding split_on walk text_of
json_path_get print_json val path =
    let (segment, segments) = split_on b'.' path in walk segment segments val >>= text_of print_json
