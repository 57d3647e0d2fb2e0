-- ===== src/Transform/Objects/Paths.antt =====
-- common/src/transform/objects.rs and common/src/transform/expr/helpers.rs: a path that was set is
-- found again.
use potato_etl.Base.{
  ℕ, ◌≡◌, refl, ◌∙◌, Bool, true, false, any, none, some, List, [], ◌∷◌, Text, text_eq_refl,
  split_once, split_on, All, if◌then◌else◌, ◌==◌, arith,
}
use potato_etl.Arrow.{Json, Entries}
use potato_etl.Expr.JsonPath.{entry_at, get_key, step_into, walk, text_of, json_path_get}
use potato_etl.Transform.Objects.{insert_entry, child_entries, set_segments, set_nested_value}

-- The character does not occur in the text.
abbrev pub Free : ℕ → Text → Type 0
Free c s = any (λ d. d == c) s ≡ false

entry_at-insert_entry :
    (key : Text) (value : Json) (obj : Entries)
    → entry_at key (insert_entry key value obj) ≡ some value
unfolding entry_at insert_entry
entry_at-insert_entry key value Entries.no_entries = ground (arith, text_eq_refl key)
entry_at-insert_entry key value (Entries.entry k v rest) =
    ground (arith, text_eq_refl key, entry_at-insert_entry key value rest)

split_once-Free : (c : ℕ) (s : Text) → Free c s → split_once c s ≡ none
unfolding split_once
split_once-Free c [] h = refl
split_once-Free c (d ∷ s) h = ground (arith, split_once-Free c s)

step_into-Free :
    (segment : Text) (cur : Json) → Free b'[' segment → step_into segment cur ≡ get_key segment cur
unfolding step_into
step_into-Free segment cur h = rw (step_into, split_once-Free b'[' segment h) refl

walk-set_segments :
    (key : Text) (rest : List Text) (value : Json) (obj : Entries)
    → All (Free b'[') (key ∷ rest)
    → walk key rest (Json.object (set_segments key rest value obj)) ≡ some value
unfolding walk set_segments get_key
walk-set_segments key [] value obj (h, hs) =
    step_into-Free key (Json.object (insert_entry key value obj)) h
    ∙ entry_at-insert_entry key value obj
walk-set_segments key (next ∷ rest) value obj (h, hs) =
    let child = Json.object (set_segments next rest value (child_entries (entry_at key obj))) in
    let found =
      step_into-Free key (Json.object (insert_entry key child obj)) h
      ∙ entry_at-insert_entry key child obj in
    rw found (walk-set_segments next rest value (child_entries (entry_at key obj)) hs)

-- A part that a character is put in front of, or that a separator begins anew.
if-All-Free :
    (c d : ℕ) (new : Bool) (part : Text) (parts : List Text)
    → Free c (d ∷ part)
    → Free c part
    → All (Free c) parts
    → (let (first, rest) =
          if◌then◌else◌ {A = Text × List Text} new ([], part ∷ parts) (d ∷ part, parts) in
        All (Free c) (first ∷ rest))
if-All-Free c d true part parts hd hp hs = (refl, (hp, hs))
if-All-Free c d false part parts hd hp hs = (hd, hs)

split_on-Free :
    (c sep : ℕ) (s : Text)
    → Free c s
    → (let (first, rest) = split_on sep s in All (Free c) (first ∷ rest))
unfolding split_on
split_on-Free c sep [] h = (refl, tt)
split_on-Free c sep (d ∷ s) h =
    let (hp, hs) = split_on-Free c sep s (ground arith) in
    let (part, parts) = split_on sep s in if-All-Free c d (d == sep) part parts (ground arith) hp hs

-- The value that is set at a path without brackets is found at that path, as a text.
pub json_path_get-set_nested_value :
    (print_json : Json → Text) (obj : Entries) (path : Text) (value : Json)
    → Free b'[' path
    → json_path_get print_json (Json.object (set_nested_value obj path value)) path
      ≡ text_of print_json value
unfolding json_path_get set_nested_value
json_path_get-set_nested_value print_json obj path value h =
    let (key, rest) = split_on b'.' path in
    rw (walk-set_segments key rest value obj (split_on-Free b'[' b'.' path h)) refl
