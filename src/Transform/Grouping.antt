-- ===== src/Transform/Grouping.antt =====
-- common/src/transform/aggregate.rs: the metrics of an `aggregate` step, and the groups of its rows.
use potato_etl.Base.{
  ℕ, zero, suc, ◌+◌, Bool, true, false, not, ◌&&◌, ◌==◌, Option, none, some, List, [], ◌∷◌, ◌++◌,
  Text, codes, text_eq, is_empty, split_once, contains, map, get, if◌then◌else◌, ◌>>=◌, Result, ok,
  err, then_ok, ok_or,
}
use potato_etl.Arrow.{Strings}
pub mod Rows
mod Tests

pub data AggFunc : Type 0 where
  sum count count_col min max avg first : AggFunc

pub record Metric : Type 0 where
  pub output_col : Text
  pub func : AggFunc
  pub arg : Option Text

pub data MetricError : Type 0 where
  call_expected unknown_function : Text → MetricError
  slice_out_of_bounds : MetricError

-- The text before the last occurrence of the character.
unfoldable pub before_last : ℕ → Text → Option Text
before_last c [] = none
before_last c (d ∷ s) = elim (before_last c s) [
  | none ↦ if d == c then some [] else none
  | some t ↦ some (d ∷ t)
]

-- `s[paren + 1..s.rfind(')').unwrap_or(s.len())]`, behind a text without a parenthesis: the slice
-- panics if the only closing parenthesis stands before the opening one.
unfoldable pub inner_text : Text → Text → Result MetricError Text
unfolding before_last
inner_text name rest = elim (before_last b')' rest) [
  | some inner ↦ ok inner
  | none ↦ elim (before_last b')' name) [
    | none ↦ ok rest
    | some t ↦ err MetricError.slice_out_of_bounds
  ]
]

abbrev pub func_names : List (Text × AggFunc)
func_names =
    (codes "sum", AggFunc.sum)
    ∷ (codes "count", AggFunc.count_col)
    ∷ (codes "min", AggFunc.min)
    ∷ (codes "max", AggFunc.max)
    ∷ (codes "avg", AggFunc.avg)
    ∷ (codes "mean", AggFunc.avg)
    ∷ (codes "first", AggFunc.first)
    ∷ []

-- Counting without a column counts the rows.
abbrev pub with_arg : AggFunc → Option Text → AggFunc
with_arg AggFunc.count_col none = AggFunc.count
with_arg f arg = f

unfoldable pub parse_metric : Strings → Text → Text → Result MetricError Metric
unfolding split_once inner_text get
parse_metric t output_col expr_str = elim (split_once b'(' (t.trim expr_str)) [
  | none ↦ err (MetricError.call_expected output_col)
  | some (name, rest) ↦ then_ok (inner_text name rest) λ inner.
      let arg = if is_empty (t.trim inner) then none else some (t.trim inner) in
      let func_name = t.unicode.to_lowercase (t.trim name) in
      then_ok (ok_or (MetricError.unknown_function func_name) (get func_name func_names))
        λ func. ok (record { output_col = output_col; func = with_arg func arg; arg = arg })
]

pub data KeyPart : Type 0 where
  null : KeyPart
  value : Text → KeyPart

abbrev pub GroupKey : Type 0
GroupKey = List KeyPart

unfoldable pub part_eq : KeyPart → KeyPart → Bool
unfolding text_eq
part_eq null null = true
part_eq (value s) (value t) = text_eq s t
part_eq _ _ = false

unfoldable pub key_eq : GroupKey → GroupKey → Bool
unfolding part_eq
key_eq [] [] = true
key_eq (p ∷ ps) (q ∷ qs) = part_eq p q && key_eq ps qs
key_eq _ _ = false

abbrev pub key_part : Option Text → KeyPart
key_part none = null
key_part (some s) = value s

-- `group_keys` and `group_rows`: the rows of each key, the keys in the order of their first rows.
abbrev pub Groups : Type 0
Groups = List (GroupKey × List ℕ)

unfoldable pub push_row : GroupKey → ℕ → Groups → Groups
unfolding key_eq
push_row key row [] = (key, row ∷ []) ∷ []
push_row key row ((k, rows) ∷ groups) =
    let rest = push_row key row groups in
    if key_eq key k then (k, rows ++ row ∷ []) ∷ groups else (k, rows) ∷ rest

unfoldable pub group_from : ℕ → List GroupKey → Groups → Groups
unfolding push_row
group_from row [] groups = groups
group_from row (key ∷ keys) groups = group_from (suc row) keys (push_row key row groups)

unfoldable pub group_rows : List GroupKey → Groups
unfolding group_from
group_rows keys = group_from 0 keys []
