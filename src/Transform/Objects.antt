-- ===== src/Transform/Objects.antt =====
-- common/src/transform/objects.rs: rows as JSON objects, and templates of URLs. The entries of an
-- object are in the order of insertion; `print_int` and `print_float` print the numbers of JSON, of
-- which there is none for a float that is not finite.
use potato_etl.Base.{
  ℕ, zero, suc, ◌+◌, Bool, true, false, Option, none, some, List, [], ◌∷◌, ◌++◌, Text, codes,
  text_eq, split_on, map, get_elem?, inl, inr, if◌then◌else◌, ◌==◌, Result, ok, err, then_ok, ok_or,
}
use potato_etl.Base.Int.{ℤ, wrap_i64}
use potato_etl.Arrow.{Scalar, Array, Field, RecordBatch, DataType, Json, Entries, Kernels}
use potato_etl.Expr.Arrays.{string_array, as_int, as_float, as_bool, as_text}
use potato_etl.Expr.JsonPath.{entry_at}
use potato_etl.Expr.Functions.{collect_ok}
use potato_etl.Transform.Map.{find_entry}
use potato_etl.Transform.Metrics.{indices_below}
pub mod Paths
mod Tests

pub data ObjectError : Type 0 where
  column_not_found arrow : Text → ObjectError
  downcast_failed index_out_of_bounds : ObjectError

-- `Map::insert`
unfoldable pub insert_entry : Text → Json → Entries → Entries
unfolding text_eq
insert_entry key value Entries.no_entries = Entries.entry key value Entries.no_entries
insert_entry key value (Entries.entry k v rest) =
    let later = insert_entry key value rest in
    if text_eq key k then Entries.entry k value rest else Entries.entry k v later

-- The object under a key: a new one if there is none, or a value of another kind.
unfoldable pub child_entries : Option Json → Entries
child_entries (some (Json.object entries)) = entries
child_entries _ = Entries.no_entries

-- A value at the end of a path of keys.
unfoldable pub set_segments : Text → List Text → Json → Entries → Entries
unfolding insert_entry child_entries entry_at
set_segments key [] value obj = insert_entry key value obj
set_segments key (next ∷ rest) value obj =
    insert_entry key (Json.object (set_segments next rest value (child_entries (entry_at key obj))))
      obj

unfoldable pub set_nested_value : Entries → Text → Json → Entries
unfolding split_on set_segments
set_nested_value obj path value =
    let (key, rest) = split_on b'.' path in set_segments key rest value obj

unfoldable pub scalar_to_url_string : (Json → Text) → Json → Text
scalar_to_url_string print_json (Json.string s) = s
scalar_to_url_string print_json (Json.number n) = n
scalar_to_url_string print_json Json.null = []
scalar_to_url_string print_json v = print_json v

module _ {F : Type 0} (k : Kernels F) (print_int : ℤ → Text) (print_float : F → Option Text) where
  -- A valid value as a value of the array type; `unwrap` of a failed downcast panics.
  abbrev pub unwrap {ℓ} : {A : Type ℓ} → Option A → Result ObjectError A
  unwrap o = ok_or ObjectError.downcast_failed o

  abbrev pub json_int : Scalar F → Result ObjectError Json
  json_int v = then_ok (unwrap (as_int v)) λ i. ok (Json.number (print_int (wrap_i64 i)))

  abbrev pub json_float : Scalar F → Result ObjectError Json
  json_float v =
      then_ok (unwrap (as_float v))
        λ x. ok (elim (print_float x) [ none ↦ Json.null | some s ↦ Json.number s ])

  -- The cell as a text: a NULL there is the empty text, and a failed cast is null.
  abbrev pub text_cell : Option (Scalar F) → Json
  text_cell (some (Scalar.text s)) = Json.string s
  text_cell _ = Json.string []

  unfoldable pub cast_to_string : Array F → ℕ → Result ObjectError Json
  cast_to_string arr idx = elim (k.cast arr DataType.utf8) [
    | inl e ↦ ok Json.null
    | inr b ↦
        then_ok (ok_or ObjectError.index_out_of_bounds (get_elem? b.cells idx))
          λ cell. ok (text_cell cell)
  ]

  -- The value of a type. A `LargeUtf8` array is no `StringArray`, so its downcast fails.
  unfoldable pub value_by_type : DataType → Array F → ℕ → Scalar F → Result ObjectError Json
  unfolding wrap_i64 cast_to_string
  value_by_type DataType.utf8 arr idx v = then_ok (unwrap (as_text v)) λ s. ok (Json.string s)
  value_by_type DataType.large_utf8 arr idx v = err ObjectError.downcast_failed
  value_by_type DataType.int8 arr idx v = json_int v
  value_by_type DataType.int16 arr idx v = json_int v
  value_by_type DataType.int32 arr idx v = json_int v
  value_by_type DataType.int64 arr idx v = json_int v
  value_by_type DataType.uint8 arr idx v = json_int v
  value_by_type DataType.uint16 arr idx v = json_int v
  value_by_type DataType.uint32 arr idx v = json_int v
  value_by_type DataType.uint64 arr idx v = json_int v
  value_by_type DataType.float32 arr idx v = json_float v
  value_by_type DataType.float64 arr idx v = json_float v
  value_by_type DataType.boolean arr idx v = then_ok (unwrap (as_bool v)) λ b. ok (Json.bool b)
  value_by_type _ arr idx v = cast_to_string arr idx

  unfoldable pub array_value_at : Array F → ℕ → Result ObjectError Json
  unfolding value_by_type
  array_value_at arr idx = elim (get_elem? arr.cells idx) [
    | none ↦ err ObjectError.index_out_of_bounds
    | some none ↦ ok Json.null
    | some (some v) ↦ value_by_type arr.data_type arr idx v
  ]

  -- The object of all columns, and that of a field map.
  unfoldable pub flat_object : List (Field × Array F) → ℕ → Entries → Result ObjectError Entries
  unfolding array_value_at insert_entry
  flat_object [] idx obj = ok obj
  flat_object ((f, a) ∷ columns) idx obj =
      then_ok (array_value_at a idx) λ v. flat_object columns idx (insert_entry f.name v obj)

  unfoldable pub mapped_object :
      List (Field × Array F) → List (Text × Text) → ℕ → Entries → Result ObjectError Entries
  unfolding find_entry array_value_at set_nested_value
  mapped_object columns [] idx obj = ok obj
  mapped_object columns ((col_name, json_path) ∷ field_map) idx obj =
      then_ok (ok_or (ObjectError.column_not_found col_name) (find_entry col_name columns))
        λ (f, a).
          then_ok (array_value_at a idx)
            λ v. mapped_object columns field_map idx (set_nested_value obj json_path v)

  unfoldable pub row_object :
      List (Field × Array F) → List (Text × Text) → ℕ → Result ObjectError Entries
  unfolding flat_object mapped_object
  row_object columns [] idx = flat_object columns idx Entries.no_entries
  row_object columns (f ∷ field_map) idx =
      mapped_object columns (f ∷ field_map) idx Entries.no_entries

  abbrev pub json_row :
      List (Field × Array F) → List (Text × Text) → ℕ → Result ObjectError (Option Text)
  json_row columns field_map idx =
      then_ok (row_object columns field_map idx)
        λ obj. ok (some (k.strings.print_json (Json.object obj)))

  unfoldable pub build_objects :
      RecordBatch F → List (Text × Text) → Text → Result ObjectError (RecordBatch F)
  unfolding row_object collect_ok indices_below
  build_objects batch field_map output_col =
      then_ok (collect_ok (map (json_row batch.columns field_map) (indices_below batch.num_rows)))
        λ json_strings.
          elim (k.try_new (
            batch.columns
            ++ (
              record {
                name = output_col;
                data_type = DataType.utf8;
                nullable = true;
                metadata = [];
              },
              string_array json_strings,
            )
              ∷ [])) [ inl e ↦ err (ObjectError.arrow e) | inr out ↦ ok out ]

  -- The text for a placeholder: the value of its column in the row, or the placeholder as it stands.
  unfoldable pub replacement : RecordBatch F → ℕ → Text → Result ObjectError Text
  unfolding find_entry array_value_at scalar_to_url_string
  replacement batch row_idx placeholder = elim (find_entry placeholder batch.columns) [
    | none ↦ ok (b'{' ∷ placeholder ++ b'}' ∷ [])
    | some (f, a) ↦
        then_ok (array_value_at a row_idx) λ v. ok (scalar_to_url_string k.strings.print_json v)
  ]

  -- The template outside of a placeholder, and inside of one with its characters so far.
  unfoldable mutual
    unfolding replacement

    pub resolve_url_template : RecordBatch F → ℕ → Text → Result ObjectError Text
    resolve_url_template batch row_idx [] = ok []
    resolve_url_template batch row_idx (c ∷ s) =
        let placeholder = in_placeholder batch row_idx [] s in
        let rest = then_ok (resolve_url_template batch row_idx s) λ url. ok (c ∷ url) in
        if c == b'{' then placeholder else rest

    pub in_placeholder : RecordBatch F → ℕ → Text → Text → Result ObjectError Text
    in_placeholder batch row_idx name [] = ok (b'{' ∷ name)
    in_placeholder batch row_idx name (c ∷ s) =
        let close =
          then_ok (replacement batch row_idx name)
            λ text. then_ok (resolve_url_template batch row_idx s) λ url. ok (text ++ url) in
        let more = in_placeholder batch row_idx (name ++ c ∷ []) s in
        if c == b'}' then close else more
