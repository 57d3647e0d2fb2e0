-- ===== src/Scd2/Counts.antt =====
-- What the SCD2 diff does with each row of a batch.
use potato_etl.Base.{
  filter, ℕ, suc, ◌+◌, ◌-◌, contains, ◌≤◌, ◌≡◌, refl, ap, ◌∙◌, ◌≢◌, subst, Bool, true, false, not,
  ◌||◌, Option, none, some, List, [], ◌∷◌, Text, text_eq, map, replicate, length, length-map,
  length-replicate, All, arith, get, ok, Bool-cases, Option-cases, inl, inr,
}
use potato_etl.Scd2.{
  RecordBatch, IsBatch, Scd2Config, Row, CurrentRows, Scd2Decision, push_column, push_columns,
  record_batch_to_string_rows, extract_scd2_key_strings, collect, is_changed, diff_rows, tracked_of,
  scd_meta_of, compute_scd2_decision,
}

module _ (names tracked : List Text) (existing : CurrentRows) where
  -- A row whose key has no current row.
  abbrev pub is_new : Text × Row → Bool
  is_new (key, row) = elim (get key existing) [ none ↦ true | some current ↦ false ]

  -- A row whose key has a current row with another value in a tracked column.
  abbrev pub is_update : Text × Row → Bool
  is_update (key, row) = elim (get key existing) [
    | none ↦ false
    | some current ↦ is_changed tracked (collect [] names row) current
  ]

  abbrev pub is_written : Text × Row → Bool
  is_written p = is_new p || is_update p

  unfoldable pub zip : List Text → List Row → List (Text × Row)
  zip [] rows = []
  zip (key ∷ keys) [] = []
  zip (key ∷ keys) (row ∷ rows) = (key, row) ∷ zip keys rows

  -- The diff splits the rows, in their order: the keys of the rows that differ from their current row
  -- in a tracked column are closed, these rows and those without a current row are inserted, and the
  -- others are counted as unchanged.
  pub diff_rows-partition :
      (keys : List Text) (rows : List Row)
      → ((diff_rows names tracked existing keys rows).to_close
          ≡ map (λ p. p.0) (filter is_update (zip keys rows)))
        × ((diff_rows names tracked existing keys rows).to_insert
            ≡ map (λ p. p.1) (filter is_written (zip keys rows)))
        × ((diff_rows names tracked existing keys rows).unchanged
            ≡ length (filter (λ p. not (is_written p)) (zip keys rows)))
  unfolding diff_rows filter zip
  diff_rows-partition [] rows = (refl, refl, refl)
  diff_rows-partition (key ∷ keys) [] = (refl, refl, refl)
  diff_rows-partition (key ∷ keys) (row ∷ rows) =
      let ih = diff_rows-partition keys rows in ground arith

  -- No row is lost or counted twice.
  diff_rows-counts :
      (keys : List Text) (rows : List Row)
      → length keys ≡ length rows
      → (length (diff_rows names tracked existing keys rows).to_close
          ≤ length (diff_rows names tracked existing keys rows).to_insert)
        × (length (diff_rows names tracked existing keys rows).to_insert
              + (diff_rows names tracked existing keys rows).unchanged
            ≡ length rows)
  unfolding diff_rows
  diff_rows-counts [] [] h = omega arith
  diff_rows-counts [] (row ∷ rows) h = absurd (omega arith)
  diff_rows-counts (key ∷ keys) [] h = absurd (omega arith)
  diff_rows-counts (key ∷ keys) (row ∷ rows) h =
      let ih = diff_rows-counts keys rows (omega arith) in ground arith

  -- Each written row is new or updated, and not both.
  length-written :
      (ps : List (Text × Row))
      → length (filter is_written ps) ≡ length (filter is_new ps) + length (filter is_update ps)
  unfolding filter
  length-written [] = refl
  length-written ((key, row) ∷ ps) = let ih = length-written ps in ground arith

  -- A decision on rows with their keys: it closes the keys of the updated rows and inserts the new and
  -- the updated rows, in their order, and its numbers are those of the new, the updated and the other
  -- rows.
  abbrev pub Decides : List (Text × Row) → Scd2Decision → Type 0
  Decides ps d =
      (d.to_close ≡ map (λ p. p.0) (filter is_update ps))
      × (d.to_insert ≡ map (λ p. p.1) (filter is_written ps))
      × (d.stats.new_rows ≡ length (filter is_new ps))
      × (d.stats.updated_rows ≡ length (filter is_update ps))
      × (d.stats.unchanged_rows ≡ length (filter (λ p. not (is_written p)) ps))

module _ {V : Type 0} (array_value_to_string : V → Option Text) where
  length-push_column :
      (rows : List Row) (array : List (Option V))
      → length (push_column array_value_to_string rows array) ≡ length rows
  unfolding push_column
  length-push_column [] array = refl
  length-push_column (row ∷ rows) [] = refl
  length-push_column (row ∷ rows) (v ∷ array) = ap suc (length-push_column rows array)

  length-push_columns :
      (rows : List Row) (columns : List (Text × List (Option V)))
      → length (push_columns array_value_to_string rows columns) ≡ length rows
  unfolding push_columns
  length-push_columns rows [] = refl
  length-push_columns rows ((name, array) ∷ columns) =
      length-push_columns (push_column array_value_to_string rows array) columns
      ∙ length-push_column rows array

  pub length-record_batch_to_string_rows :
      (batch : RecordBatch V)
      → length (record_batch_to_string_rows array_value_to_string batch) ≡ batch.num_rows
  unfolding record_batch_to_string_rows
  length-record_batch_to_string_rows batch =
      length-push_columns (replicate batch.num_rows []) batch.columns
      ∙ length-replicate batch.num_rows []

  -- Every value that is not NULL has a text.
  abbrev pub IsConvertible : List (Option V) → Type 0
  IsConvertible [] = Unit {0}
  IsConvertible (none ∷ array) = IsConvertible array
  IsConvertible (some v ∷ array) = (array_value_to_string v ≢ none) × IsConvertible array

  extract-total :
      (array : List (Option V))
      → IsConvertible array
      → (keys : List Text) × (extract_scd2_key_strings array_value_to_string array ≡ ok keys)
        × (length keys ≡ length array)
  unfolding extract_scd2_key_strings
  extract-total [] h = ([], refl, refl)
  extract-total (none ∷ array) h =
      let (keys, e, l) = extract-total array h in ([] ∷ keys, rw e refl, ap suc l)
  extract-total (some v ∷ array) h =
      let (keys, e, l) = extract-total array h.1 in
      elim (Option-cases (array_value_to_string v)) [
        | inl n ↦ absurd (h.0 n)
        | inr (key, k) ↦ (key ∷ keys, rw (k, e) refl, ap suc l)
      ]

  length-get :
      (n : ℕ) (name : Text) (columns : List (Text × List (Option V))) (array : List (Option V))
      → All (λ (x, a). length a ≡ n) columns
      → get name columns ≡ some array
      → length array ≡ n
  unfolding get
  length-get n name [] array h e = absurd cc
  length-get n name ((x, a) ∷ columns) array h e = elim (Bool-cases (text_eq name x)) [
    | inl same ↦ let k : a ≡ array = ground arith in subst (λ x. length x ≡ n) k h.0
    | inr other ↦ length-get n name columns array h.1 (rw (other, get) at e)
  ]

  abbrev pub Decided : RecordBatch V → Scd2Config → CurrentRows → List Text → Scd2Decision → Type 0
  Decided batch cfg existing keys d =
      let names = map (λ (name, a). name) batch.columns in
      Decides names (tracked_of cfg names) existing
        (zip names (tracked_of cfg names) existing keys
          (record_batch_to_string_rows array_value_to_string batch))
        d

  -- On a batch with a key column whose values have texts, the diff makes a decision: it closes the keys
  -- of the rows that differ from their current row in a tracked column, inserts these rows and those
  -- without a current row, in their order, and counts the new, the updated and the other rows. The three
  -- numbers add up to the batch's rows.
  pub compute_scd2_decision-counts :
      (batch : RecordBatch V) (cfg : Scd2Config) (existing : CurrentRows) (array : List (Option V))
      → IsBatch batch
      → get cfg.key_col batch.columns ≡ some array
      → IsConvertible array
      → (keys : List Text) × (d : Scd2Decision) × (extract_scd2_key_strings array_value_to_string
            array
          ≡ ok keys)
        × (compute_scd2_decision array_value_to_string batch cfg existing ≡ ok d)
        × Decided batch cfg existing keys d
        × (d.stats.new_rows + d.stats.updated_rows + d.stats.unchanged_rows ≡ batch.num_rows)
  unfolding compute_scd2_decision
  compute_scd2_decision-counts batch cfg existing array b e c =
      let (keys, k, l) = extract-total array c in
      let n = length-get batch.num_rows cfg.key_col batch.columns array b e in
      let r = length-record_batch_to_string_rows batch in
      let names = map (λ (name, a). name) batch.columns in
      let rows = record_batch_to_string_rows array_value_to_string batch in
      let tracked = tracked_of cfg names in
      let counts = diff_rows-counts names tracked existing keys rows (omega arith) in
      let (close, ins, same) = diff_rows-partition names tracked existing keys rows in
      let ps = zip names tracked existing keys rows in
      let split = length-written names tracked existing ps in
      let closed =
        ap length close ∙ length-map (filter (is_update names tracked existing) ps) (λ p. p.0) in
      let inserted =
        ap length ins ∙ length-map (filter (is_written names tracked existing) ps) (λ p. p.1) in
      let diff = diff_rows names tracked existing keys rows in
      let meta = scd_meta_of cfg.col_names in
      let d : Scd2Decision = record {
        to_close = diff.to_close;
        to_insert = diff.to_insert;
        insert_cols = filter (λ c. not (contains c meta)) names;
        col_names_vec = names;
        scd_meta = meta;
        stats = record {
          new_rows = length diff.to_insert - length diff.to_close;
          updated_rows = length diff.to_close;
          unchanged_rows = diff.unchanged;
        };
      } in
      (keys, d, k, rw (e, k) refl, (close, ins, omega arith, closed, same), omega arith)
