-- ===== src/Scd2/Tests.antt =====
-- A batch with a new, an updated and an unchanged row, and the theorems at it.
use potato_etl.Base.{
  filter, ◌+◌, ◌≤◌, ◌≡◌, refl, not, Option, none, some, ok, err, List, [], ◌∷◌, Text, codes, map,
  length, get,
}
use potato_etl.Scd2.{
  RecordBatch, Scd2Config, Scd2Decision, Row, CurrentRows, extract_scd2_key_strings, diff_rows,
  compute_scd2_decision, no_key_column,
}
use potato_etl.Scd2.Counts.{
  is_update, is_written, zip, diff_rows-partition, Decided, compute_scd2_decision-counts,
}
use potato_etl.Scd2.Config.{new, calls, chunk_size, chunk_size-positive}

abbrev id : Text
id = codes "id"

abbrev name : Text
name = codes "name"

abbrev ann : Text
ann = codes "Ann"

abbrev bob : Text
bob = codes "Bob"

abbrev ids : List (Option Text)
ids = some (codes "1") ∷ some (codes "2") ∷ some (codes "3") ∷ []

abbrev batch : RecordBatch Text
batch = record { num_rows = 3; columns = (id, ids) ∷ (name, some ann ∷ some bob ∷ none ∷ []) ∷ [] }

abbrev config : Scd2Config
unfolding new
config = new (codes "public")

abbrev existing : CurrentRows
existing =
    (codes "2", (id, some (codes "2")) ∷ (name, some ann) ∷ [])
    ∷ (codes "3", (id, some (codes "3")) ∷ (name, none) ∷ [])
    ∷ []

abbrev keys : List Text
keys = codes "1" ∷ codes "2" ∷ codes "3" ∷ []

abbrev row_1 : Row
row_1 = some (codes "1") ∷ some ann ∷ []

abbrev row_2 : Row
row_2 = some (codes "2") ∷ some bob ∷ []

abbrev row_3 : Row
row_3 = some (codes "3") ∷ none ∷ []

abbrev rows : List Row
rows = row_1 ∷ row_2 ∷ row_3 ∷ []

abbrev names : List Text
names = id ∷ name ∷ []

decides :
    compute_scd2_decision some batch config existing
    ≡ ok (record {
      to_close = codes "2" ∷ [];
      to_insert = row_1 ∷ row_2 ∷ [];
      insert_cols = names;
      col_names_vec = names;
      scd_meta = codes "scd_id" ∷ codes "valid_from" ∷ codes "valid_to" ∷ codes "is_current" ∷ [];
      stats = record { new_rows = 1; updated_rows = 1; unchanged_rows = 1 };
    })
unfolding compute_scd2_decision config
decides = refl

needs_key :
    compute_scd2_decision some batch (record config { key_col = bob }) existing ≡ err no_key_column
unfolding compute_scd2_decision config
needs_key = refl

diff_rows-partition_example :
    ((diff_rows names (name ∷ []) existing keys rows).to_close
      ≡ map
          (λ p. p.0)
          (filter
            (is_update names (name ∷ []) existing)
            (zip names (name ∷ []) existing keys rows)))
    × ((diff_rows names (name ∷ []) existing keys rows).to_insert
        ≡ map
            (λ p. p.1)
            (filter
              (is_written names (name ∷ []) existing)
              (zip names (name ∷ []) existing keys rows)))
    × ((diff_rows names (name ∷ []) existing keys rows).unchanged
        ≡ length (
            filter
              (λ p. not (is_written names (name ∷ []) existing p))
              (zip names (name ∷ []) existing keys rows)))
diff_rows-partition_example = diff_rows-partition names (name ∷ []) existing keys rows

compute_scd2_decision-counts_example :
    (keys' : List Text) × (d : Scd2Decision) × (extract_scd2_key_strings some ids ≡ ok keys')
    × (compute_scd2_decision some batch config existing ≡ ok d)
    × Decided some batch config existing keys' d
    × (d.stats.new_rows + d.stats.updated_rows + d.stats.unchanged_rows ≡ 3)
unfolding get config
compute_scd2_decision-counts_example =
    compute_scd2_decision-counts some batch config existing ids (refl, (refl, tt)) refl
      ((λ h. cc), ((λ h. cc), ((λ h. cc), tt)))

chunk_size-positive_example :
    1 ≤ (calls (new (codes "public")) (chunk_size 50 ∷ chunk_size 0 ∷ [])).chunk_size
chunk_size-positive_example =
    chunk_size-positive (codes "public") (chunk_size 50 ∷ chunk_size 0 ∷ [])
