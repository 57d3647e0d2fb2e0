-- ===== src/Alignment/Tests.antt =====
-- Batches and tables of three columns, and the theorems at them.
use potato_etl.Base.{
  not, filter, then_ok, ℕ, ◌≡◌, refl, true, false, some, List, [], ◌∷◌, Text, codes, map, ok, err,
  Ensures,
}
use potato_etl.Unicode.{ascii_tables}
use potato_etl.Alignment.{
  TargetColumn, AlignedColumn, ColumnAlignment, error, skip, no_value, rename_without_column,
  compute_alignment,
}
use potato_etl.Alignment.Mapping.{is_there, Selects, compute_alignment-Selects}
use potato_etl.Alignment.Identity.{compute_alignment-identity}

abbrev column : Text → TargetColumn
column name = record {
  name = name;
  data_type = codes "text";
  nullable = false;
  has_default = false;
}

abbrev table : List TargetColumn
table =
    column (codes "ID")
    ∷ column (codes "Name")
    ∷ record (column (codes "Note")) { nullable = true }
    ∷ []

abbrev batch : List (Text × ℕ)
batch = (codes "name", 10) ∷ (codes "extra", 11) ∷ (codes "id", 12) ∷ []

abbrev fields : List Text
fields = map (λ c. c.0) batch

aligns :
    compute_alignment ascii_tables fields table error []
    ≡ ok (record {
      mapping =
          record {
            batch_index = 2;
            target_name = codes "ID";
            target_type = codes "text";
            target_ordinal = some 1;
          }
          ∷ record {
            batch_index = 0;
            target_name = codes "Name";
            target_type = codes "text";
            target_ordinal = some 2;
          }
          ∷ [];
      dropped_columns = codes "extra" ∷ [];
      missing_columns = codes "Note" ∷ [];
      identity = false;
    })
unfolding compute_alignment
aligns = refl

refuses_missing :
    compute_alignment ascii_tables (codes "id" ∷ []) table error [] ≡ err (no_value (codes "Name"))
unfolding compute_alignment
refuses_missing = refl

refuses_rename :
    compute_alignment ascii_tables fields table error (codes "EXTRA" ∷ [])
    ≡ err (rename_without_column (codes "extra"))
unfolding compute_alignment
refuses_rename = refl

compute_alignment-Selects_example :
    Ensures
      (λ a.
        Selects ascii_tables batch a.mapping
        × (map (λ (ac : AlignedColumn). ac.target_name) a.mapping
            ≡ map (λ (tc : TargetColumn). tc.name) (filter (is_there ascii_tables fields) table))
        × (a.missing_columns
            ≡ map
                (λ (tc : TargetColumn). tc.name)
                (filter (λ tc. not (is_there ascii_tables fields tc)) table)))
      (compute_alignment ascii_tables fields table error [])
compute_alignment-Selects_example = compute_alignment-Selects ascii_tables batch table error []

abbrev same_fields : List Text
same_fields = codes "id" ∷ codes "NAME" ∷ codes "note" ∷ []

-- Fields that differ from the table's columns in case alone.
same_is_identity :
    then_ok
      (compute_alignment ascii_tables same_fields table skip [])
      (λ (a : ColumnAlignment). ok a.identity)
    ≡ ok true
unfolding compute_alignment
same_is_identity = refl

compute_alignment-identity_example :
    Ensures
      (λ a.
        a.identity ≡ true
        → map ascii_tables.to_lowercase same_fields
          ≡ map (λ (tc : TargetColumn). ascii_tables.to_lowercase tc.name) table)
      (compute_alignment ascii_tables same_fields table skip [])
compute_alignment-identity_example =
    compute_alignment-identity ascii_tables same_fields table skip []
