-- ===== src/Arrow/Sample.antt =====
-- An implementation of the interfaces of Arrow.antt over natural numbers, to evaluate the model on
-- concrete batches. A cast changes the type of an array and keeps its values.
use potato_etl.Base.{
  ℕ, suc, ◌+◌, ◌-◌, ◌*◌, ◌/◌, ◌≡◌, refl, Bool, true, false, Option, none, some, List, [], ◌∷◌, ◌++◌,
  Text, map, length, inr, inl, ◌⊎◌, ◌==◌, ltb, leb, text_eq, if◌then◌else◌, ap, subst, sym, ◌∙◌,
  All, ◌&&◌, arith,
}
use potato_etl.Unicode.{ascii_tables}
use potato_etl.Arrow.{
  Scalar, Array, Field, RecordBatch, IsBatch, Floats, Chrono, Strings, Kernels, DataType, Json,
}

abbrev pub floats : Floats ℕ
floats = record {
  zero = 0;
  neg = λ x. x;
  add = ◌+◌;
  sub = ◌-◌;
  mul = ◌*◌;
  div = ◌/◌;
  eq = ◌==◌;
  lt = ltb;
  le = leb;
  max = λ x y. if leb x y then y else x;
  min = λ x y. if leb x y then x else y;
  from_count = λ n. n;
}

abbrev pub chrono : Chrono
chrono = record {
  from_micros = λ t. none;
  from_millis = λ t. none;
  from_days = λ t. none;
  parse_rfc3339 = λ s. none;
  parse_from_str = λ s f. none;
  parse_date = λ s. none;
}

abbrev pub strings : Strings
strings = record {
  unicode = ascii_tables;
  to_uppercase = λ s. s;
  trim = λ s. s;
  is_match = λ p. some (text_eq p);
  replace_all = λ p. some (λ s r. s);
  parse_json = λ s. some (Json.string s);
  print_json = λ v. [];
}

abbrev pub same_type : DataType → DataType → Bool
same_type DataType.utf8 DataType.utf8 = true
same_type DataType.boolean DataType.boolean = true
same_type DataType.int64 DataType.int64 = true
same_type DataType.float64 DataType.float64 = true
same_type _ _ = false

-- The row of the first list where the mask holds, of the second one elsewhere, and NULL past its end.
abbrev pub zip_cells :
    {A : Type 0} → List Bool → List (Option A) → List (Option A) → List (Option A)
zip_cells [] xs ys = []
zip_cells (m ∷ mask) [] [] = none ∷ zip_cells mask [] []
zip_cells (m ∷ mask) [] (y ∷ ys) = (if m then none else y) ∷ zip_cells mask [] ys
zip_cells (m ∷ mask) (x ∷ xs) [] = (if m then x else none) ∷ zip_cells mask xs []
zip_cells (m ∷ mask) (x ∷ xs) (y ∷ ys) = (if m then x else y) ∷ zip_cells mask xs ys

pub length-zip_cells :
    {A : Type 0} (mask : List Bool) (xs ys : List (Option A))
    → length (zip_cells mask xs ys) ≡ length mask
length-zip_cells [] xs ys = refl
length-zip_cells (m ∷ mask) [] [] = ap suc (length-zip_cells mask [] [])
length-zip_cells (m ∷ mask) [] (y ∷ ys) = ap suc (length-zip_cells mask [] ys)
length-zip_cells (m ∷ mask) (x ∷ xs) [] = ap suc (length-zip_cells mask xs [])
length-zip_cells (m ∷ mask) (x ∷ xs) (y ∷ ys) = ap suc (length-zip_cells mask xs ys)

-- The values of the rows where the mask is true.
abbrev pub kept : {A : Type 0} → List (Option Bool) → List A → List A
kept [] xs = []
kept (m ∷ mask) [] = []
kept (some true ∷ mask) (x ∷ xs) = x ∷ kept mask xs
kept (m ∷ mask) (x ∷ xs) = kept mask xs

abbrev pub rows_of : List (Field × Array ℕ) → ℕ
rows_of [] = 0
rows_of ((f, a) ∷ columns) = length a.cells

-- `RecordBatch::try_new`, which compares the lengths of the columns.
abbrev pub same_rows : ℕ → List (Field × Array ℕ) → Bool
same_rows n [] = true
same_rows n ((f, a) ∷ columns) = (length a.cells == n) && same_rows n columns

abbrev pub batch_of : List (Field × Array ℕ) → RecordBatch ℕ
batch_of columns = record { num_rows = rows_of columns; columns = columns }

abbrev pub try_new : List (Field × Array ℕ) → Text ⊎ RecordBatch ℕ
try_new columns = if same_rows (rows_of columns) columns then inr (batch_of columns) else inl []

pub inr-injective : {A : Type 0} {x y : A} → ◌≡◌ {A = Text ⊎ A} (inr x) (inr y) → x ≡ y
inr-injective h = cc

same_rows-All :
    (n : ℕ) (columns : List (Field × Array ℕ))
    → same_rows n columns ≡ true
    → All (λ (f, a). length a.cells ≡ n) columns
same_rows-All n [] h = tt
same_rows-All n ((f, a) ∷ columns) h = (ground arith, same_rows-All n columns ground arith)

checked-lem :
    (columns : List (Field × Array ℕ)) (b : RecordBatch ℕ) (same : Bool)
    → same_rows (rows_of columns) columns ≡ same
    → ◌≡◌ {A = Text ⊎ RecordBatch ℕ} (if same then inr (batch_of columns) else inl []) (inr b)
    → (b.columns ≡ columns) × IsBatch b
checked-lem columns b true e h =
    subst (λ (x : RecordBatch ℕ). (x.columns ≡ columns) × IsBatch x) (inr-injective h)
      (refl, same_rows-All (rows_of columns) columns e)
checked-lem columns b false e h = cc

pub try_new-lem :
    (columns : List (Field × Array ℕ)) (b : RecordBatch ℕ)
    → try_new columns ≡ inr b
    → (b.columns ≡ columns) × IsBatch b
try_new-lem columns b h = checked-lem columns b (same_rows (rows_of columns) columns) refl h

abbrev pub kept_column : List (Option Bool) → Field × Array ℕ → Field × Array ℕ
kept_column mask (f, a) = (f, record a { cells = kept mask a.cells })

abbrev pub concat_cells : List (Array ℕ) → List (Option (Scalar ℕ))
concat_cells [] = []
concat_cells (a ∷ arrays) = a.cells ++ concat_cells arrays

abbrev pub concat_arrays : List (Array ℕ) → Text ⊎ Array ℕ
concat_arrays [] = inl []
concat_arrays (a ∷ arrays) =
    inr (record { data_type = a.data_type; cells = a.cells ++ concat_cells arrays })

abbrev pub kernels : Kernels ℕ
kernels = record {
  floats = floats;
  chrono = chrono;
  strings = strings;
  same_type = same_type;
  cast = λ a t. inr (record { data_type = t; cells = a.cells });
  zip =
      λ mask a b. inr (record { data_type = a.data_type; cells = zip_cells mask a.cells b.cells });
  concat = concat_arrays;
  try_new = try_new;
  filter_record_batch = λ batch mask. inr (batch_of (map (kept_column mask) batch.columns));
  cast_same = λ a. refl;
  cast_length = λ a t b h. ap (λ (x : Array ℕ). length x.cells) (sym (inr-injective h));
  zip_length = λ mask a b c h.
      ap (λ (x : Array ℕ). length x.cells) (sym (inr-injective h))
      ∙ length-zip_cells mask a.cells b.cells;
  try_new_columns = λ columns b h. (try_new-lem columns b h).0;
  try_new_rows = λ columns b h. (try_new-lem columns b h).1;
}
