-- ===== src/Scd2/Settled.antt =====
-- Writing the decision of a batch and diffing the same batch again.
use potato_etl.Base.{
  ◌≡◌, refl, sym, subst, ◌∙◌, Bool, true, false, Option, none, some, List, [], ◌∷◌, Text, text_eq,
  map, text_eq_refl, text_eq_comm, length, arith, if◌then◌else◌, contains, get, insert, get-insert,
  get-insert_other, Bool-cases, Option-cases, inl, inr, text_eq→eq,
}
use potato_etl.Scd2.{
  Row, Cells, CurrentRows, Diff, flatten, option_eq, collect, is_changed, diff_rows,
}

option_eq_refl : (o : Option Text) → option_eq o o ≡ true
unfolding option_eq
option_eq_refl none = refl
option_eq_refl (some t) = text_eq_refl t

is_changed_refl : (tracked : List Text) (cells : Cells) → is_changed tracked cells cells ≡ false
unfolding is_changed
is_changed_refl [] cells = refl
is_changed_refl (col ∷ tracked) cells =
    rw (option_eq_refl (flatten (get col cells))) (is_changed_refl tracked cells)

-- No key occurs twice.
unfoldable pub are_distinct : List Text → Bool
unfolding contains
are_distinct [] = true
are_distinct (key ∷ keys) = if contains key keys then false else are_distinct keys

-- The current rows without that of a key.
unfoldable pub remove : Text → CurrentRows → CurrentRows
unfolding text_eq
remove key [] = []
remove key ((k, cells) ∷ m) =
    let kept = remove key m in if text_eq key k then kept else (k, cells) ∷ kept

get-remove_other :
    (key x : Text) (m : CurrentRows) → text_eq x key ≡ false → get x (remove key m) ≡ get x m
unfolding get remove
get-remove_other key x [] h = refl
get-remove_other key x ((k, cells) ∷ m) h =
    ground (arith, text_eq→eq key k, get-remove_other key x m h)

-- Closing the rows of the keys: they are current no more.
unfoldable pub close_all : CurrentRows → List Text → CurrentRows
unfolding remove
close_all m [] = m
close_all m (key ∷ keys) = remove key (close_all m keys)

-- A NULL is the empty text.
abbrev pub text_or_empty : Option Text → Text
text_or_empty none = []
text_or_empty (some s) = s

abbrev pub cells_of : List Text → Row → Cells
cells_of names row = collect [] names row

module _ (names : List Text) (key_col : Text) where
  -- The key that stands in the row.
  unfoldable pub key_of : Row → Text
  unfolding get collect
  key_of row = text_or_empty (flatten (get key_col (cells_of names row)))

  -- Inserting rows: each is the current one of the key that stands in it.
  unfoldable pub insert_all : CurrentRows → List Row → CurrentRows
  unfolding key_of collect insert
  insert_all m [] = m
  insert_all m (row ∷ rows) = insert_all (insert (key_of row) (cells_of names row) m) rows

  -- The current rows once a sink has closed the keys and inserted the rows of a decision.
  unfoldable pub written : CurrentRows → List Text → List Row → CurrentRows
  unfolding close_all insert_all
  written existing to_close to_insert = insert_all (close_all existing to_close) to_insert

module _ (names tracked : List Text) (key_col : Text) where
  abbrev pub diff_of : CurrentRows → List Row → Diff
  diff_of existing rows = diff_rows names tracked existing (map (key_of names key_col) rows) rows

  -- Every row has a current row with the same values in the tracked columns.
  abbrev Settled : CurrentRows → List Row → Type 0
  Settled m [] = Unit {0}
  Settled m (row ∷ rows) =
      ((current : Cells) × (get (key_of names key_col row) m ≡ some current)
        × (is_changed tracked (cells_of names row) current ≡ false))
      × Settled m rows

  diff_of-Settled :
      (m : CurrentRows) (rows : List Row)
      → Settled m rows
      → diff_of m rows ≡ record { to_close = []; to_insert = []; unchanged = length rows }
  unfolding diff_rows
  diff_of-Settled m [] h = refl
  diff_of-Settled m (row ∷ rows) (h, hs) =
      let ih = diff_of-Settled m rows hs in rw (diff_rows, h.1, h.2, ih) refl

  module _ (existing : CurrentRows) where
    -- The rows that the decision leaves as they are have their current row in `m` too.
    abbrev Keeps : CurrentRows → List Row → Type 0
    Keeps m [] = Unit {0}
    Keeps m (row ∷ rows) =
        ((current : Cells)
          → get (key_of names key_col row) existing ≡ some current
          → is_changed tracked (cells_of names row) current ≡ false
          → get (key_of names key_col row) m ≡ some current)
        × Keeps m rows

    -- A key that no row has is not touched by the decision.
    get-insert_all :
        (m : CurrentRows) (rows : List Row) (x : Text)
        → contains x (map (key_of names key_col) rows) ≡ false
        → get x (insert_all names key_col m (diff_of existing rows).to_insert) ≡ get x m
    unfolding insert_all diff_rows contains
    get-insert_all m [] x h = refl
    get-insert_all m (row ∷ rows) x h =
        let below = get-insert_all m rows x (ground arith) in
        let above =
          get-insert_all (insert (key_of names key_col row) (cells_of names row) m) rows x
            (ground arith) in
        let other =
          get-insert_other (key_of names key_col row) x (cells_of names row) m (ground arith) in
        ground arith

    Keeps-put :
        (put : CurrentRows → CurrentRows) (x : Text)
        → ((y : Text) (m : CurrentRows) → text_eq y x ≡ false → get y (put m) ≡ get y m)
        → (m : CurrentRows) (rows : List Row) → contains x (map (key_of names key_col) rows) ≡ false
        → Keeps m rows
        → Keeps (put m) rows
    unfolding contains
    Keeps-put put x law m [] n h = tt
    Keeps-put put x law m (row ∷ rows) n (h, hs) = (
      (λ current e c.
          law (key_of names key_col row) m
            (text_eq_comm (key_of names key_col row) x ∙ ground arith)
          ∙ h current e c),
      Keeps-put put x law m rows (ground arith) hs,
    )

    get-close_all :
        (rows : List Row) (x : Text)
        → contains x (map (key_of names key_col) rows) ≡ false
        → get x (close_all existing (diff_of existing rows).to_close) ≡ get x existing
    unfolding close_all diff_rows contains
    get-close_all [] x h = refl
    get-close_all (row ∷ rows) x h =
        let ih = get-close_all rows x (ground arith) in
        let other =
          get-remove_other (key_of names key_col row) x
            (close_all existing (diff_of existing rows).to_close) (ground arith) in
        ground arith

    close_all-Keeps :
        (rows : List Row)
        → are_distinct (map (key_of names key_col) rows) ≡ true
        → Keeps (close_all existing (diff_of existing rows).to_close) rows
    unfolding close_all are_distinct diff_rows
    close_all-Keeps [] d = tt
    close_all-Keeps (row ∷ rows) d =
        let key = key_of names key_col row in
        let fresh : contains key (map (key_of names key_col) rows) ≡ false = ground arith in
        let ih = close_all-Keeps rows (ground arith) in
        let rest = (diff_of existing rows).to_close in
        let closes = (diff_of existing (row ∷ rows)).to_close in
        let at = λ (ks : List Text). Keeps (close_all existing ks) (row ∷ rows) in
        elim (Option-cases (get key existing)) [
          | inl e ↦
              let eq : closes ≡ rest = rw (diff_rows, e) refl in
              subst at (sym eq) ((λ current q c. absurd cc), ih)
          | inr (now, e) ↦ elim (Bool-cases (is_changed tracked (cells_of names row) now)) [
            | inl c ↦
                let eq : closes ≡ key ∷ rest = rw (diff_rows, e, c) refl in
                let tail =
                  Keeps-put (remove key) key (λ y m h. get-remove_other key y m h)
                    (close_all existing rest) rows fresh ih in
                subst at (sym eq) ((λ current q n. absurd cc), tail)
            | inr c ↦
                let eq : closes ≡ rest = rw (diff_rows, e, c) refl in
                subst at (sym eq) ((λ current q n. get-close_all rows key fresh ∙ q), ih)
          ]
        ]

    insert_all-Settled :
        (m : CurrentRows) (rows : List Row)
        → are_distinct (map (key_of names key_col) rows) ≡ true
        → Keeps m rows
        → Settled (insert_all names key_col m (diff_of existing rows).to_insert) rows
    unfolding insert_all are_distinct diff_rows
    insert_all-Settled m [] d h = tt
    insert_all-Settled m (row ∷ rows) d (h, hs) =
        let key = key_of names key_col row in
        let cells = cells_of names row in
        let fresh : contains key (map (key_of names key_col) rows) ≡ false = ground arith in
        let distinct : are_distinct (map (key_of names key_col) rows) ≡ true = ground arith in
        let rest = (diff_of existing rows).to_insert in
        let inserts = (diff_of existing (row ∷ rows)).to_insert in
        let at = λ (is : List Row). Settled (insert_all names key_col m is) (row ∷ rows) in
        let put = λ (x : CurrentRows). insert key cells x in
        let new : at (row ∷ rest) = (
          (
            cells,
            get-insert_all (put m) rows key fresh ∙ get-insert key cells m,
            is_changed_refl tracked cells,
          ),
          insert_all-Settled (put m) rows distinct
              (Keeps-put put key (λ y x n. get-insert_other key y cells x n) m rows fresh hs),
        ) in
        elim (Option-cases (get key existing)) [
          | inl e ↦ let eq : inserts ≡ row ∷ rest = rw (diff_rows, e) refl in subst at (sym eq) new
          | inr (now, e) ↦ elim (Bool-cases (is_changed tracked cells now)) [
            | inl c ↦
                let eq : inserts ≡ row ∷ rest = rw (diff_rows, e, c) refl in subst at (sym eq) new
            | inr c ↦
                let eq : inserts ≡ rest = rw (diff_rows, e, c) refl in
                subst at (sym eq) (
                  (now, get-insert_all m rows key fresh ∙ h now e c, c),
                  insert_all-Settled m rows distinct hs,
                )
          ]
        ]

    -- Writing the decision of a batch and reading the batch once more changes nothing: where no key
    -- occurs twice, close the keys that the diff closes and insert the rows that it inserts; then the
    -- diff of the same rows against the current rows as they are now closes and inserts none, and counts
    -- all of them as unchanged. The keys of the rows are those that stand in them.
    pub diff_rows-written :
        (rows : List Row)
        → are_distinct (map (key_of names key_col) rows) ≡ true
        → diff_rows names tracked
            (written names key_col existing
              (diff_rows names tracked existing (map (key_of names key_col) rows) rows).to_close
              (diff_rows names tracked existing (map (key_of names key_col) rows) rows).to_insert)
            (map (key_of names key_col) rows)
            rows
          ≡ record { to_close = []; to_insert = []; unchanged = length rows }
    unfolding written
    diff_rows-written rows d =
        let closed = close_all existing (diff_of existing rows).to_close in
        diff_of-Settled (insert_all names key_col closed (diff_of existing rows).to_insert) rows
          (insert_all-Settled closed rows d (close_all-Keeps rows d))
