-- ===== src/Sql/Quoting.antt =====
-- common/src/schema/ddl/mod.rs: a quoted identifier is read back whole.
use potato_etl.Base.{
  Bool, true, false, arith, ℕ, ◌≡◌, refl, false, Option, none, some, [], ◌∷◌, ◌++◌, append_assoc,
  Text, if◌then◌else◌, ◌==◌, ==_refl, ==_iff, Bool-cases, inl, inr,
}
use potato_etl.Sql.{backtick, SqlDialect, doubled}

-- How a text goes on.
abbrev pub Follows : ℕ → Text → Type 0
Follows c [] = Unit
Follows c (d ∷ s) = (d == c) ≡ false

-- A character in front of what was read.
abbrev pub push_code : ℕ → Option (Text × Text) → Option (Text × Text)
push_code c none = none
push_code c (some (s, rest)) = some (c ∷ s, rest)

-- The lexer of SQL behind the opening character: a doubled closing character stands for itself, and a
-- single one ends the identifier.
unfoldable mutual
  pub read_quoted : ℕ → Text → Option (Text × Text)
  read_quoted c [] = none
  read_quoted c (d ∷ s) =
      let closed = after_close c s in
      let more = push_code d (read_quoted c s) in if d == c then closed else more

  pub after_close : ℕ → Text → Option (Text × Text)
  after_close c [] = some ([], [])
  after_close c (d ∷ s) =
      let more = push_code d (read_quoted c s) in if d == c then more else some ([], d ∷ s)

pub read_quoted-doubled :
    (c : ℕ) (s rest : Text)
    → Follows c rest
    → read_quoted c (doubled c s ++ c ∷ rest) ≡ some (s, rest)
unfolding read_quoted doubled
read_quoted-doubled c [] [] h = rw (==_refl c) refl
read_quoted-doubled c [] (d ∷ rest) h = rw (==_refl c, h) refl
read_quoted-doubled c (d ∷ s) rest h =
    elim (Bool-cases (d == c))
      as (λ _. read_quoted c (doubled c (d ∷ s) ++ c ∷ rest) ≡ some (d ∷ s, rest)) [
        | inl e ↦ rw (e, ==_refl c, read_quoted-doubled c s rest h, (==_iff d c).0 e) refl
        | inr e ↦ rw (e, e, read_quoted-doubled c s rest h) refl
      ]

-- The characters between which the databases themselves read a quoted identifier. Databricks takes
-- backticks, as MySQL does.
unfoldable pub open_char : SqlDialect → ℕ
open_char SqlDialect.mssql = b'['
open_char SqlDialect.mysql = b'`'
open_char SqlDialect.databricks = b'`'
open_char _ = b'"'

unfoldable pub close_char : SqlDialect → ℕ
close_char SqlDialect.mssql = b']'
close_char SqlDialect.mysql = b'`'
close_char SqlDialect.databricks = b'`'
close_char _ = b'"'

abbrev pub is_databricks : SqlDialect → Bool
is_databricks SqlDialect.databricks = true
is_databricks _ = false

-- The lexer at an identifier that is quoted.
unfoldable pub read_identifier : SqlDialect → Text → Option (Text × Text)
unfolding read_quoted
read_identifier d [] = none
read_identifier d (o ∷ s) =
    let behind = read_quoted (close_char d) s in if o == open_char d then behind else none

-- A text that was put between its characters, with the closing one doubled in it.
pub read_quoted-between :
    (c : ℕ) (ident rest : Text)
    → Follows c rest
    → read_quoted c ((doubled c ident ++ c ∷ []) ++ rest) ≡ some (ident, rest)
read_quoted-between c ident rest h =
    rw (append_assoc (doubled c ident) (c ∷ []) rest) (read_quoted-doubled c ident rest h)

-- What the drivers of MySQL and Databricks write by `backtick` is read back there as exactly the identifier,
-- and what follows is left, if it does not start with a backtick.
pub read_identifier-backtick :
    (d : SqlDialect) (ident rest : Text)
    → open_char d ≡ b'`'
    → Follows b'`' rest
    → read_identifier d (backtick ident ++ rest) ≡ some (ident, rest)
unfolding read_identifier open_char close_char backtick
read_identifier-backtick SqlDialect.mysql ident rest e h = read_quoted-between b'`' ident rest h
read_identifier-backtick SqlDialect.databricks ident rest e h =
    read_quoted-between b'`' ident rest h
read_identifier-backtick SqlDialect.postgres ident rest e h = absurd (omega arith)
read_identifier-backtick SqlDialect.mssql ident rest e h = absurd (omega arith)
read_identifier-backtick SqlDialect.oracle ident rest e h = absurd (omega arith)
