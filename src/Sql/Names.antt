-- ===== src/Sql/Names.antt =====
-- common/src/schema/ddl/mod.rs: what `quote` writes is a name, with or without quotes.
use potato_etl.Base.{
  map, not, ℕ, ◌≡◌, Bool, false, ◌&&◌, Option, none, some, [], ◌∷◌, ◌++◌, Text, all, if◌then◌else◌,
  ◌==◌,
}
use potato_etl.Unicode.{ascii_lower}
use potato_etl.Sql.{
  ascii_upper, SqlDialect, oracle_smart_quote, oracle_is_reserved, starts_simple, is_simple,
}
use potato_etl.Sql.Quoting.{close_char, read_quoted, open_char}

-- A text that does not go on with a character of a plain name.
abbrev pub EndsWord : Text → Type 0
EndsWord [] = Unit
EndsWord (c ∷ s) = is_simple c ≡ false

abbrev pub put_front : ℕ → Text × Text → Text × Text
put_front c (word, rest) = (c ∷ word, rest)

-- The characters of a plain name, and what follows them.
unfoldable pub read_word : Text → Text × Text
read_word [] = ([], [])
read_word (c ∷ s) =
    let more = put_front c (read_word s) in if is_simple c then more else ([], c ∷ s)

-- The case in which a database stores a name that is not quoted.
unfoldable pub fold_case : SqlDialect → Text → Text
fold_case SqlDialect.oracle name = map ascii_upper name
fold_case SqlDialect.postgres name = map ascii_lower name
fold_case _ name = name

-- A plain name that is no word of the language, as it is stored.
abbrev pub unless_reserved : SqlDialect → Text × Text → Option (Text × Text)
unless_reserved d (word, rest) =
    if oracle_is_reserved word then none else some (fold_case d word, rest)

-- The lexer of a database at a name, quoted or plain.
unfoldable pub read_name : SqlDialect → Text → Option (Text × Text)
unfolding read_quoted read_word fold_case
read_name d [] = none
read_name d (o ∷ s) =
    let quoted = read_quoted (close_char d) s in
    let plain = unless_reserved d (put_front o (read_word s)) in
    if o == open_char d then quoted else if starts_simple o then plain else none

-- A name that is stored without its case, for Oracle: plain, and no reserved word.
abbrev pub is_plain : Text → Bool
is_plain [] = false
is_plain (c ∷ s) = starts_simple c && all is_simple s && not (oracle_is_reserved (c ∷ s))

-- The name that an identifier stands for: Oracle has plain ones in upper case.
abbrev pub stored : SqlDialect → Text → Text
stored SqlDialect.oracle ident = if is_plain ident then map ascii_upper ident else ident
stored _ ident = ident

abbrev IsReadBack : Text → Text → Type 0
IsReadBack ident rest =
    read_name SqlDialect.oracle (oracle_smart_quote ident ++ rest)
    ≡ some (stored SqlDialect.oracle ident, rest)
