-- ===== src/Sql/Tests.antt =====
-- Quoted identifiers, and the theorem at a name that contains the closing character.
use potato_etl.Base.{◌≡◌, refl, some, none, ◌++◌, Text, codes}
use potato_etl.Sql.{SqlDialect, backtick, from_conn_str, quote, quote_char, oracle_is_reserved}
use potato_etl.Sql.Names.{read_name}
use potato_etl.Sql.Quoting.{read_identifier, open_char, close_char, read_identifier-backtick}

abbrev odd_name : Text
odd_name = codes "a]b"

maria : from_conn_str (codes "mariadb://host/db") ≡ SqlDialect.mysql
unfolding from_conn_str
maria = refl

bracketed : quote SqlDialect.mssql odd_name ≡ codes "[a]]b]"
unfolding quote
bracketed = refl

plain_oracle : quote SqlDialect.oracle (codes "emp_id#1") ≡ codes "emp_id#1"
unfolding quote
plain_oracle = refl

reserved_oracle : quote SqlDialect.oracle (codes "level") ≡ codes "\"level\""
unfolding quote
reserved_oracle = refl

digit_oracle : quote SqlDialect.oracle (codes "1st") ≡ codes "\"1st\""
unfolding quote
digit_oracle = refl

unclosed : read_identifier SqlDialect.mysql (codes "`a``b") ≡ none
unfolding read_identifier open_char close_char
unclosed = refl

quote_chars : quote_char SqlDialect.mysql ≡ close_char SqlDialect.mysql
unfolding quote_char close_char
quote_chars = refl

read_identifier-backtick_example :
    read_identifier SqlDialect.databricks (backtick (codes "a`b") ++ codes ".t")
    ≡ some (codes "a`b", codes ".t")
unfolding open_char
read_identifier-backtick_example =
    read_identifier-backtick SqlDialect.databricks (codes "a`b") (codes ".t") refl refl

reserved_name : read_name SqlDialect.oracle (codes "Level = 1") ≡ none
unfolding read_name open_char oracle_is_reserved
reserved_name = refl
