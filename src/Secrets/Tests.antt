-- ===== src/Secrets/Tests.antt =====
-- Secret references of the unit tests of refs.rs, and the theorems at concrete references.
use potato_etl.Base.{◌≡◌, refl, true, none, some, codes, Text, arith}
use potato_etl.Unicode.{ascii_tables}
use potato_etl.Secrets.{
  SecretRef, hashicorp_vault, azure_key_vault, display, is_secret_ref, parse_secret_ref,
}
use potato_etl.Secrets.RoundTrip.{
  IsValid, parse_secret_ref-display, parse_secret_ref-display-parse, parse_secret_ref_sound,
}

abbrev vault_password : SecretRef
vault_password = record {
  provider = hashicorp_vault;
  path = codes "prod/pg";
  field = some (codes "password");
}

abbrev alias_text : Text
alias_text = codes "secret::AKV/my-vault/pg#x#host"

abbrev azure_host : SecretRef
azure_host = record {
  provider = azure_key_vault;
  path = codes "my-vault/pg#x";
  field = some (codes "host");
}

parses_alias : parse_secret_ref ascii_tables alias_text ≡ some azure_host
unfolding parse_secret_ref
parses_alias = refl

rejects_empty_field : parse_secret_ref ascii_tables (codes "secret::vault/prod/pg#") ≡ none
unfolding parse_secret_ref
rejects_empty_field = refl

rejects_unknown_provider : parse_secret_ref ascii_tables (codes "secret::aws/prod/pg") ≡ none
unfolding parse_secret_ref
rejects_unknown_provider = refl

vault_password-IsValid : IsValid vault_password
vault_password-IsValid = record { has_path = cc; field_valid = (cc, omega arith) }

parse_secret_ref-display_example :
    parse_secret_ref ascii_tables (display vault_password) ≡ some vault_password
parse_secret_ref-display_example =
    parse_secret_ref-display ascii_tables vault_password vault_password-IsValid

parse_secret_ref-display-parse_example :
    parse_secret_ref ascii_tables (display azure_host) ≡ some azure_host
parse_secret_ref-display-parse_example =
    parse_secret_ref-display-parse ascii_tables alias_text azure_host parses_alias

parse_secret_ref_sound_example : (is_secret_ref alias_text ≡ true) × IsValid azure_host
parse_secret_ref_sound_example =
    parse_secret_ref_sound ascii_tables alias_text azure_host parses_alias
