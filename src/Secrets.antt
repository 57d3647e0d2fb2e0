-- ===== src/Secrets.antt =====
-- common/src/secrets/refs.rs: secret references `secret::<provider>/<path>[#field]`.
pub mod RoundTrip
mod Tests
use potato_etl.Base.{
  is_empty, ◌>>=◌, ℕ, zero, suc, ◌+◌, Bool, true, false, ◌||◌, Option, none, some, List, [], ◌∷◌,
  ◌++◌, Text, codes, text_eq, ◌==◌, if◌then◌else◌, take, drop,
}
use potato_etl.Unicode.{Unicode}

pub data SecretProviderKind : Type 0 where
  hashicorp_vault azure_key_vault google_secret_manager : SecretProviderKind

pub record SecretRef : Type 0 where
  pub provider : SecretProviderKind
  pub path : Text
  pub field : Option Text

-- `impl Display for SecretProviderKind`
unfoldable pub display_kind : SecretProviderKind → Text
display_kind hashicorp_vault = codes "vault"
display_kind azure_key_vault = codes "azure"
display_kind google_secret_manager = codes "gcp"

abbrev pub secret_prefix : Text
secret_prefix = codes "secret::"

-- The `#field` part of `impl Display for SecretRef`.
unfoldable pub display_field : Option Text → Text
display_field none = []
display_field (some f) = b'#' ∷ f

-- `impl Display for SecretRef`
unfoldable pub display : SecretRef → Text
unfolding display_kind display_field
display r = secret_prefix ++ (display_kind r.provider ++ b'/' ∷ (r.path ++ display_field r.field))

-- `str::strip_prefix`
unfoldable pub strip_prefix : Text → Text → Option Text
strip_prefix [] s = some s
strip_prefix (p ∷ ps) [] = none
strip_prefix (p ∷ ps) (c ∷ s) = if c == p then strip_prefix ps s else none

-- `str::find` and `str::rfind` of a character
unfoldable pub find : ℕ → Text → Option ℕ
find c [] = none
find c (x ∷ s) = if x == c then some 0 else elim (find c s) [ none ↦ none | some i ↦ some (suc i) ]

unfoldable pub rfind : ℕ → Text → Option ℕ
rfind c [] = none
rfind c (x ∷ s) = elim (rfind c s) [
  | none ↦ if x == c then some 0 else none
  | some i ↦ some (suc i)
]

-- `s.starts_with(SECRET_PREFIX)`
unfoldable pub is_secret_ref : Text → Bool
unfolding strip_prefix
is_secret_ref s = elim (strip_prefix secret_prefix s) [ none ↦ false | some _ ↦ true ]

-- The match on the lower-cased provider name, with its aliases.
unfoldable pub provider_of_name : Text → Option SecretProviderKind
unfolding text_eq
provider_of_name p =
    if text_eq p (codes "vault") || text_eq p (codes "hashicorp")
    then some hashicorp_vault
    else if text_eq p (codes "azure") || text_eq p (codes "akv")
    then some azure_key_vault
    else if text_eq p (codes "gcp") || (text_eq p (codes "gsm") || text_eq p (codes "google"))
    then some google_secret_manager
    else none

-- The split of path and field at the last `#`, given its position.
unfoldable pub split_field_at : Text → Option ℕ → Option (Text × Option Text)
split_field_at s none = some (s, none)
split_field_at s (some hash_pos) =
    let p = take hash_pos s in
    let f = drop (suc hash_pos) s in if is_empty p || is_empty f then none else some (p, some f)

unfoldable pub split_field : Text → Option (Text × Option Text)
unfolding rfind split_field_at
split_field s = split_field_at s (rfind b'#' s)

module _ (u : Unicode) where
  unfoldable pub parse_secret_ref : Text → Option SecretRef
  unfolding strip_prefix find provider_of_name split_field
  parse_secret_ref s = do
    rest ← strip_prefix secret_prefix s
    slash ← find b'/' rest
    let provider_str = take slash rest
    let path_and_field = drop (suc slash) rest
    if is_empty path_and_field then none else do
      provider ← provider_of_name (u.to_lowercase provider_str)
      (path, field) ← split_field path_and_field
      some (record { provider = provider; path = path; field = field })
