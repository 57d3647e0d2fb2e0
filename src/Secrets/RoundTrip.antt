-- ===== src/Secrets/RoundTrip.antt =====
-- Parsing a displayed reference, and displaying a parsed one.
use potato_etl.Base.{
  is_empty, ℕ, suc, ◌≡◌, ◌≢◌, refl, true, false, Option, none, some, [], ◌∷◌, ◌++◌, Text, codes,
  take, drop, All, length, take-append, arith, Bool-cases, Option-cases, append-nil, >>=-eq-some,
  inl, inr,
}
use potato_etl.Unicode.{Unicode}
use potato_etl.Secrets.{
  SecretProviderKind, hashicorp_vault, azure_key_vault, google_secret_manager, SecretRef,
  display_kind, secret_prefix, display_field, display, strip_prefix, find, rfind, is_secret_ref,
  provider_of_name, split_field_at, split_field, parse_secret_ref,
}

abbrev Lacks : ℕ → Text → Type 0
Lacks c = All (λ x. x ≢ c)

-- A reference that `display` writes unambiguously: a path, and a field that is not empty and holds
-- no `#`; without a field the path holds no `#`.
abbrev pub FieldIsValid : Text → Option Text → Type 0
FieldIsValid path none = Lacks b'#' path
FieldIsValid path (some f) = (f ≢ []) × Lacks b'#' f

pub record IsValid (r : SecretRef) : Type 0 where
  pub has_path : r.path ≢ []
  pub field_valid : FieldIsValid r.path r.field

strip_prefix-append : (p s : Text) → strip_prefix p (p ++ s) ≡ some s
unfolding strip_prefix
strip_prefix-append [] s = refl
strip_prefix-append (c ∷ p) s = ground (arith, strip_prefix-append p s)

find-append : (c : ℕ) (s t : Text) → Lacks c s → find c (s ++ c ∷ t) ≡ some (length s)
unfolding find
find-append c [] t h = ground arith
find-append c (x ∷ s) t h = ground (arith, find-append c s t h.1)

rfind-eq-none : (c : ℕ) (s : Text) → Lacks c s → rfind c s ≡ none
unfolding rfind
rfind-eq-none c [] h = refl
rfind-eq-none c (x ∷ s) h = ground (arith, rfind-eq-none c s h.1)

Lacks-rfind : (c : ℕ) (s : Text) → rfind c s ≡ none → Lacks c s
unfolding rfind
Lacks-rfind c [] h = tt
Lacks-rfind c (x ∷ s) h = (ground arith, Lacks-rfind c s (ground arith))

rfind-append : (c : ℕ) (s t : Text) → Lacks c t → rfind c (s ++ c ∷ t) ≡ some (length s)
unfolding rfind
rfind-append c [] t h = ground (arith, rfind-eq-none c t h)
rfind-append c (x ∷ s) t h = rw (rfind-append c s t h)

drop-suc_append : (s : Text) (c : ℕ) (t : Text) → drop (suc (length s)) (s ++ c ∷ t) ≡ t
drop-suc_append [] c t = refl
drop-suc_append (x ∷ s) c t = drop-suc_append s c t

is_empty-ne_nil : (s : Text) → s ≢ [] → is_empty s ≡ false
is_empty-ne_nil [] h = absurd (h refl)
is_empty-ne_nil (c ∷ s) h = refl

append-ne_nil : (s t : Text) → s ≢ [] → s ++ t ≢ []
append-ne_nil [] t h = absurd (h refl)
append-ne_nil (c ∷ s) t h = cc

ne_nil_of_is_empty : (s : Text) → is_empty s ≡ false → s ≢ []
ne_nil_of_is_empty [] h = cc
ne_nil_of_is_empty (c ∷ s) h = cc

split_field-display :
    (path : Text) (field : Option Text)
    → path ≢ []
    → FieldIsValid path field
    → split_field (path ++ display_field field) ≡ some (path, field)
unfolding split_field display_field
split_field-display path none p v =
    rw (append-nil path) (rw (rfind-eq-none b'#' path v, split_field_at))
split_field-display path (some f) p v = rw (
  rfind-append b'#' path f v.1,
  split_field_at,
  take-append,
  drop-suc_append path b'#' f,
  is_empty-ne_nil path p,
  is_empty-ne_nil f v.0,
)

Lacks-drop-rfind : (c : ℕ) (s : Text) (i : ℕ) → rfind c s ≡ some i → Lacks c (drop (suc i) s)
unfolding rfind
Lacks-drop-rfind c [] i h = cc
Lacks-drop-rfind c (x ∷ s) i h = elim (Option-cases (rfind c s)) [
  | inl e ↦ let here : i ≡ 0 = ground arith in rw here (Lacks-rfind c s e)
  | inr (j, e) ↦ let there : i ≡ suc j = ground arith in rw there (Lacks-drop-rfind c s j e)
]

split_field_at-IsValid :
    (s : Text) (hash : Option ℕ) {path : Text} {field : Option Text}
    → s ≢ []
    → rfind b'#' s ≡ hash
    → split_field_at s hash ≡ some (path, field)
    → (path ≢ []) × FieldIsValid path field
unfolding split_field_at
split_field_at-IsValid s none {path} {field} n r h =
    let p : path ≡ s = cc in let f : field ≡ none = cc in rw (p, f) (n, Lacks-rfind b'#' s r)
split_field_at-IsValid s (some i) {path} {field} n r h =
    let before : is_empty (take i s) ≡ false = ground arith in
    let after : is_empty (drop (suc i) s) ≡ false = ground arith in
    let p : path ≡ take i s = ground arith in
    let f : field ≡ some (drop (suc i) s) = ground arith in
    rw (p, f)
      (ne_nil_of_is_empty _ before, (ne_nil_of_is_empty _ after, Lacks-drop-rfind b'#' s i r))

split_field-IsValid :
    (s : Text) (r : Text × Option Text)
    → s ≢ []
    → split_field s ≡ some r
    → (r.0 ≢ []) × FieldIsValid r.0 r.1
unfolding split_field
split_field-IsValid s r n h = split_field_at-IsValid s (rfind b'#' s) n refl h

kind-LacksSlash : (k : SecretProviderKind) → Lacks b'/' (display_kind k)
unfolding display_kind
kind-LacksSlash hashicorp_vault = omega arith
kind-LacksSlash _ = omega arith

module _ (u : Unicode) where
  provider-display :
      (k : SecretProviderKind) → provider_of_name (u.to_lowercase (display_kind k)) ≡ some k
  unfolding provider_of_name display_kind
  provider-display hashicorp_vault = rw (u.lowercase_ascii (codes "vault") (omega arith))
  provider-display azure_key_vault = rw (u.lowercase_ascii (codes "azure") (omega arith))
  provider-display google_secret_manager = rw (u.lowercase_ascii (codes "gcp") (omega arith))

  -- A valid reference is parsed back from its text: provider, path and field are recovered.
  pub parse_secret_ref-display :
      (r : SecretRef) → IsValid r → parse_secret_ref u (display r) ≡ some r
  unfolding parse_secret_ref display
  parse_secret_ref-display r v =
      let rest = r.path ++ display_field r.field in
      simp (
        find-append b'/' (display_kind r.provider) rest (kind-LacksSlash r.provider),
        take-append,
        drop-suc_append (display_kind r.provider) b'/' rest,
        is_empty-ne_nil rest (append-ne_nil r.path _ v.has_path),
        provider-display,
        split_field-display r.path r.field v.has_path v.field_valid,
      )

  -- Whatever parses is a valid reference.
  parse_secret_ref-IsValid : (s : Text) {r : SecretRef} → parse_secret_ref u s ≡ some r → IsValid r
  unfolding parse_secret_ref
  parse_secret_ref-IsValid s {r} h =
      let (rest, _, h₁) = >>=-eq-some (strip_prefix secret_prefix s) _ h in
      let (slash, _, h₂) = >>=-eq-some (find b'/' rest) _ h₁ in
      let paf = drop (suc slash) rest in
      elim (Bool-cases (is_empty paf)) [
        | inl e ↦ absurd (ground arith)
        | inr e ↦
            let h₃ = (rw e at h₂) in
            let (k, _, h₄) =
              >>=-eq-some (provider_of_name (u.to_lowercase (take slash rest))) _ h₃ in
            let (parts, split, made) = >>=-eq-some (split_field paf) _ h₄ in
            let v = split_field-IsValid paf parts (ne_nil_of_is_empty paf e) split in
            let p : parts.0 ≡ r.path = ground arith in
            let f : parts.1 ≡ r.field = ground arith in
            record { has_path = rw p at v.0; field_valid = rw (p, f) at v.1 }
      ]

  -- Parsing normalises: what parses is displayed as a text that parses to the same reference.
  pub parse_secret_ref-display-parse :
      (s : Text) (r : SecretRef)
      → parse_secret_ref u s ≡ some r
      → parse_secret_ref u (display r) ≡ some r
  parse_secret_ref-display-parse s r h = parse_secret_ref-display r (parse_secret_ref-IsValid s h)

  -- Only a text with the prefix parses, and only to a valid reference.
  pub parse_secret_ref_sound :
      (s : Text) (r : SecretRef)
      → parse_secret_ref u s ≡ some r
      → (is_secret_ref s ≡ true) × IsValid r
  unfolding parse_secret_ref is_secret_ref
  parse_secret_ref_sound s r h =
      let (rest, e, _) = >>=-eq-some (strip_prefix secret_prefix s) _ h in
      (rw e, parse_secret_ref-IsValid s h)
