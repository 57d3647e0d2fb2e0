-- ===== src/Transform/Objects/Tests.antt =====
-- JSON objects and URL templates of a small batch, and the theorem at a path.
use potato_etl.Base.{◌≡◌, refl, ℕ, true, none, some, Option, [], ◌∷◌, Text, codes, ok, err}
use potato_etl.Base.Int.{ℤ, pos}
use potato_etl.Arrow.{Scalar, DataType, RecordBatch, Json, Entries}
use potato_etl.Arrow.Sample.{kernels, batch_of}
use potato_etl.Expr.JsonPath.{json_path_get, text_of}
use potato_etl.Transform.Aggregate.{new_field}
use potato_etl.Transform.Objects.{ObjectError, set_nested_value, resolve_url_template}
use potato_etl.Transform.Objects.Paths.{json_path_get-set_nested_value}

abbrev print_int : ℤ → Text
print_int i = codes "7"

abbrev print_float : ℕ → Option Text
print_float x = none

abbrev users : RecordBatch ℕ
users = batch_of (
    (
      new_field (codes "id") DataType.int64 true,
      record { data_type = DataType.int64; cells = some (Scalar.int (pos 7)) ∷ [] },
    )
    ∷ (
      new_field (codes "name") DataType.large_utf8 true,
      record { data_type = DataType.large_utf8; cells = some (Scalar.text (codes "ann")) ∷ [] },
    )
    ∷ [])

url :
    resolve_url_template kernels print_int print_float users 0 (codes "/users/{id}/{page}?x={")
    ≡ ok (codes "/users/7/{page}?x={")
unfolding resolve_url_template
url = refl

-- A valid value of a large text column panics.
large_text :
    resolve_url_template kernels print_int print_float users 0 (codes "{name}")
    ≡ err ObjectError.downcast_failed
unfolding resolve_url_template
large_text = refl

abbrev object : Entries
object = Entries.entry (codes "address") (Json.string (codes "none")) Entries.no_entries

json_path_get-set_nested_value_example :
    json_path_get
      (λ v. [])
      (Json.object (set_nested_value object (codes "address.city") (Json.string (codes "Oslo"))))
      (codes "address.city")
    ≡ text_of (λ v. []) (Json.string (codes "Oslo"))
json_path_get-set_nested_value_example =
    json_path_get-set_nested_value (λ v. []) object (codes "address.city")
      (Json.string (codes "Oslo")) refl
