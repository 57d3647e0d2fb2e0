-- ===== src/Thrift/Tests.antt =====
-- A stand-in for the `bytes` crate that keeps each integer in one or two cells, and the theorems at it.
use potato_etl.Base.{
  ℕ, zero, suc, ◌≡◌, refl, true, Option, none, some, [], ◌∷◌, ◌++◌, Text, codes, ok, arith,
}
use potato_etl.Base.Int.{ℤ, pos, negsuc}
use potato_etl.Thrift.{
  BytesCrate, t_stop, write_message_begin, write_field_begin, write_field_stop, read_message_begin,
  read_field_begin,
}
use potato_etl.Thrift.RoundTrip.{
  read_message_begin-write_message_begin, read_field_begin-write_field_begin,
}

abbrev put_cell : ℕ → Text
put_cell v = v ∷ []

abbrev get_cell : Text → Option (ℕ × Text)
get_cell [] = none
get_cell (v ∷ rest) = some (v, rest)

abbrev put_signed : ℤ → Text
put_signed (pos n) = 0 ∷ n ∷ []
put_signed (negsuc n) = 1 ∷ n ∷ []

abbrev get_signed : Text → Option (ℤ × Text)
get_signed (zero ∷ n ∷ rest) = some (pos n, rest)
get_signed (suc sign ∷ n ∷ rest) = some (negsuc n, rest)
get_signed _ = none

signed_lem : (v : ℤ) (rest : Text) → get_signed (put_signed v ++ rest) ≡ some (v, rest)
signed_lem (pos n) rest = refl
signed_lem (negsuc n) rest = refl

abbrev cells : BytesCrate
cells = record {
  put_u8 = put_cell;
  get_u8 = get_cell;
  put_u32 = put_cell;
  get_u32 = get_cell;
  put_i16 = put_signed;
  get_i16 = get_signed;
  put_i32 = put_signed;
  get_i32 = get_signed;
  put_i64 = put_signed;
  get_i64 = get_signed;
  u8_put = λ v rest h. refl;
  u32_put = λ v rest h. refl;
  i16_put = λ v rest h. signed_lem v rest;
  i32_put = λ v rest h. signed_lem v rest;
  i64_put = λ v rest h. signed_lem v rest;
}

read_message_begin-write_message_begin_example :
    read_message_begin cells
      (λ s. true)
      (write_message_begin cells (codes "OpenSession") 1 (negsuc 6) ++ (9 ∷ []))
    ≡ ok ((codes "OpenSession", 1, negsuc 6), 9 ∷ [])
read_message_begin-write_message_begin_example =
    read_message_begin-write_message_begin cells (λ s. true) (codes "OpenSession") 1 (negsuc 6)
      (9 ∷ []) (omega arith) refl (omega arith) (omega arith)

read_field_begin-write_field_begin_example :
    (read_field_begin cells (write_field_begin cells 8 (pos 3) ++ (9 ∷ []))
      ≡ ok ((8, pos 3), 9 ∷ []))
    × (read_field_begin cells (write_field_stop cells ++ (9 ∷ [])) ≡ ok ((t_stop, pos 0), 9 ∷ []))
read_field_begin-write_field_begin_example =
    read_field_begin-write_field_begin cells 8 (pos 3) (9 ∷ []) (omega arith) (omega arith)
      (omega arith)
