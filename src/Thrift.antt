-- ===== src/Thrift.antt =====
-- The primitives of the Thrift binary protocol, without `skip`
-- (drivers/databricks/src/thrift/protocol.rs). A buffer is what is left of its bytes. The integers of
-- the `bytes` crate are an interface: reading one gives back what was written, and a buffer that is
-- too short is a panic, `none`.
use potato_etl.Base.{
  ℕ, zero, suc, ◌+◌, ◌-◌, ◌*◌, ◌/◌, ◌%◌, ◌^◌, ◌<◌, ◌≡◌, Bool, true, false, Option, none, some, List,
  [], ◌∷◌, ◌++◌, Text, length, take, drop, leb, ◌==◌, if◌then◌else◌, Result, ok, err, then_ok,
  ok_or,
}
use potato_etl.Base.Int.{ℤ, pos, negsuc, as_i32}
mod RoundTrip
mod Tests

-- A signed integer of `suc w` bits.
abbrev pub Fits : ℕ → ℤ → Type 0
Fits w (pos n) = n < 2 ^ w
Fits w (negsuc n) = n < 2 ^ w

pub record BytesCrate : Type 0 where
  pub put_u8 : ℕ → Text
  pub get_u8 : Text → Option (ℕ × Text)
  pub put_u32 : ℕ → Text
  pub get_u32 : Text → Option (ℕ × Text)
  pub put_i16 : ℤ → Text
  pub get_i16 : Text → Option (ℤ × Text)
  pub put_i32 : ℤ → Text
  pub get_i32 : Text → Option (ℤ × Text)
  pub put_i64 : ℤ → Text
  pub get_i64 : Text → Option (ℤ × Text)
  pub u8_put : (v : ℕ) (rest : Text) → v < 2 ^ 8 → get_u8 (put_u8 v ++ rest) ≡ some (v, rest)
  pub u32_put : (v : ℕ) (rest : Text) → v < 2 ^ 32 → get_u32 (put_u32 v ++ rest) ≡ some (v, rest)
  pub i16_put : (v : ℤ) (rest : Text) → Fits 15 v → get_i16 (put_i16 v ++ rest) ≡ some (v, rest)
  pub i32_put : (v : ℤ) (rest : Text) → Fits 31 v → get_i32 (put_i32 v ++ rest) ≡ some (v, rest)
  pub i64_put : (v : ℤ) (rest : Text) → Fits 63 v → get_i64 (put_i64 v ++ rest) ≡ some (v, rest)

pub data ThriftError : Type 0 where
  buffer_too_short old_framing not_utf8 : ThriftError

abbrev pub Reader : Type 0 → Type 0
Reader A = Text → Result ThriftError (A × Text)

abbrev pub t_stop : ℕ
t_stop = 0

-- `v as usize` of an `i32` on a 64-bit machine
unfoldable pub as_usize : ℤ → ℕ
as_usize (pos n) = n
as_usize (negsuc n) = 2 ^ 64 - 1 - n

-- `copy_to_bytes`
unfoldable pub copy_to_bytes : ℕ → Reader Text
copy_to_bytes n buf =
    if leb n (length buf) then ok (take n buf, drop n buf) else err buffer_too_short

module _ (b : BytesCrate) where
  unfoldable pub write_string : Text → Text
  unfolding as_i32
  write_string s = b.put_i32 (as_i32 (length s)) ++ s

  -- `0x8001_0000 | msg_type`, which is the sum for a message type of 8 bits.
  unfoldable pub write_message_begin : Text → ℕ → ℤ → Text
  unfolding write_string
  write_message_begin name msg_type seq_id =
      b.put_u32 (0x80010000 + msg_type) ++ (write_string name ++ b.put_i32 seq_id)

  unfoldable pub write_field_begin : ℕ → ℤ → Text
  write_field_begin field_type field_id = b.put_u8 field_type ++ b.put_i16 field_id

  unfoldable pub write_map_begin : ℕ → ℕ → ℤ → Text
  write_map_begin key_type val_type size =
      b.put_u8 key_type ++ (b.put_u8 val_type ++ b.put_i32 size)

  unfoldable pub write_field_stop : Text
  write_field_stop = b.put_u8 t_stop

  unfoldable pub write_bool : Bool → Text
  write_bool v = b.put_u8 (if v then 1 else 0)

  unfoldable pub read_string_bytes : Reader Text
  unfolding as_usize copy_to_bytes
  read_string_bytes buf =
      then_ok (ok_or buffer_too_short (b.get_i32 buf))
        λ (len, rest). copy_to_bytes (as_usize len) rest

  unfoldable pub read_string : (Text → Bool) → Reader Text
  unfolding read_string_bytes
  read_string is_utf8 buf =
      then_ok (read_string_bytes buf) λ (s, rest). if is_utf8 s then ok (s, rest) else err not_utf8

  -- `first & 0x8000_0000 == 0` is the old framing; the lowest byte is the message type.
  unfoldable pub read_message_begin : (Text → Bool) → Reader (Text × ℕ × ℤ)
  unfolding read_string
  read_message_begin is_utf8 buf =
      then_ok (ok_or buffer_too_short (b.get_u32 buf)) λ (first, after).
        let message = then_ok (read_string is_utf8 after) λ (name, rest).
          then_ok (ok_or buffer_too_short (b.get_i32 rest))
            λ (seq_id, left). ok ((name, first % 2 ^ 8, seq_id), left) in
        if first / 2 ^ 31 % 2 == 0 then err old_framing else message

  unfoldable pub read_field_begin : Reader (ℕ × ℤ)
  read_field_begin buf = then_ok (ok_or buffer_too_short (b.get_u8 buf)) λ (ft, rest).
      let field =
        then_ok (ok_or buffer_too_short (b.get_i16 rest)) λ (fid, left). ok ((ft, fid), left) in
      if ft == t_stop then ok ((t_stop, pos 0), rest) else field

  unfoldable pub read_bool : Reader Bool
  read_bool buf =
      then_ok (ok_or buffer_too_short (b.get_u8 buf))
        λ (v, rest). ok (if v == 0 then false else true, rest)
