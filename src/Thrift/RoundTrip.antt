-- ===== src/Thrift/RoundTrip.antt =====
-- What the Thrift writer writes, the reader reads.
use potato_etl.Base.{
  ℕ, ◌+◌, ◌/◌, ◌%◌, ◌^◌, ◌<◌, ◌≢◌, ◌≡◌, refl, Bool, true, false, ◌++◌, append_assoc, take-append,
  drop-append, Text, length, length-append, leb, ◌==◌, ok, arith,
}
use potato_etl.Base.Int.{ℤ, pos, as_i32}
use potato_etl.Thrift.{
  Fits, BytesCrate, t_stop, as_usize, copy_to_bytes, write_string, write_message_begin,
  write_field_begin, write_field_stop, read_string_bytes, read_string, read_message_begin,
  read_field_begin,
}

as_i32_lem : (n : ℕ) → n < 2 ^ 31 → as_i32 n ≡ pos n
unfolding as_i32
as_i32_lem n h = ground arith

copy_to_bytes_lem : (s rest : Text) → copy_to_bytes (length s) (s ++ rest) ≡ ok (s, rest)
unfolding copy_to_bytes
copy_to_bytes_lem s rest =
    let l : leb (length s) (length (s ++ rest)) ≡ true = ground (arith, length-append s rest) in
    rw (l, take-append s rest, drop-append s rest) refl

module _ (b : BytesCrate) (is_utf8 : Text → Bool) where
  read_string-write_string :
      (s rest : Text)
      → length s < 2 ^ 31
      → is_utf8 s ≡ true
      → read_string b is_utf8 (write_string b s ++ rest) ≡ ok (s, rest)
  unfolding read_string read_string_bytes write_string as_usize
  read_string-write_string s rest h v =
      rw
        (
          as_i32_lem (length s) h,
          append_assoc (b.put_i32 (pos (length s))) s rest,
          b.i32_put (pos (length s)) (s ++ rest) h,
          copy_to_bytes_lem s rest,
          v,
        )
        refl

  -- The start of a message is read back with its name, its type and its sequence number, if the name
  -- is valid UTF-8 of less than 2 ^ 31 bytes, and what follows it is left in the buffer.
  pub read_message_begin-write_message_begin :
      (name : Text) (msg_type : ℕ) (seq_id : ℤ) (rest : Text)
      → length name < 2 ^ 31
      → is_utf8 name ≡ true
      → msg_type < 2 ^ 8
      → Fits 31 seq_id
      → read_message_begin b is_utf8 (write_message_begin b name msg_type seq_id ++ rest)
        ≡ ok ((name, msg_type, seq_id), rest)
  unfolding read_message_begin write_message_begin
  read_message_begin-write_message_begin name msg_type seq_id rest h v t f =
      let n = write_string b name in
      let s = b.put_i32 seq_id in
      let header = b.put_u32 (0x80010000 + msg_type) in
      let assoc = append_assoc header (n ++ s) rest in
      let inner = append_assoc n s rest in
      let new : ((0x80010000 + msg_type) / 2 ^ 31 % 2 == 0) ≡ false = ground arith in
      let type : (0x80010000 + msg_type) % 2 ^ 8 ≡ msg_type = omega arith in
      rw
        (
          assoc,
          inner,
          b.u32_put (0x80010000 + msg_type) (n ++ (s ++ rest)) (omega arith),
          new,
          read_string-write_string name (s ++ rest) h v,
          b.i32_put seq_id rest f,
          type,
        )
        refl

module _ (b : BytesCrate) where
  -- The start of a field is read back with its type and its id; the mark that ends a struct is read
  -- as the stop type, with the id 0 and nothing more read.
  pub read_field_begin-write_field_begin :
      (field_type : ℕ) (field_id : ℤ) (rest : Text)
      → field_type ≢ t_stop
      → field_type < 2 ^ 8
      → Fits 15 field_id
      → (read_field_begin b (write_field_begin b field_type field_id ++ rest)
          ≡ ok ((field_type, field_id), rest))
        × (read_field_begin b (write_field_stop b ++ rest) ≡ ok ((t_stop, pos 0), rest))
  unfolding read_field_begin write_field_begin write_field_stop
  read_field_begin-write_field_begin field_type field_id rest n t f =
      let i = b.put_i16 field_id in
      let more : (field_type == t_stop) ≡ false = ground arith in
      (
        rw
            (
              append_assoc (b.put_u8 field_type) i rest,
              b.u8_put field_type (i ++ rest) t,
              more,
              b.i16_put field_id rest f,
            )
            refl,
        rw (b.u8_put 0 rest (omega arith)) refl,
      )
