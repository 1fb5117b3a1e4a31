-- ===== src/Proto/Reader/RoundTrip.antt =====
-- proto/packets.go: the methods of `packetReader` on what those of `PacketWriter` write.
use lazygate.Prelude.{
  ℕ, ◌%◌, ◌^◌, ◌≤◌, ◌<◌, Bool, true, false, [], ◌∷◌, ◌++◌, length, ◌≡◌, refl, arith, Bytes, some,
  take-append, drop-append, length-append, append_assoc,
}
use lazygate.Proto.VarInt.RoundTrip.{var_int-encode_var_int}
use lazygate.Proto.Writer.{big_endian16, big_endian64, write_bool, string_bytes}
use lazygate.Proto.Reader.{
  read_fixed, read_bool, read_u8, read_u16, read_u64, read_counted, read_str,
}

pub read_u8-byte : (b : ℕ) (rest : Bytes) → read_u8 (b ∷ rest) ≡ some (b, rest)
unfolding read_fixed
read_u8-byte b rest = ground arith

pub read_u16-big_endian16 :
    (v : ℕ) (rest : Bytes) → v < 2 ^ 16 → read_u16 (big_endian16 v ++ rest) ≡ some (v, rest)
unfolding read_fixed
read_u16-big_endian16 v rest h = ground arith

pub read_u64-big_endian64 :
    (v : ℕ) (rest : Bytes) → v < 2 ^ 64 → read_u64 (big_endian64 v ++ rest) ≡ some (v, rest)
unfolding read_fixed
read_u64-big_endian64 v rest h = ground arith

pub read_bool-write_bool :
    (b : Bool) (rest : Bytes) → read_bool (write_bool [] b ++ rest) ≡ some (b, rest)
unfolding read_bool
read_bool-write_bool true rest = ground arith
read_bool-write_bool false rest = ground arith

pub read_counted-append :
    (max_len : ℕ) (s rest : Bytes)
    → length s ≤ max_len
    → length s < 2 ^ 31
    → read_counted max_len (length s) (s ++ rest) ≡ some (s, rest)
unfolding read_counted
read_counted-append max_len s rest h k = ground (
  arith,
  length-append s rest,
  take-append s rest (length s) refl,
  drop-append s rest (length s) refl,
)

-- A string within the reader's limit is read back, and what follows it is left unread.
pub read_str-string_bytes :
    (max_len : ℕ) (s rest : Bytes)
    → length s ≤ max_len
    → length s < 2 ^ 31
    → read_str max_len (string_bytes s ++ rest) ≡ some (s, rest)
unfolding read_str
read_str-string_bytes max_len s rest h k =
    let n : length s % 2 ^ 32 ≡ length s = omega arith in
    rw (n, append_assoc, var_int-encode_var_int (length s) (s ++ rest) (omega arith))
      (read_counted-append max_len s rest h k)
