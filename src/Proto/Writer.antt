-- ===== src/Proto/Writer.antt =====
-- proto/encode.go: `PacketWriter` is the bytes written so far, and each method appends to them.
-- A float is its IEEE bit pattern. `StringBytes` is from proto/packets.go.
use lazygate.Prelude.{ℕ, ◌/◌, ◌%◌, ◌^◌, Bool, [], ◌∷◌, ◌++◌, if◌then◌else◌, length, Bytes}
use lazygate.Proto.VarInt.{encode_var_int}

-- `binary.BigEndian.AppendUint16` and its kin: the highest byte first
abbrev pub big_endian16 : ℕ → Bytes
big_endian16 v = v / 2 ^ 8 % 256 ∷ v % 256 ∷ []

abbrev pub big_endian32 : ℕ → Bytes
big_endian32 v = v / 2 ^ 24 % 256 ∷ v / 2 ^ 16 % 256 ∷ v / 2 ^ 8 % 256 ∷ v % 256 ∷ []

abbrev pub big_endian64 : ℕ → Bytes
big_endian64 v =
    v / 2 ^ 56 % 256
    ∷ v / 2 ^ 48 % 256
    ∷ v / 2 ^ 40 % 256
    ∷ v / 2 ^ 32 % 256
    ∷ v / 2 ^ 24 % 256
    ∷ v / 2 ^ 16 % 256
    ∷ v / 2 ^ 8 % 256
    ∷ v % 256
    ∷ []

-- `int32(len(b))`
abbrev pub len32 : Bytes → ℕ
len32 b = length b % 2 ^ 32

abbrev pub new_packet_writer : Bytes
new_packet_writer = []

abbrev pub write : Bytes → Bytes → Bytes
write w b = w ++ b

abbrev pub write_u8 : Bytes → ℕ → Bytes
write_u8 w b = w ++ b ∷ []

abbrev pub write_bool : Bytes → Bool → Bytes
write_bool w b = if b then w ++ 1 ∷ [] else w ++ 0 ∷ []

abbrev pub write_int16 : Bytes → ℕ → Bytes
write_int16 w v = w ++ big_endian16 v

abbrev pub write_uint16 : Bytes → ℕ → Bytes
write_uint16 w v = w ++ big_endian16 v

abbrev pub write_int32 : Bytes → ℕ → Bytes
write_int32 w v = w ++ big_endian32 v

abbrev pub write_uint32 : Bytes → ℕ → Bytes
write_uint32 w v = w ++ big_endian32 v

abbrev pub write_int64 : Bytes → ℕ → Bytes
write_int64 w v = w ++ big_endian64 v

abbrev pub write_uint64 : Bytes → ℕ → Bytes
write_uint64 w v = w ++ big_endian64 v

abbrev pub write_var_int : Bytes → ℕ → Bytes
write_var_int w v = write w (encode_var_int v)

abbrev pub write_string : Bytes → Bytes → Bytes
write_string w s = write (write_var_int w (len32 s)) s

abbrev pub write_byte_array : Bytes → Bytes → Bytes
write_byte_array w b = write (write_var_int w (len32 b)) b

abbrev pub string_bytes : Bytes → Bytes
string_bytes s = encode_var_int (len32 s) ++ s
