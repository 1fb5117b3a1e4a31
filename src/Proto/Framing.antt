-- ===== src/Proto/Framing.antt =====
-- proto/packet.go and proto/zlib.go: a packet is an id and data, framed by its length and, once a
-- compression threshold is set, by the length before compression.
pub mod RoundTrip
pub mod Examples
use lazygate.Prelude.{
  ℕ, ◌+◌, ◌<◌, ◌≤◌, ◌%◌, ◌^◌, Bool, not, ◌||◌, [], ◌∷◌, ◌++◌, ltb, leb, ◌==◌, if◌then◌else◌, length,
  take, drop, Bytes, ◌≡◌, Option, none, some, ◌>>=◌, ◌>>◌, guard,
}
use lazygate.Proto.VarInt.{read_var_int, encode_var_int, is_negative, signed_lt}
use lazygate.Proto.Client.{Client, compressed, is_compressed}
use lazygate.Proto.Writer.{len32}

-- compress/zlib as the code uses it. `compress` is a `zlib.Writer` over a buffer, `inflate limit` is
-- `io.ReadAll(io.LimitReader(r, limit))` on a `zlib.Reader`, with `none` for an error.
pub record Zlib : Type 0 where
  pub compress : Bytes → Option Bytes
  pub inflate : ℕ → Bytes → Option Bytes
  pub inflate-compress :
      (limit : ℕ) (p c : Bytes) → compress p ≡ some c → length p ≤ limit → inflate limit c ≡ some p

pub record RawPacket : Type 0 where
  pub id : ℕ  -- byte
  pub body : Bytes

abbrev pub new_raw_packet : ℕ → Bytes → RawPacket
new_raw_packet id body = record { id = id; body = body }

unfoldable pub read_packet_id_data : Bytes → Option RawPacket
read_packet_id_data buf = do
  (read, packet_id) ← read_var_int buf
  some (new_raw_packet (packet_id % 256) (drop read buf))

unfoldable pub encode_uncompressed : RawPacket → Option Bytes
encode_uncompressed p = some (encode_var_int p.id ++ p.body)

module _ (zlib : Zlib) where
  open zlib use {compress, inflate}

  abbrev pub zlib_compress : Bytes → Option Bytes
  zlib_compress payload = compress payload

  -- `expected` is an int32; a negative one lets no byte through and equals no length.
  unfoldable pub zlib_decompress : Bytes → ℕ → Option Bytes
  zlib_decompress buf expected = do
    out ← inflate (if is_negative expected then 0 else expected + 1) buf
    guard (length out == expected)
    some out

  unfoldable pub decode_without_len : Client → Bytes → Option RawPacket
  decode_without_len client buf =
      if not (is_compressed client) then read_packet_id_data buf else (do
        (read, data_len) ← read_var_int buf
        if data_len == 0
            then read_packet_id_data (drop read buf)
            else (do out ← zlib_decompress (drop read buf) data_len; read_packet_id_data out))

  unfoldable pub decode_with_len : Client → Bytes → Option RawPacket
  decode_with_len client buf = do
    (read, pkt_len) ← read_var_int buf
    guard (not (is_negative pkt_len || ltb (length (drop read buf)) pkt_len))
    decode_without_len client (take pkt_len (drop read buf))

  unfoldable pub encode_compressed : RawPacket → ℕ → Option Bytes
  encode_compressed p threshold =
      let payload = encode_var_int p.id ++ p.body in
      if signed_lt threshold (len32 payload)
      then (do c ← zlib_compress payload; some (encode_var_int (len32 payload) ++ c))
      else some (encode_var_int 0 ++ payload)

  unfoldable pub encode_without_len : RawPacket → Client → Option Bytes
  unfolding encode_uncompressed
  encode_without_len p client =
      if not (is_negative (compressed client))
      then encode_compressed p (compressed client)
      else encode_uncompressed p

  unfoldable pub encode_with_len : RawPacket → Client → Option Bytes
  encode_with_len p client = do
    payload ← encode_without_len p client
    some (encode_var_int (len32 payload) ++ payload)
