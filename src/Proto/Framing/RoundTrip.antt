-- ===== src/Proto/Framing/RoundTrip.antt =====
-- proto/packet.go: `DecodeWithLen` on what `EncodeWithLen` writes.
use native.Mathlib.Nat.{mod-eq_of_lt}
use lazygate.Prelude.{
  ℕ, ◌+◌, ◌<◌, ◌^◌, true, false, ◌++◌, ◌==◌, if◌then◌else◌, length, drop, Bytes, ◌≡◌, refl, ap,
  some, ◌>>=◌, arith, append_assoc, drop-append, take-append, length-append, Bool-cases, inl, inr,
  >>=-eq-some, ◌∙◌,
}
use lazygate.Proto.VarInt.{encode_var_int, signed_lt, IsInt32}
use lazygate.Proto.VarInt.Agree.{read_var_int-encode_var_int}
use lazygate.Proto.VarInt.Bounds.{length-encode_var_int}
use lazygate.Proto.Client.{Client, is_compressed}
use lazygate.Proto.Writer.{len32}
use lazygate.Proto.Framing.{
  Zlib, RawPacket, read_packet_id_data, zlib_decompress, decode_without_len, decode_with_len,
  encode_compressed, encode_without_len, encode_with_len,
}

-- What `encode_var_int` wrote is cut off again.
pub drop-encode_var_int :
    (v : ℕ) (rest : Bytes) → drop (length (encode_var_int v)) (encode_var_int v ++ rest) ≡ rest
drop-encode_var_int v rest = drop-append (encode_var_int v) rest _ refl

-- A packet that fits an int32 length with room for its id.
pub record IsPacket (p : RawPacket) : Type 0 where
  pub id_byte : p.id < 256
  pub body_len : length p.body + 5 < 2 ^ 31

-- The packet id and the data, before compression.
abbrev pub payload_of : RawPacket → Bytes
payload_of p = encode_var_int p.id ++ p.body

module _ (p : RawPacket) (k : IsPacket p) where
  pub payload_len : (0 < length (payload_of p)) × (length (payload_of p) < 2 ^ 31)
  payload_len = omega (
    arith,
    length-append (encode_var_int p.id) p.body,
    length-encode_var_int p.id (omega (arith, k.id_byte)),
    k.body_len,
  )

  pub read_packet_id_data-payload : read_packet_id_data (payload_of p) ≡ some p
  unfolding read_packet_id_data
  read_packet_id_data-payload = rw (
    read_var_int-encode_var_int p.id p.body (omega (arith, k.id_byte)),
    drop-encode_var_int p.id p.body,
    mod-eq_of_lt k.id_byte,
  )

module _ (zlib : Zlib) where
  -- The whole payload comes back when the announced length is its own.
  zlib_decompress-compress :
      (payload c : Bytes)
      → length payload < 2 ^ 31
      → zlib.compress payload ≡ some c
      → zlib_decompress zlib c (length payload) ≡ some payload
  unfolding zlib_decompress
  zlib_decompress-compress payload c n e =
      ground (arith, zlib.inflate-compress (length payload + 1) payload c e (omega arith))

  -- A compressed frame is read by its header.
  decode_without_len_header :
      (client : Client) (n : ℕ) (rest : Bytes)
      → is_compressed client ≡ true
      → IsInt32 n
      → decode_without_len zlib client (encode_var_int n ++ rest) ≡ (
          if n == 0
          then read_packet_id_data rest
          else (zlib_decompress zlib rest n >>= λ out. read_packet_id_data out))
  unfolding decode_without_len
  decode_without_len_header client n rest on i =
      rw (on, read_var_int-encode_var_int n rest i, drop-encode_var_int n rest)

  -- A whole frame at the front of the buffer is cut off, and its payload is decoded.
  pub decode_with_len_frame :
      (client : Client) (payload rest : Bytes)
      → length payload < 2 ^ 31
      → decode_with_len zlib client (encode_var_int (len32 payload) ++ (payload ++ rest))
        ≡ decode_without_len zlib client payload
  unfolding decode_with_len
  decode_with_len_frame client payload rest small =
      let n : len32 payload ≡ length payload = omega arith in
      rw
        (
          n,
          read_var_int-encode_var_int (length payload) (payload ++ rest) (omega arith),
          drop-encode_var_int (length payload) (payload ++ rest),
          take-append payload rest (length payload) refl,
        )
        (ground (arith, length-append payload rest))

module _ (zlib : Zlib) (p : RawPacket) (k : IsPacket p) where
  decode_without_len-encode_compressed :
      (client : Client) (threshold : ℕ) {frame : Bytes}
      → is_compressed client ≡ true
      → encode_compressed zlib p threshold ≡ some frame
      → decode_without_len zlib client frame ≡ some p
  unfolding encode_compressed
  decode_without_len-encode_compressed client threshold {frame} on h =
      let n : len32 (payload_of p) ≡ length (payload_of p) = omega (arith, payload_len p k) in
      elim (Bool-cases (signed_lt threshold (len32 (payload_of p)))) [
        | inl deflate ↦
            let (c, e, f) = >>=-eq-some (zlib.compress (payload_of p)) _ (rw deflate at h) in
            let e' : zlib_decompress zlib c (length (payload_of p)) ≡ some (payload_of p) =
              zlib_decompress-compress zlib (payload_of p) c (payload_len p k).1 e in
            let header =
              decode_without_len_header zlib client (length (payload_of p)) c on
                (omega (arith, payload_len p k)) in
            ground (arith, n, f, header, e', read_packet_id_data-payload p k, (payload_len p k).0)
        | inr keep ↦
            let header = decode_without_len_header zlib client 0 (payload_of p) on (omega arith) in
            ground (arith, h, keep, header, read_packet_id_data-payload p k)
      ]

  decode_without_len_plain :
      (client : Client)
      → is_compressed client ≡ false
      → decode_without_len zlib client (payload_of p) ≡ some p
  unfolding decode_without_len
  decode_without_len_plain client off = rw off (read_packet_id_data-payload p k)

  decode_without_len-encode_without_len :
      (client : Client) {frame : Bytes}
      → encode_without_len zlib p client ≡ some frame
      → decode_without_len zlib client frame ≡ some p
  unfolding encode_without_len
  decode_without_len-encode_without_len client {frame} h =
      elim (Bool-cases (is_compressed client)) [
        | inl on ↦ decode_without_len-encode_compressed client client.compression on (rw on at h)
        | inr off ↦ ground (arith, off, h, decode_without_len_plain client off)
      ]

  -- A packet of any id and any data that fits is read back from its frame, under every compression
  -- setting, whatever follows the frame in the buffer; the frame's own length has to fit an int32.
  pub decode_with_len-encode_with_len :
      (client : Client) (frame rest : Bytes)
      → encode_with_len zlib p client ≡ some frame
      → length frame < 2 ^ 31
      → decode_with_len zlib client (frame ++ rest) ≡ some p
  unfolding decode_with_len encode_with_len
  decode_with_len-encode_with_len client frame rest h fits =
      let (payload, e, f) = >>=-eq-some (encode_without_len zlib p client) _ h in
      let g : encode_var_int (len32 payload) ++ payload ≡ frame = cc in
      let small : length payload < 2 ^ 31 =
        omega (arith, ap length g, length-append (encode_var_int (len32 payload)) payload) in
      rw (← g, append_assoc)
        (decode_with_len_frame zlib client payload rest small
          ∙ decode_without_len-encode_without_len client e)
