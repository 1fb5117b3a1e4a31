-- ===== src/Proto/Stream/Delivery.antt =====
-- proto/stream.go: a packet that the peer sends whole, under any cutting of the bytes into reads.
use lazygate.Prelude.{
  ℕ, ◌<◌, ◌≤◌, ◌^◌, false, ◌&&◌, [], ◌++◌, length, drop, Bytes, ◌≡◌, refl, some, arith, append-nil,
  length-append, Bool-cases, ◌⊎◌, inl, inr, sym, ap, ◌∙◌, drop-append, >>=-eq-some,
}
use lazygate.Proto.VarInt.{read_var_int, encode_var_int, signed_lt, IsInt32}
use lazygate.Proto.VarInt.Agree.{read_var_int-encode_var_int}
use lazygate.Proto.VarInt.Bounds.{length-encode_var_int}
use lazygate.Proto.Writer.{len32}
use lazygate.Proto.Client.{Client, is_compressed}
use lazygate.Proto.Framing.{
  Zlib, RawPacket, decode_with_len, encode_with_len, encode_without_len, encode_compressed,
}
use lazygate.Proto.Framing.RoundTrip.{
  IsPacket, payload_of, payload_len, decode_with_len-encode_with_len,
}
use lazygate.Proto.Stream.{
  Connection, Outcome, max_buffered_bytes, max_packet_length, packet, read_packet,
  data_len_too_large,
}
use lazygate.Proto.Stream.Conservation.{read_packet_conserves}
use lazygate.Proto.Stream.Filling.{taken}
use lazygate.Proto.Stream.Flow.{Flows}
use lazygate.Proto.Stream.Frame.{IsFrame, frame_of, Accepted, header_len, read_packet_whole}

append_cancel : (xs ys zs : Bytes) → xs ++ ys ≡ xs ++ zs → ys ≡ zs
append_cancel xs ys zs e =
    sym (drop-append xs ys _ refl) ∙ ap (drop (length xs)) e ∙ drop-append xs zs _ refl

module _ (zlib : Zlib) (conn : Connection) (client : Client) (p : RawPacket) (k : IsPacket p) where
  open conn use {State, pending}

  -- A frame that the proxy's own encoder wrote passes the check of the length before compression.
  encode_without_len-data_len :
      {payload : Bytes}
      → length (payload_of p) ≤ max_packet_length
      → encode_without_len zlib p client ≡ some payload
      → (is_compressed client && data_len_too_large payload) ≡ false
  unfolding encode_without_len encode_compressed
  encode_without_len-data_len {payload} fits h = elim (Bool-cases (is_compressed client)) [
    | inr off ↦ rw off
    | inl on ↦ elim (Bool-cases (signed_lt client.compression (len32 (payload_of p)))) [
      | inl deflate ↦
          let (z, _, f) = >>=-eq-some (zlib.compress (payload_of p)) _ (rw (on, deflate) at h) in
          header_fits (length (payload_of p)) z (omega arith) (ground (arith, f, payload_len p k))
      | inr keep ↦ header_fits 0 (payload_of p) (omega arith) (ground (arith, rw (on, keep) at h))
    ]
  ]
    where
      header_fits :
          (n : ℕ) (behind : Bytes)
          → n ≤ max_packet_length
          → encode_var_int n ++ behind ≡ payload
          → (is_compressed client && data_len_too_large payload) ≡ false
      header_fits n behind small e =
          let good = read_var_int-encode_var_int n behind (omega arith) in
          ground (arith, good, ap read_var_int e)

  -- A frame that the encoder writes has a payload.
  encode_without_len-some_bytes :
      {payload : Bytes} → encode_without_len zlib p client ≡ some payload → 0 < length payload
  unfolding encode_without_len encode_compressed
  encode_without_len-some_bytes {payload} h = elim (Bool-cases (is_compressed client)) [
    | inr off ↦ ground (arith, off, h, payload_len p k)
    | inl on ↦ elim (Bool-cases (signed_lt client.compression (len32 (payload_of p)))) [
      | inl deflate ↦
          let (z, _, f) = >>=-eq-some (zlib.compress (payload_of p)) _ (rw (on, deflate) at h) in
          behind (len32 (payload_of p)) z (omega arith) (ground (arith, f))
      | inr keep ↦ behind 0 (payload_of p) (omega arith) (ground (arith, rw (on, keep) at h))
    ]
  ]
    where
      behind :
          (n : ℕ) (z : Bytes) → IsInt32 n → encode_var_int n ++ z ≡ payload → 0 < length payload
      behind n z i e =
          omega (arith, ap length e, length-append (encode_var_int n) z, length-encode_var_int n i)

  -- A packet that `EncodeWithLen` framed under the client's compression setting is delivered, and
  -- the bytes behind it stay for the next call, however many reads its bytes take to arrive and
  -- however the reads cut them, if the connection keeps delivering, the frame and the uncompressed
  -- payload are within the 1 MiB limit, and either the frame is shorter than 16 KiB or five bytes of
  -- it are buffered already.
  pub read_packet_delivers :
      (buf : Bytes) (c : State) (frame rest : Bytes)
      → Flows conn
      → length buf ≤ max_buffered_bytes
      → encode_with_len zlib p client ≡ some frame
      → length (payload_of p) ≤ max_packet_length
      → length frame ≤ max_packet_length
      → (length frame < 2 ^ 14) ⊎ (5 ≤ length buf)
      → buf ++ pending c ≡ frame ++ rest
      → let (out, buf', c') = read_packet zlib conn client buf c in
        (out ≡ packet p frame) × (buf' ++ pending c' ≡ rest)
  unfolding encode_with_len
  read_packet_delivers buf c frame rest flows h e fits small hd order =
      let (payload, f, g) = >>=-eq-some (encode_without_len zlib p client) _ e in
      let g' : encode_var_int (len32 payload) ++ payload ≡ frame = cc in
      let short : length payload ≤ length frame =
        omega (arith, ap length g', length-append (encode_var_int (len32 payload)) payload) in
      let n : len32 payload ≡ length payload = omega arith in
      let whole : frame_of payload ≡ frame =
        ap (λ (m : ℕ). encode_var_int m ++ payload) (sym n) ∙ g' in
      let k' : IsFrame payload = record {
        some_bytes = encode_without_len-some_bytes f;
        fits = omega arith;
      } in
      let decoded : decode_with_len zlib client (frame_of payload) ≡ some p =
        ap (decode_with_len zlib client) (whole ∙ sym (append-nil frame))
        ∙ decode_with_len-encode_with_len zlib p k client frame [] e (omega arith) in
      let accepted : Accepted zlib conn client payload k' p = record {
        data_len = encode_without_len-data_len fits f;
        decoded = decoded;
      } in
      let header = header_len zlib conn client payload k' in
      let early : (length payload < 2 ^ 14)
          ⊎ (length (encode_var_int (length payload)) ≤ length buf) =
        elim hd [ inl a ↦ inl (omega arith) | inr b ↦ inr (omega (arith, header)) ] in
      let out : (read_packet zlib conn client buf c).0 ≡ packet p frame =
        read_packet_whole zlib conn client payload k' flows p buf c rest accepted h early
          (order ∙ ap (λ (t : Bytes). t ++ rest) (sym whole))
        ∙ ap (packet p) whole in
      let kept = read_packet_conserves zlib conn client buf c h in
      let left =
        (read_packet zlib conn client buf c).1 ++ pending (read_packet zlib conn client buf c).2 in
      (
        out,
        sym (
            append_cancel frame rest left
              (sym order ∙ kept.2 ∙ ap (λ (o : Outcome). taken o ++ left) out)),
      )
