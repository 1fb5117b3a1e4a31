-- ===== src/Proto/Stream/Frame.antt =====
-- proto/stream.go: one whole frame among the bytes to come.
use lazygate.Prelude.{
  ℕ, suc, ◌+◌, ◌<◌, ◌≤◌, ◌^◌, false, ◌&&◌, ◌++◌, ltb, leb, length, take, drop, Bytes, ◌≡◌, refl,
  Option, some, arith, append_assoc, length-append, ◌⊎◌, inl, inr, sym, ap, ◌∙◌, take-append-drop,
  take-append, drop-append, take-append_le,
}
use mathlib.Core.Path.{subst}
use lazygate.Proto.VarInt.{read_var_int, encode_var_int, signed_lt}
use lazygate.Proto.VarInt.Agree.{read_var_int-encode_var_int}
use lazygate.Proto.VarInt.Bounds.{length-encode_var_int, length-encode_var_int_two}
use lazygate.Proto.Client.{Client, is_compressed}
use lazygate.Proto.Framing.{Zlib, RawPacket, decode_with_len}
use lazygate.Proto.Stream.{
  Connection, Outcome, fill, max_buffered_bytes, max_packet_length, packet, parse_frame, read_body,
  read_length, read_packet, data_len_too_large,
}
use lazygate.Proto.Stream.Filling.{FillDone, fill-Moved}
use lazygate.Proto.Stream.Flow.{Flows, fill_flows}

-- A list that begins as another does, and is as long, holds it.
pub front_of :
    (xs ys zs ws : Bytes)
    → xs ++ ys ≡ zs ++ ws
    → length zs ≤ length xs
    → (take (length zs) xs ≡ zs) × (xs ≡ zs ++ drop (length zs) xs)
front_of xs ys zs ws e h =
    let front : take (length zs) xs ≡ zs =
      sym (take-append_le xs ys (length zs) h)
      ∙ ap (take (length zs)) e
      ∙ take-append zs ws (length zs) refl in
    (
      front,
      sym (take-append-drop (length zs) xs) ∙ ap (λ (t : Bytes). t ++ drop (length zs) xs) front,
    )

-- A frame: the length, as its var-int, and that many bytes.
pub record IsFrame (payload : Bytes) : Type 0 where
  pub some_bytes : 0 < length payload
  pub fits : length payload ≤ max_packet_length

abbrev pub frame_of : Bytes → Bytes
frame_of payload = encode_var_int (length payload) ++ payload

module _ (zlib : Zlib) (conn : Connection) (client : Client) (payload : Bytes)
    (k : IsFrame payload) where
  open conn use {State, pending}

  pub header_len :
      (1 ≤ length (encode_var_int (length payload)))
      × (length (encode_var_int (length payload)) ≤ 5)
  header_len = length-encode_var_int (length payload) (omega (arith, k.fits))

  pub frame_len :
      length (frame_of payload) ≡ length (encode_var_int (length payload)) + length payload
  frame_len = length-append (encode_var_int (length payload)) payload

  -- The decoder accepts the frame.
  pub record Accepted (p : RawPacket) : Type 0 where
    pub data_len : (is_compressed client && data_len_too_large payload) ≡ false
    pub decoded : decode_with_len zlib client (frame_of payload) ≡ some p

  parse_frame_whole :
      (p : RawPacket) (total : ℕ) (buf : Bytes) (c : State)
      → Accepted p
      → total ≡ length (frame_of payload)
      → take total buf ≡ frame_of payload
      → (parse_frame zlib conn client (length (encode_var_int (length payload))) total buf c).0
        ≡ packet p (frame_of payload)
  unfolding parse_frame
  parse_frame_whole p total buf c a t e =
      let cut = drop-append (encode_var_int (length payload)) payload _ refl in
      rw (e, cut, a.data_len, a.decoded) (ap (packet p) e)

  module _ (flows : Flows conn) where
    read_body_whole :
        (p : RawPacket) (buf : Bytes) (c : State) (rest : Bytes)
        → Accepted p
        → length buf ≤ max_buffered_bytes
        → buf ++ pending c ≡ frame_of payload ++ rest
        → (read_body zlib conn client
            (length (encode_var_int (length payload)))
            (length payload)
            buf
            c).0
          ≡ packet p (frame_of payload)
    unfolding read_body
    read_body_whole p buf c rest a h e =
        let total = length (encode_var_int (length payload)) + length payload in
        let r = fill conn (suc total) total buf c in
        let small : leb (2 ^ 31) (length payload) ≡ false = ground (arith, k.fits) in
        let short : signed_lt max_packet_length (length payload) ≡ false = ground (arith, k.fits) in
        let room : ltb max_buffered_bytes total ≡ false = ground (arith, k.fits, header_len) in
        let there : total ≤ length (buf ++ pending c) =
          omega (arith, ap length e, length-append (frame_of payload) rest, frame_len) in
        let none_yet =
          fill_flows conn flows (suc total) total buf c (omega (arith, k.fits, header_len)) there
            (omega arith) in
        let (moved, done) = fill-Moved conn (suc total) total buf c h (omega arith) in
        let full : total ≤ length r.1 =
          subst (λ (o : Option Outcome). FillDone total o r.1) none_yet done in
        let (front, _) =
          front_of r.1 (pending r.2) (frame_of payload) rest (sym moved.order ∙ e)
            (omega (arith, frame_len)) in
        rw (small, short, room, none_yet)
          (parse_frame_whole p total r.1 r.2 a (sym frame_len)
            (subst (λ (n : ℕ). take n r.1 ≡ frame_of payload) frame_len front))

    read_length_whole :
        (p : RawPacket) (buf : Bytes) (c : State) (rest : Bytes)
        → Accepted p
        → length buf ≤ max_buffered_bytes
        → length (encode_var_int (length payload)) ≤ length buf
        → buf ++ pending c ≡ frame_of payload ++ rest
        → (read_length zlib conn client buf c).0 ≡ packet p (frame_of payload)
    unfolding read_length
    read_length_whole p buf c rest a h hd e =
        let header = encode_var_int (length payload) in
        let (_, split) =
          front_of buf (pending c) header (payload ++ rest) (e ∙ append_assoc header payload rest)
            hd in
        let good : read_var_int buf ≡ some (length header, length payload) =
          ap read_var_int split
          ∙ read_var_int-encode_var_int (length payload) (drop (length header) buf)
              (omega (arith, k.fits)) in
        rw (good, read_length) (read_body_whole p buf c rest a h e)

    pub read_packet_whole :
        (p : RawPacket) (buf : Bytes) (c : State) (rest : Bytes)
        → Accepted p
        → length buf ≤ max_buffered_bytes
        → (length payload < 2 ^ 14) ⊎ (length (encode_var_int (length payload)) ≤ length buf)
        → buf ++ pending c ≡ frame_of payload ++ rest
        → (read_packet zlib conn client buf c).0 ≡ packet p (frame_of payload)
    unfolding read_packet
    read_packet_whole p buf c rest a h hd e =
        let r = fill conn 3 2 buf c in
        let room : ltb max_buffered_bytes (length buf) ≡ false = ground arith in
        let there : 2 ≤ length (buf ++ pending c) = omega (
          arith,
          ap length e,
          length-append (frame_of payload) rest,
          frame_len,
          header_len,
          k.some_bytes,
        ) in
        let none_yet = fill_flows conn flows 3 2 buf c (omega arith) there (omega arith) in
        let (moved, done) = fill-Moved conn 3 2 buf c h (omega arith) in
        let full : 2 ≤ length r.1 =
          subst (λ (o : Option Outcome). FillDone 2 o r.1) none_yet done in
        let header : length (encode_var_int (length payload)) ≤ length r.1 = elim hd [
          | inl small ↦ omega (arith, length-encode_var_int_two (length payload) small, full)
          | inr there ↦ omega (arith, there, moved.grown)
        ] in
        rw (room, none_yet)
          (read_length_whole p r.1 r.2 rest a moved.bounded header (sym moved.order ∙ e))
