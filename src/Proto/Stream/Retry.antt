-- ===== src/Proto/Stream/Retry.antt =====
-- What a refused frame leaves behind, and what it means for a caller that reads again.
use lazygate.Prelude.{
  ℕ, suc, ◌+◌, ◌≤◌, false, ◌&&◌, ◌∷◌, ◌++◌, ltb, length, take, drop, Bytes, ◌≡◌, Option, none, some,
  arith, Bool-cases, Option-cases, inl, inr, sym, ap, ◌∙◌,
}
use lazygate.Proto.VarInt.{read_var_int, encode_var_int, is_negative, signed_lt, IsInt32}
use lazygate.Proto.VarInt.Prefix.{read_var_int_incomplete, read_var_int-append}
use lazygate.Proto.Client.{Client, is_compressed}
use lazygate.Proto.Framing.{Zlib, decode_with_len}
use lazygate.Proto.Stream.{
  Connection, Outcome, fill, max_buffered_bytes, max_packet_length, malformed_packet, failed,
  parse_frame, read_body, read_length, read_packet, data_len_too_large,
}
use lazygate.Proto.Stream.Filling.{fill_full, fill-Moved, Moved, FillDone}
use lazygate.Proto.Stream.Frame.{front_of}
use mathlib.Core.Path.{subst, subst₂}

module _ (zlib : Zlib) (conn : Connection) (client : Client) where
  open conn use {State}

  -- With two bytes in the buffer the connection is not read before the length is.
  read_packet_buffered :
      (buf : Bytes) (c : State)
      → 2 ≤ length buf
      → length buf ≤ max_buffered_bytes
      → read_packet zlib conn client buf c ≡ read_length zlib conn client buf c
  unfolding read_packet
  read_packet_buffered buf c h k =
      let room : ltb max_buffered_bytes (length buf) ≡ false = ground arith in
      rw (room, fill_full conn 3 2 buf c h) (rw (fill_full conn 3 2 buf c h))

  read_length-none :
      (buf : Bytes) (c : State)
      → read_var_int buf ≡ none
      → read_length zlib conn client buf c ≡ (failed malformed_packet, buf, c)
  unfolding read_length
  read_length-none buf c e = rw (e, read_length)

  read_length-some :
      (buf : Bytes) (c : State) {consumed n : ℕ}
      → read_var_int buf ≡ some (consumed, n)
      → read_length zlib conn client buf c ≡ read_body zlib conn client consumed n buf c
  unfolding read_length
  read_length-some buf c e = rw (e, read_length)

  -- A length of three bytes or more that has arrived in part, with two bytes of it or more in the
  -- buffer, is answered by `ErrMalformedPacket`: the rest of it is not waited for.
  pub read_packet_split_length :
      (n x : ℕ) (front back : Bytes) (c : State)
      → IsInt32 n
      → encode_var_int n ≡ front ++ x ∷ back
      → 2 ≤ length front
      → length front ≤ max_buffered_bytes
      → read_packet zlib conn client front c ≡ (failed malformed_packet, front, c)
  read_packet_split_length n x front back c i e h k =
      read_packet_buffered front c h k
      ∙ read_length-none front c (read_var_int_incomplete n x front back i e)

  -- The buffer is refused, and the call leaves it and the connection as they were.
  Refused : Bytes → State → Type 0
  Refused buf c = read_packet zlib conn client buf c ≡ (failed malformed_packet, buf, c)

  parse_frame_refused :
      (consumed total : ℕ) (buf : Bytes) (c : State) {b' : Bytes} {c' : State}
      → parse_frame zlib conn client consumed total buf c ≡ (failed malformed_packet, b', c')
      → (b' ≡ buf) × (c' ≡ c)
  unfolding parse_frame
  parse_frame_refused consumed total buf c r =
      elim (Bool-cases
        (is_compressed client && data_len_too_large (drop consumed (take total buf)))) [
          | inl large ↦ cc (rw large at r)
          | inr fits ↦ elim (Option-cases (decode_with_len zlib client (take total buf))) [
            | inl bad ↦
                let q = rw (fits, bad) at r in (ap (λ t. t.1) (sym q), ap (λ t. t.2) (sym q))
            | inr (p, good) ↦ cc (rw (fits, good) at r)
          ]
        ]

  -- The frame is in the buffer: nothing is read before it is parsed.
  read_body_buffered :
      (consumed n : ℕ) (buf : Bytes) (c : State)
      → is_negative n ≡ false
      → signed_lt max_packet_length n ≡ false
      → ltb max_buffered_bytes (consumed + n) ≡ false
      → consumed + n ≤ length buf
      → read_body zlib conn client consumed n buf c
        ≡ parse_frame zlib conn client consumed (consumed + n) buf c
  unfolding read_body
  read_body_buffered consumed n buf c a b d h =
      rw (a, b, d, fill_full conn (suc (consumed + n)) (consumed + n) buf c h)
        (rw (fill_full conn (suc (consumed + n)) (consumed + n) buf c h))

  -- The cases of `readBody` that are refused before the frame is read leave everything as it was.
  body_unread :
      (consumed n : ℕ) (buf : Bytes) (c : State) {b' : Bytes} {c' : State}
      → 2 ≤ length buf
      → length buf ≤ max_buffered_bytes
      → read_var_int buf ≡ some (consumed, n)
      → read_body zlib conn client consumed n buf c ≡ (failed malformed_packet, b', c')
      → (b' ≡ buf) × (c' ≡ c)
      → Refused b' c'
  unfolding Refused
  body_unread consumed n buf c {b'} {c'} h k e r (eb, ec) =
      let at_buf : read_packet zlib conn client buf c ≡ (failed malformed_packet, b', c') =
        read_packet_buffered buf c h k ∙ read_length-some buf c e ∙ r in
      subst₂ (λ b d. read_packet zlib conn client b d ≡ (failed malformed_packet, b', c')) (sym eb)
        (sym ec) at_buf

  -- The frame was read and not accepted: the next call finds it again.
  frame-Refused :
      (consumed n : ℕ) (buf : Bytes) (c : State) (b₂ : Bytes) (c₂ : State) {b' : Bytes} {c' : State}
      → 2 ≤ length buf
      → read_var_int buf ≡ some (consumed, n)
      → is_negative n ≡ false
      → signed_lt max_packet_length n ≡ false
      → ltb max_buffered_bytes (consumed + n) ≡ false
      → Moved conn buf c b₂ c₂
      → consumed + n ≤ length b₂
      → parse_frame zlib conn client consumed (consumed + n) b₂ c₂
        ≡ (failed malformed_packet, b', c')
      → Refused b' c'
  frame-Refused consumed n buf c b₂ c₂ h e x y z moved full r =
      let (eb, ec) = parse_frame_refused consumed (consumed + n) b₂ c₂ r in
      let (_, longer) =
        front_of b₂ (conn.pending c₂) buf (conn.pending c) (sym moved.order) moved.grown in
      let e₂ : read_var_int b₂ ≡ some (consumed, n) =
        ap read_var_int longer ∙ read_var_int-append buf (drop (length buf) b₂) e in
      body_unread consumed n b₂ c₂ (omega (arith, moved.grown)) moved.bounded e₂
        (read_body_buffered consumed n b₂ c₂ x y z full ∙ r) (eb, ec)

  body-Refused :
      (consumed n : ℕ) (buf : Bytes) (c : State) {b' : Bytes} {c' : State}
      → 2 ≤ length buf
      → length buf ≤ max_buffered_bytes
      → read_var_int buf ≡ some (consumed, n)
      → read_body zlib conn client consumed n buf c ≡ (failed malformed_packet, b', c')
      → Refused b' c'
  unfolding read_body
  body-Refused consumed n buf c {b'} {c'} h k e r = elim (Bool-cases (is_negative n)) [
    | inl x ↦
        let q = rw x at r in
        body_unread consumed n buf c h k e r (ap (λ t. t.1) (sym q), ap (λ t. t.2) (sym q))
    | inr x ↦ elim (Bool-cases (signed_lt max_packet_length n)) [
      | inl y ↦ cc (rw (x, y) at r)
      | inr y ↦ elim (Bool-cases (ltb max_buffered_bytes (consumed + n))) [
        | inl z ↦ cc (rw (x, y, z) at r)
        | inr z ↦
            let f = fill conn (suc (consumed + n)) (consumed + n) buf c in
            let (moved, done) =
              fill-Moved conn (suc (consumed + n)) (consumed + n) buf c k (omega arith) in
            elim (Option-cases f.0) [
              | inl full ↦
                  frame-Refused consumed n buf c f.1 f.2 h e x y z moved
                    (subst (λ (o : Option Outcome). FillDone (consumed + n) o f.1) full done)
                    (rw (x, y, z, full) at r)
              | inr (out, stopped) ↦
                  let ends =
                    subst (λ (o : Option Outcome). FillDone (consumed + n) o f.1) stopped done in
                  absurd (ends.well_formed (ap (λ t. t.0) (rw (x, y, z, stopped) at r)))
            ]
      ]
    ]
  ]

  length-Refused :
      (buf : Bytes) (c : State) {b' : Bytes} {c' : State}
      → 2 ≤ length buf
      → length buf ≤ max_buffered_bytes
      → read_length zlib conn client buf c ≡ (failed malformed_packet, b', c')
      → Refused b' c'
  length-Refused buf c {b'} {c'} h k r = elim (Option-cases (read_var_int buf)) [
    | inl bad ↦
        let q = sym (read_length-none buf c bad) ∙ r in
        let at_buf : read_packet zlib conn client buf c ≡ (failed malformed_packet, b', c') =
          read_packet_buffered buf c h k ∙ r in
        unfold Refused in
        subst₂ (λ b d. read_packet zlib conn client b d ≡ (failed malformed_packet, b', c'))
          (ap (λ t. t.1) q) (ap (λ t. t.2) q) at_buf
    | inr ((consumed, n), e) ↦
        body-Refused consumed n buf c h k e (sym (read_length-some buf c e) ∙ r)
  ]

  -- `ErrMalformedPacket` consumes nothing: a caller that reads again on the same buffer, as
  -- `waitForStatus` and `waitForPing` do, is refused again at once and for ever, with the buffer and
  -- the connection unchanged.
  pub read_packet_malformed_stays :
      (buf : Bytes) (c : State) {b' : Bytes} {c' : State}
      → length buf ≤ max_buffered_bytes
      → read_packet zlib conn client buf c ≡ (failed malformed_packet, b', c')
      → read_packet zlib conn client b' c' ≡ (failed malformed_packet, b', c')
  unfolding read_packet
  read_packet_malformed_stays buf c {b'} {c'} k r =
      let room : ltb max_buffered_bytes (length buf) ≡ false = ground arith in
      let f = fill conn 3 2 buf c in
      let (moved, done) = fill-Moved conn 3 2 buf c k (omega arith) in
      elim (Option-cases f.0) [
        | inl full ↦
            let two = subst (λ (o : Option Outcome). FillDone 2 o f.1) full done in
            unfold Refused in length-Refused f.1 f.2 two moved.bounded (rw (room, full) at r)
        | inr (out, stopped) ↦
            let ends = subst (λ (o : Option Outcome). FillDone 2 o f.1) stopped done in
            absurd (ends.well_formed (ap (λ t. t.0) (rw (room, stopped) at r)))
      ]
