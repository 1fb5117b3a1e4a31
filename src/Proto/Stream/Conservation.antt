-- ===== src/Proto/Stream/Conservation.antt =====
-- proto/stream.go: what a call of `ReadPacket` does with the bytes.
use mathlib.Core.Path.{subst}
use lazygate.Prelude.{
  [], ◌∷◌, ap, ℕ, suc, ◌+◌, ◌<◌, ◌≤◌, Bool, true, false, ◌&&◌, ◌++◌, if◌then◌else◌, length, take,
  drop, Bytes, ◌≡◌, ◌≢◌, refl, Option, none, some, arith, append_assoc, Bool-cases, Option-cases,
  inl, inr, sym, ◌∙◌, length-drop, length-append, take-append-drop,
}
use lazygate.Proto.VarInt.{read_var_int}
use lazygate.Proto.Client.{Client, is_compressed}
use lazygate.Proto.Framing.{Zlib, RawPacket, decode_with_len}
use lazygate.Proto.Stream.{
  Connection, StreamError, buffer_limit, Outcome, packet, stuck, failed, fill, max_buffered_bytes,
  malformed_packet, packet_too_large, parse_frame, read_body, read_length, read_packet,
  data_len_too_large,
}
use lazygate.Proto.Stream.Filling.{taken, Moved, FillDone, fill-Moved}

module _ (conn : Connection) where
  open conn use {State, pending}

  -- A call that leaves the buffer and the connection as in `r`.
  pub record Kept (buf : Bytes) (c : State) (r : Outcome × Bytes × State) : Type 0 where
    pub order : buf ++ pending c ≡ taken r.0 ++ (r.1 ++ pending r.2)
    pub bounded : length r.1 ≤ max_buffered_bytes
    pub ends : r.0 ≢ stuck
    pub takes : (p : RawPacket) (raw : Bytes) → r.0 ≡ packet p raw → 0 < length raw

  Kept-after :
      (b : Bytes) (c : State) (b₂ : Bytes) (c₂ : State) (r : Outcome × Bytes × State)
      → Moved conn b c b₂ c₂
      → Kept b₂ c₂ r
      → Kept b c r
  Kept-after b c b₂ c₂ r m k = record {
    order = m.order ∙ k.order;
    bounded = k.bounded;
    ends = k.ends;
    takes = k.takes;
  }

  Kept-failed :
      (err : StreamError) (buf : Bytes) (c : State)
      → length buf ≤ max_buffered_bytes
      → Kept buf c (failed err, buf, c)
  Kept-failed err buf c h = record {
    order = refl;
    bounded = h;
    ends = λ e. cc;
    takes = λ p raw e. cc;
  }

  Kept-if :
      (test : Bool) (buf : Bytes) (c : State) (r s : Outcome × Bytes × State)
      → Kept buf c r
      → Kept buf c s
      → Kept buf c (if test then r else s)
  Kept-if true buf c r s x y = x
  Kept-if false buf c r s x y = y

  Kept-fill :
      (fuel target : ℕ) (b : Bytes) (c : State) (after : Bytes → State → Outcome × Bytes × State)
      → length b ≤ max_buffered_bytes
      → target < fuel + length b
      → ((b₂ : Bytes) (c₂ : State) → length b₂ ≤ max_buffered_bytes → Kept b₂ c₂ (after b₂ c₂))
      → Kept b c (
          let (out, b₂, c₂) = fill conn fuel target b c in
          elim out [ some o ↦ (o, b₂, c₂) | none ↦ after b₂ c₂ ])
  Kept-fill fuel target b c after h k goes =
      let (moved, done) = fill-Moved conn fuel target b c h k in
      split (fill conn fuel target b c).0 refl moved done
    where
      r : Option Outcome × Bytes × State
      r = fill conn fuel target b c

      split :
          (o : Option Outcome)
          → o ≡ r.0
          → Moved conn b c r.1 r.2
          → FillDone target r.0 r.1
          → Kept b c (elim r.0 [ some o ↦ (o, r.1, r.2) | none ↦ after r.1 r.2 ])
      split none e m d = rw (← e) (Kept-after b c r.1 r.2 _ m (goes r.1 r.2 m.bounded))
      split (some out) e m d =
          let ends = subst (λ (x : Option Outcome). FillDone target x r.1) (sym e) d in
          rw (← e) (record {
            order = rw ends.nothing m.order;
            bounded = m.bounded;
            ends = ends.ne_stuck;
            takes = λ p raw d. absurd (ends.ne_packet p raw d);
          })

module _ (zlib : Zlib) (conn : Connection) (client : Client) where
  open conn use {State, pending}

  frame_takes : (b : Bytes) (p : RawPacket) → decode_with_len zlib client b ≡ some p → 0 < length b
  unfolding decode_with_len read_var_int
  frame_takes [] p e = cc
  frame_takes (x ∷ b) p e = omega arith

  parse_frame-Kept :
      (consumed total : ℕ) (buf : Bytes) (c : State)
      → length buf ≤ max_buffered_bytes
      → Kept conn buf c (parse_frame zlib conn client consumed total buf c)
  unfolding parse_frame
  parse_frame-Kept consumed total buf c h =
      elim (Bool-cases
        (is_compressed client && data_len_too_large (drop consumed (take total buf)))) [
          | inl large ↦ rw large (Kept-failed conn packet_too_large buf c h)
          | inr fits ↦ rw fits (elim (Option-cases (decode_with_len zlib client (take total buf))) [
            | inl bad ↦ rw bad (Kept-failed conn malformed_packet buf c h)
            | inr (p, good) ↦ rw good (record {
              order = rw (← append_assoc, take-append-drop) refl;
              bounded = omega (arith, length-drop total buf);
              ends = λ e. cc;
              takes = λ q raw e.
                  subst (λ (x : Bytes). 0 < length x) (ap taken e)
                    (frame_takes (take total buf) p good);
            })
          ])
        ]

  read_body-Kept :
      (consumed pkt_len : ℕ) (buf : Bytes) (c : State)
      → length buf ≤ max_buffered_bytes
      → Kept conn buf c (read_body zlib conn client consumed pkt_len buf c)
  unfolding read_body
  read_body-Kept consumed pkt_len buf c h =
      Kept-if conn _ buf c _ _ (Kept-failed conn malformed_packet buf c h) (
        Kept-if conn _ buf c _ _ (Kept-failed conn packet_too_large buf c h) (
          Kept-if conn _ buf c _ _ (Kept-failed conn packet_too_large buf c h) (
            Kept-fill conn (suc (consumed + pkt_len)) (consumed + pkt_len) buf c
              (parse_frame zlib conn client consumed (consumed + pkt_len)) h (omega arith)
              (parse_frame-Kept consumed (consumed + pkt_len)))))

  read_length-Kept :
      (buf : Bytes) (c : State)
      → length buf ≤ max_buffered_bytes
      → Kept conn buf c (read_length zlib conn client buf c)
  unfolding read_length
  read_length-Kept buf c h = elim (Option-cases (read_var_int buf)) [
    | inl bad ↦ rw (bad, read_length) (Kept-failed conn malformed_packet buf c h)
    | inr ((consumed, pkt_len), good) ↦
        rw (good, read_length) (read_body-Kept consumed pkt_len buf c h)
  ]

  read_packet-Kept :
      (buf : Bytes) (c : State)
      → length buf ≤ max_buffered_bytes
      → Kept conn buf c (read_packet zlib conn client buf c)
  unfolding read_packet
  read_packet-Kept buf c h =
      Kept-if conn _ buf c _ _ (Kept-failed conn buffer_limit buf c h)
        (Kept-fill conn 3 2 buf c (read_length zlib conn client) h (omega arith) read_length-Kept)

  -- Whatever the connection delivers, a call of `ReadPacket` on a buffer within its bound ends, in a
  -- packet, at the end of the stream or in an error; it leaves the buffer within its bound; and what
  -- was buffered or still to come is, in order, the frame that it hands out (nothing, without a
  -- packet), what it leaves in the buffer, and what is still to come.
  pub read_packet_conserves :
      (buf : Bytes) (c : State)
      → length buf ≤ max_buffered_bytes
      → let (out, buf', c') = read_packet zlib conn client buf c in
        (out ≢ stuck)
        × (length buf' ≤ max_buffered_bytes)
        × (buf ++ pending c ≡ taken out ++ (buf' ++ pending c'))
  read_packet_conserves buf c h = let k = read_packet-Kept buf c h in (k.ends, k.bounded, k.order)

  -- A packet leaves fewer bytes to come, in the buffer and on the connection together.
  pub read_packet_shortens :
      (buf : Bytes) (c : State) (p : RawPacket) (raw : Bytes)
      → length buf ≤ max_buffered_bytes
      → (read_packet zlib conn client buf c).0 ≡ packet p raw
      → let (_, buf₂, c₂) = read_packet zlib conn client buf c in
        length buf₂ + length (pending c₂) < length buf + length (pending c)
  read_packet_shortens buf c p raw h e =
      let (out, buf₂, c₂) = read_packet zlib conn client buf c in
      let k = read_packet-Kept buf c h in
      let raw_order : buf ++ pending c ≡ raw ++ (buf₂ ++ pending c₂) =
        k.order ∙ ap (λ o. taken o ++ (buf₂ ++ pending c₂)) e in
      omega (
        arith,
        ap length raw_order,
        k.takes p raw e,
        length-append buf (pending c),
        length-append raw (buf₂ ++ pending c₂),
        length-append buf₂ (pending c₂),
      )
