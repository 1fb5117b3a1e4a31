-- ===== src/Proto/Stream/Flow.antt =====
-- proto/stream.go: a connection that keeps delivering.
use lazygate.Prelude.{
  ℕ, zero, suc, ◌+◌, ◌-◌, ◌<◌, ◌≤◌, min, ◌++◌, length, Bytes, ◌≡◌, none, arith, length-append, ap,
}
use native.Mathlib.Decide.{dec_lt}
use lazygate.Proto.Stream.{Connection, read_more, fill, buf_size, max_buffered_bytes}
use lazygate.Proto.Stream.Filling.{read_more-Moved, fill_full, fill_step_none}

module _ (conn : Connection) where
  open conn use {State, read, pending}

  -- A peer that has sent what is pending and keeps the connection up: a read for which there is room
  -- brings a byte at least, and no error, as long as there are bytes to come.
  abbrev pub Flows : Type 0
  Flows =
      (n : ℕ) (c : State)
      → 0 < n
      → 0 < length (pending c)
      → ((read n c).1 ≡ none) × (0 < length (read n c).0)

  module _ (flows : Flows) where
    pub read_more_flows :
        (buf : Bytes) (c : State)
        → length buf < max_buffered_bytes
        → 0 < length (pending c)
        → (read_more conn buf c).1 ≡ none
    unfolding read_more
    read_more_flows buf c h k =
        let n = min buf_size (max_buffered_bytes - length buf) in
        let (ok, some_bytes) = flows n c (omega arith) k in ground (arith, ok, some_bytes)

    pub fill_flows :
        (fuel target : ℕ) (buf : Bytes) (c : State)
        → target ≤ max_buffered_bytes
        → target ≤ length (buf ++ pending c)
        → target < fuel + length buf
        → (fill conn fuel target buf c).0 ≡ none
    fill_flows zero target buf c h k f = rw (fill_full conn zero target buf c (omega arith))
    fill_flows (suc fuel) target buf c h k f = elim (dec_lt (length buf) target) [
      | no enough ↦ rw (fill_full conn (suc fuel) target buf c (omega arith))
      | yes short ↦
          let ok =
            read_more_flows buf c (omega arith) (omega (arith, length-append buf (pending c))) in
          let (moved, brings) = read_more-Moved conn buf c (omega arith) in
          let longer = brings ok in
          rw (fill_step_none conn fuel target buf c short ok) (
            fill_flows fuel target (read_more conn buf c).0 (read_more conn buf c).2 h
              (omega (arith, ap length moved.order)) (omega arith))
    ]
