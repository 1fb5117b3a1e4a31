-- ===== src/Forge/Replay/Drain.antt =====
-- forge.go: the loop of `drainForgeResponses` and its rounds.
use lazygate.Prelude.{ℕ, zero, suc, ◌+◌, ◌<◌, ◌≤◌, Bytes, ◌≡◌, ◌≢◌, refl, length, arith}
use lazygate.Proto.Client.{Client}
use lazygate.Proto.Framing.{Zlib, RawPacket}
use lazygate.Proto.Stream.{
  Connection, Outcome, packet, ended, failed, stuck, StreamError, read_failed, timeout,
  max_buffered_bytes,
}
use lazygate.Proto.Stream.Conservation.{read_packet_conserves, read_packet_shortens}
use lazygate.Forge.Replay.{Drained, unfinished, drain_error, drain_outcome, drain_forge_responses}

drain_error-ne-unfinished : (err : StreamError) → drain_error err ≢ unfinished
drain_error-ne-unfinished (read_failed timeout) = λ e. cc
drain_error-ne-unfinished err = λ e. cc

drain_outcome-ne-unfinished :
    {B S : Type 0} (client : Client) (left : ℕ) (out : Outcome) (buf : B) (c : S)
    (again : ℕ → Drained × B × S)
    → out ≢ stuck
    → ((p : RawPacket) (raw : Bytes) → out ≡ packet p raw → (n : ℕ) → (again n).0 ≢ unfinished)
    → (drain_outcome client left out (λ d. (d, buf, c)) again).0 ≢ unfinished
drain_outcome-ne-unfinished client left ended buf c again ends goes = λ e. cc
drain_outcome-ne-unfinished client left (failed err) buf c again ends goes =
    drain_error-ne-unfinished err
drain_outcome-ne-unfinished client left stuck buf c again ends goes = absurd (ends refl)
drain_outcome-ne-unfinished client left (packet p raw) buf c again ends goes = goes p raw refl _

module _ (zlib : Zlib) (conn : Connection) (client : Client) where
  open conn use {State, pending}

  -- When what the client still sends is finite and there is a round for each of its bytes and one more,
  -- the drain does not run out of rounds: the responses are drained, or it ends by a timeout, by the end of
  -- the stream or by an error.
  pub drain_forge_responses-ne-unfinished :
      (fuel left : ℕ) (buf : Bytes) (c : State)
      → length buf ≤ max_buffered_bytes
      → length buf + length (pending c) < fuel
      → (drain_forge_responses zlib conn client fuel left buf c).0 ≢ unfinished
  unfolding drain_forge_responses
  drain_forge_responses-ne-unfinished fuel zero buf c fits enough = λ e. cc
  drain_forge_responses-ne-unfinished zero (suc left) buf c fits enough = λ e. omega arith
  drain_forge_responses-ne-unfinished (suc fuel) (suc left) buf c fits enough =
      let (ends, fits₂, order) = read_packet_conserves zlib conn client buf c fits in
      drain_outcome-ne-unfinished client (suc left) _ _ _ _ ends (λ p raw e n.
        drain_forge_responses-ne-unfinished fuel n _ _ fits₂
          (omega (arith, enough, read_packet_shortens zlib conn client buf c p raw fits e)))
