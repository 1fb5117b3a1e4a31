-- ===== src/Serve/Loop.antt =====
-- status.go: the loop of `Serve` and its rounds.
use lazygate.Prelude.{ℕ, zero, suc, ◌+◌, ◌<◌, ◌≤◌, Bytes, ◌≡◌, ◌≢◌, refl, length, arith}
use lazygate.Proto.Framing.{RawPacket}
use lazygate.Proto.Stream.{Connection, Outcome, packet, ended, failed, stuck, max_buffered_bytes}
use lazygate.Proto.Stream.Conservation.{read_packet_conserves, read_packet_shortens}
use lazygate.Serve.{
  ServeConfig, Outside, Moment, ClientSession, Served, Next, read_on, close, occupy, Run, after,
  serve_outcome, serve_packet, serve_loop, unfinished,
}

after-ne-unfinished :
    {S : Type 0} (served : Served) (next : Next) (c : S) (again : ClientSession → Run S)
    → ((s : ClientSession) → (again s).1 ≢ unfinished)
    → (after served next c again).1 ≢ unfinished
after-ne-unfinished served close c again goes = λ e. cc
after-ne-unfinished served (occupy s queue) c again goes = λ e. cc
after-ne-unfinished served (read_on s) c again goes = goes s

serve_outcome-ne-unfinished :
    {S : Type 0} (o : Outside) (config : ServeConfig) (m : Moment) (s : ClientSession)
    (out : Outcome) (buf : Bytes) (c : S) (again : ClientSession → Run S)
    → out ≢ stuck
    → ((p : RawPacket) (raw : Bytes)
        → out ≡ packet p raw
        → (s₂ : ClientSession) → (again s₂).1 ≢ unfinished)
    → (serve_outcome o config m s out buf c again).1 ≢ unfinished
unfolding serve_outcome
serve_outcome-ne-unfinished o config m s ended buf c again ends goes = λ e. cc
serve_outcome-ne-unfinished o config m s (failed err) buf c again ends goes = λ e. cc
serve_outcome-ne-unfinished o config m s stuck buf c again ends goes = absurd (ends refl)
serve_outcome-ne-unfinished o config m s (packet p raw) buf c again ends goes =
    after-ne-unfinished (serve_packet o config m s p raw buf) _ c again (goes p raw refl)

module _ (o : Outside) (conn : Connection) (config : ServeConfig) (moments : ℕ → Moment) where
  open conn use {State, pending}

  -- When what the client still sends is finite and there is a round for each of its bytes and one
  -- more, the loop of `Serve` does not run out of rounds: it closes the connection or hands the client on.
  pub serve_loop-ne-unfinished :
      (fuel n : ℕ) (s : ClientSession) (buf : Bytes) (c : State)
      → length buf ≤ max_buffered_bytes
      → length buf + length (pending c) < fuel
      → (serve_loop o conn config moments fuel n s buf c).1 ≢ unfinished
  unfolding serve_loop
  serve_loop-ne-unfinished zero n s buf c fits enough = λ e. omega arith
  serve_loop-ne-unfinished (suc fuel) n s buf c fits enough =
      let (ends, fits₂, order) = read_packet_conserves o.zlib conn s.client buf c fits in
      serve_outcome-ne-unfinished o config (moments n) s _ _ _ _ ends (λ p raw e s₂.
        serve_loop-ne-unfinished fuel (n + 1) s₂ _ _ fits₂
          (omega (arith, enough, read_packet_shortens o.zlib conn s.client buf c p raw fits e)))
