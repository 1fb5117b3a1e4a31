-- ===== src/Proto/Stream/Filling.antt =====
-- The loops that fill the buffer: they end, and they move bytes from the connection to the buffer
-- in order.
use native.Mathlib.Decide.{dec_lt}
use lazygate.Prelude.{
  ℕ, zero, suc, ◌+◌, ◌-◌, ◌<◌, ◌≤◌, min, false, [], ◌++◌, ltb, leb, length, Bytes, ◌≡◌, ◌≢◌, refl,
  Option, none, some, arith, append_assoc, length-append, Bool-cases, Option-cases, lt→ltb, inl,
  inr, sym, ap, ◌∙◌,
}
use lazygate.Proto.Framing.{RawPacket}
use lazygate.Proto.Stream.{
  Connection, StreamError, read_failed, Outcome, stuck, failed, stop, read_more, read_error, fill,
  buf_size, max_buffered_bytes, eof, conn_reset, Failure, packet, malformed_packet,
}

read_error-none :
    (chunk : Bytes) (failure : Option Failure) → read_error chunk failure ≡ none → 0 < length chunk
read_error-none chunk (some f) h = cc
read_error-none chunk none h = ground arith

-- The bytes that an outcome hands out.
abbrev pub taken : Outcome → Bytes
taken (packet p raw) = raw
taken _ = []

-- What ends a call by an error of a read: no packet, and no malformed one.
pub record Ends (out : Outcome) : Type 0 where
  pub ne_stuck : out ≢ stuck
  pub nothing : taken out ≡ []
  pub ne_packet : (p : RawPacket) (raw : Bytes) → out ≢ packet p raw
  pub well_formed : out ≢ failed malformed_packet

stop-Ends : (err : StreamError) → err ≢ malformed_packet → Ends (stop err)
stop-Ends (read_failed eof) h = record {
  ne_stuck = λ e. cc;
  nothing = refl;
  ne_packet = λ p raw e. cc;
  well_formed = λ e. cc;
}
stop-Ends (read_failed conn_reset) h = record {
  ne_stuck = λ e. cc;
  nothing = refl;
  ne_packet = λ p raw e. cc;
  well_formed = λ e. cc;
}
stop-Ends malformed_packet h = absurd (h refl)
stop-Ends _ h = record {
  ne_stuck = λ e. cc;
  nothing = refl;
  ne_packet = λ p raw e. cc;
  well_formed = λ e. cc;
}

le→ltb-false : (a b : ℕ) → b ≤ a → ltb a b ≡ false
le→ltb-false a b h = ground arith

-- How a filling loop ends: with an error, or with the buffer filled up to the target.
abbrev pub FillDone : ℕ → Option Outcome → Bytes → Type 0
FillDone target (some out) buf' = Ends out
FillDone target none buf' = target ≤ length buf'

module _ (conn : Connection) where
  open conn use {State, read, pending, read_fits, read_order}

  -- From buffer and connection to buffer and connection: no byte is lost, added or moved, the buffer
  -- stays within its bound and keeps what it holds.
  pub record Moved (buf : Bytes) (c : State) (buf' : Bytes) (c' : State) : Type 0 where
    pub order : buf ++ pending c ≡ buf' ++ pending c'
    pub bounded : length buf' ≤ max_buffered_bytes
    pub grown : length buf ≤ length buf'

  pub Moved-refl : (buf : Bytes) (c : State) → length buf ≤ max_buffered_bytes → Moved buf c buf c
  Moved-refl buf c h = record { order = refl; bounded = h; grown = omega arith }

  pub Moved-trans :
      (b : Bytes) (c : State) (b₂ : Bytes) (c₂ : State) (b₃ : Bytes) (c₃ : State)
      → Moved b c b₂ c₂
      → Moved b₂ c₂ b₃ c₃
      → Moved b c b₃ c₃
  Moved-trans b c b₂ c₂ b₃ c₃ m n = record {
    order = m.order ∙ n.order;
    bounded = n.bounded;
    grown = omega arith;
  }

  -- One read moves bytes, and without an error at least one.
  pub read_more-Moved :
      (buf : Bytes) (c : State)
      → length buf ≤ max_buffered_bytes
      → Moved buf c (read_more conn buf c).0 (read_more conn buf c).2
        × ((read_more conn buf c).1 ≡ none → length buf < length (read_more conn buf c).0)
  unfolding read_more
  read_more-Moved buf c h = elim (Bool-cases (leb max_buffered_bytes (length buf))) [
    | inl full ↦ rw full (Moved-refl buf c h, λ e. cc)
    | inr room ↦ rw room (
        let n = min buf_size (max_buffered_bytes - length buf) in
        let chunk = (read n c).0 in
        let more = length-append buf chunk in
        (
          record {
            order = rw (read_order n c) (sym (append_assoc buf chunk _));
            bounded = ground (arith, read_fits n c, more);
            grown = omega (arith, more);
          },
          λ e. omega (arith, more, read_error-none chunk (read n c).1 e),
        ))
  ]

  read_more_error : (buf : Bytes) (c : State) → (read_more conn buf c).1 ≢ some malformed_packet
  unfolding read_more
  read_more_error buf c e = ground (arith, e)

  pub fill_step_none :
      (fuel target : ℕ) (buf : Bytes) (c : State)
      → length buf < target
      → (read_more conn buf c).1 ≡ none
      → fill conn (suc fuel) target buf c
        ≡ fill conn fuel target (read_more conn buf c).0 (read_more conn buf c).2
  unfolding fill
  fill_step_none fuel target buf c h e = rw (lt→ltb _ _ h, e)

  pub fill_step_some :
      (fuel target : ℕ) (buf : Bytes) (c : State) {err : StreamError}
      → length buf < target
      → (read_more conn buf c).1 ≡ some err
      → fill conn (suc fuel) target buf c
        ≡ (some (stop err), (read_more conn buf c).0, (read_more conn buf c).2)
  unfolding fill
  fill_step_some fuel target buf c h e = rw (lt→ltb _ _ h, e)

  pub fill_full :
      (fuel target : ℕ) (buf : Bytes) (c : State)
      → target ≤ length buf
      → fill conn fuel target buf c ≡ (none, buf, c)
  unfolding fill
  fill_full zero target buf c h = rw (le→ltb-false _ _ h)
  fill_full (suc fuel) target buf c h = rw (le→ltb-false _ _ h)

  -- With a round for each missing byte and one more, the loop ends by an error or by its test, and
  -- moves bytes only.
  pub fill-Moved :
      (fuel target : ℕ) (buf : Bytes) (c : State)
      → length buf ≤ max_buffered_bytes
      → target < fuel + length buf
      → Moved buf c (fill conn fuel target buf c).1 (fill conn fuel target buf c).2
        × FillDone target (fill conn fuel target buf c).0 (fill conn fuel target buf c).1
  fill-Moved zero target buf c h k =
      rw (fill_full zero target buf c (omega arith)) (Moved-refl buf c h, omega arith)
  fill-Moved (suc fuel) target buf c h k = elim (dec_lt (length buf) target) [
    | no enough ↦
        rw (fill_full (suc fuel) target buf c (omega arith)) (Moved-refl buf c h, omega arith)
    | yes short ↦
        let (moved, brings) = read_more-Moved buf c h in
        elim (Option-cases (read_more conn buf c).1) [
          | inl going ↦
              let longer = brings going in
              let (rest, done) =
                fill-Moved fuel target (read_more conn buf c).0 (read_more conn buf c).2
                  moved.bounded (omega arith) in
              rw (fill_step_none fuel target buf c short going)
                (Moved-trans _ _ _ _ _ _ moved rest, done)
          | inr (err, e) ↦
              rw (fill_step_some fuel target buf c short e)
                (moved, stop-Ends err (λ m. read_more_error buf c (e ∙ ap some m)))
        ]
  ]
