-- ===== src/Proto/Stream.antt =====
-- proto/stream.go: reading one packet from a connection, over a buffer that outlives the call.
--
-- The connection is a parameter. A deadline that fires is a read that fails: `armReadTimeout` only
-- makes `conn.Read` fail, and takes the deadline back when the call returns.
pub mod Filling
pub mod Conservation
pub mod Flow
pub mod Frame
pub mod Delivery
pub mod Retry
pub mod Examples
use lazygate.Prelude.{
  ℕ, zero, suc, ◌+◌, ◌-◌, ◌*◌, ◌<◌, ◌≤◌, ◌^◌, min, Bool, true, false, not, ◌&&◌, ◌||◌, [], ◌∷◌,
  ◌++◌, ltb, leb, ◌==◌, if◌then◌else◌, length, take, drop, Bytes, ◌≡◌, Option, none, some,
}
use lazygate.Proto.VarInt.{read_var_int, is_negative, signed_lt}
use lazygate.Proto.Client.{Client, is_compressed}
use lazygate.Proto.Framing.{Zlib, RawPacket, decode_with_len}

abbrev pub buf_size : ℕ
buf_size = 8 * 1024

abbrev pub max_packet_length : ℕ
max_packet_length = 2 ^ 20

abbrev pub max_buffered_bytes : ℕ
max_buffered_bytes = max_packet_length + 5

-- What `conn.Read` fails with.
pub data Failure : Type 0 where
  eof conn_reset timeout other : Failure

-- `conn.Read`: at most as many bytes as there is room for, and perhaps an error beside them.
-- `pending` is what the connection has still to deliver; reading takes it from the front.
pub record Connection : Type 1 where
  pub State : Type 0
  pub read : ℕ → State → Bytes × Option Failure × State
  pub pending : State → Bytes
  pub read_fits : (n : ℕ) (c : State) → length (read n c).0 ≤ n
  pub read_order : (n : ℕ) (c : State) → pending c ≡ (read n c).0 ++ pending (read n c).2

pub data StreamError : Type 0 where
  buffer_limit no_progress malformed_packet packet_too_large : StreamError
  read_failed : Failure → StreamError

-- `errors.Is(err, io.EOF) || errors.Is(err, syscall.ECONNRESET)`
abbrev pub is_end : StreamError → Bool
is_end (read_failed eof) = true
is_end (read_failed conn_reset) = true
is_end _ = false

-- The four results of the source as the cases that its callers tell apart. `stuck` is none of them:
-- the model's fuel ran out, which `read_packet-ne-stuck` excludes.
pub data Outcome : Type 0 where
  packet : RawPacket → Bytes → Outcome
  ended : Outcome
  failed : StreamError → Outcome
  stuck : Outcome

abbrev pub stop : StreamError → Outcome
stop err = if is_end err then ended else failed err

-- The error that `readMore` returns for what `conn.Read` returned.
abbrev pub read_error : Bytes → Option Failure → Option StreamError
read_error chunk (some f) = some (read_failed f)
read_error chunk none = if length chunk == 0 then some no_progress else none

module _ (conn : Connection) where
  open conn use {State, read}

  -- The new buffer, the error or none, the connection.
  unfoldable pub read_more : Bytes → State → Bytes × Option StreamError × State
  read_more buf c =
      if leb max_buffered_bytes (length buf)
      then (buf, some buffer_limit, c)
      else (let (chunk, failure, c') = read (min buf_size (max_buffered_bytes - length buf)) c in
          (buf ++ chunk, read_error chunk failure, c'))

-- `if err := readMore(buf, conn); err != nil { … }`, and the next round
abbrev pub fill_next {ℓ} :
    {S : Type 0} {R : Type ℓ}
    → Bytes × Option StreamError × S
    → (Outcome → Bytes → S → R)
    → (Bytes → S → R)
    → R
fill_next (buf, some err, c) leave again = leave (stop err) buf c
fill_next (buf, none, c) leave again = again buf c

-- `!ok || dataLen < 0 || dataLen > MaxPacketLength`
abbrev pub data_len_too_large : Bytes → Bool
data_len_too_large frame = elim (read_var_int frame) [
  | none ↦ true
  | some (_, n) ↦ is_negative n || signed_lt max_packet_length n
]

module _ (conn : Connection) where
  open conn use {State}

  -- `for len(*buf) < target { … }`: the outcome that ends the call, or none when the target is
  -- reached. Each round reads a byte at least, so `target + 1` rounds are enough.
  unfoldable pub fill : ℕ → ℕ → Bytes → State → Option Outcome × Bytes × State
  fill zero target buf c = if ltb (length buf) target then (some stuck, buf, c) else (none, buf, c)
  fill (suc fuel) target buf c =
      let next =
        fill_next (read_more conn buf c) (λ out buf' c'. (some out, buf', c')) (fill fuel target) in
      if ltb (length buf) target then next else (none, buf, c)

module _ (zlib : Zlib) (conn : Connection) (client : Client) where
  open conn use {State}

  -- From `if client.IsCompressed()` on: the frame is in the buffer.
  unfoldable pub parse_frame : ℕ → ℕ → Bytes → State → Outcome × Bytes × State
  parse_frame consumed total buf c =
      if is_compressed client && data_len_too_large (drop consumed (take total buf))
      then (failed packet_too_large, buf, c)
      else elim (decode_with_len zlib client (take total buf)) [
        | none ↦ (failed malformed_packet, buf, c)
        | some p ↦ (packet p (take total buf), drop total buf, c)
      ]

  -- From `if pktLen < 0` on: the length is read.
  unfoldable pub read_body : ℕ → ℕ → Bytes → State → Outcome × Bytes × State
  read_body consumed pkt_len buf c =
      if is_negative pkt_len
      then (failed malformed_packet, buf, c)
      else if signed_lt max_packet_length pkt_len
      then (failed packet_too_large, buf, c)
      else if ltb max_buffered_bytes (consumed + pkt_len)
      then (failed packet_too_large, buf, c)
      else (let (out, buf', c') = fill conn (suc (consumed + pkt_len)) (consumed + pkt_len) buf c in
          elim out [
            | some o ↦ (o, buf', c')
            | none ↦ parse_frame consumed (consumed + pkt_len) buf' c'
          ])

  -- From the first `ReadVarInt` on: two bytes are in the buffer.
  unfoldable pub read_length : Bytes → State → Outcome × Bytes × State
  read_length buf c = elim (read_var_int buf) [
    | none ↦ (failed malformed_packet, buf, c)
    | some (consumed, pkt_len) ↦ read_body consumed pkt_len buf c
  ]

  unfoldable pub read_packet : Bytes → State → Outcome × Bytes × State
  read_packet buf c =
      if ltb max_buffered_bytes (length buf)
      then (failed buffer_limit, buf, c)
      else (let (out, buf', c') = fill conn 3 2 buf c in
          elim out [ some o ↦ (o, buf', c') | none ↦ read_length buf' c' ])
