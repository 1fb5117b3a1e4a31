-- ===== src/Rcon.antt =====
-- mc/rcon.go: the client of the remote console, by which the server is told to stop.
--
-- The connection is what the server still sends, as bytes, and what is written to it; whether a write
-- succeeds is an argument. `io.ReadFull` fails when what is left is too short.
pub mod RoundTrip
pub mod Replies
pub mod Ending
mod Examples
use lazygate.Prelude.{
  ℕ, zero, suc, ◌+◌, ◌-◌, ◌*◌, ◌/◌, ◌%◌, ◌^◌, Bool, true, false, not, ◌&&◌, List, [], ◌∷◌, ◌++◌,
  Bytes, Option, none, some, ◌>>=◌, if◌then◌else◌, ltb, leb, ◌==◌, length, take, drop,
}
use lazygate.Proto.VarInt.{is_negative, signed_lt}

abbrev pub rcon_initial_packet_id : ℕ
rcon_initial_packet_id = 1

abbrev pub rcon_max_payload_size : ℕ
rcon_max_payload_size = 1413

abbrev pub rcon_type_auth : ℕ
rcon_type_auth = 3

abbrev pub rcon_type_auth_response : ℕ
rcon_type_auth_response = 2

abbrev pub rcon_type_exec_command : ℕ
rcon_type_exec_command = 2

pub record RconPacket : Type 0 where
  pub id : ℕ  -- int32
  pub ptype : ℕ  -- int32
  pub body : Bytes

-- `binary.LittleEndian.PutUint32` and `Uint32`
abbrev pub little_endian32 : ℕ → Bytes
little_endian32 v = v % 256 ∷ v / 2 ^ 8 % 256 ∷ v / 2 ^ 16 % 256 ∷ v / 2 ^ 24 % 256 ∷ []

abbrev pub little_endian_value : Bytes → ℕ
little_endian_value [] = 0
little_endian_value (b ∷ bs) = b + 256 * little_endian_value bs

-- The bytes that `send` writes.
unfoldable pub packet_bytes : RconPacket → Bytes
packet_bytes p =
    little_endian32 ((10 + length p.body) % 2 ^ 32)
    ++ (little_endian32 p.id ++ (little_endian32 p.ptype ++ (p.body ++ 0 ∷ 0 ∷ [])))

-- The id after `id`, an int32 that wraps around.
unfoldable pub next_packet_id : ℕ → ℕ
next_packet_id id =
    let next = (id + 1) % 2 ^ 32 in
    if signed_lt next rcon_initial_packet_id then rcon_initial_packet_id else next

pub data RconError : Type 0 where
  short bad_length write_failed too_long auth_failed : RconError
  unfinished : RconError  -- fuel that ran out

-- The value and what the server still sends, or the error.
pub data Got {ℓ} (A : Type ℓ) : Type ℓ where
  ok : A → Bytes → Got A
  failed : RconError → Got A

abbrev pub and_then {ℓ κ} : {A : Type ℓ} {B : Type κ} → Got A → (A → Bytes → Got B) → Got B
and_then (failed err) next = failed err
and_then (ok a rest) next = next a rest

-- `io.ReadFull` on a slice of `n` bytes
unfoldable pub read_full : ℕ → Bytes → Got Bytes
read_full n incoming =
    if ltb (length incoming) n then failed short else ok (take n incoming) (drop n incoming)

-- `bodyLen := length - 10`
abbrev pub body_len : ℕ → ℕ
body_len len = (len + (2 ^ 32 - 10)) % 2 ^ 32

unfoldable pub receive_packet : Bytes → Got RconPacket
unfolding read_full
receive_packet incoming = and_then (read_full 12 incoming) (λ hdr rest.
    let n = body_len (little_endian_value (take 4 hdr)) in
    if is_negative n
    then failed bad_length
    else and_then (read_full n rest) (λ body rest₂. and_then (read_full 2 rest₂) (λ term rest₃.
      ok
        (record {
          id = little_endian_value (take 4 (drop 4 hdr));
          ptype = little_endian_value (take 4 (drop 8 hdr));
          body = body;
        })
        rest₃)))

-- `Rcon`, with what is written to the server.
pub record Rcon : Type 0 where
  pub next_id : ℕ  -- nextPacketID
  pub sent : List Bytes

-- `send`: the id of the packet, if the write succeeds, and the client after it.
unfoldable pub send : Bool → ℕ → Bytes → Rcon → Option ℕ × Rcon
unfolding packet_bytes next_packet_id
send up ptype body r =
    let next = next_packet_id r.next_id in
    if up
    then (
      some r.next_id,
      record {
        next_id = next;
        sent = r.sent ++ packet_bytes (record { id = r.next_id; ptype = ptype; body = body }) ∷ [];
      },
    )
    else (none, record r { next_id = next })

-- The loop of `auth`. A packet takes a byte at least.
unfoldable pub auth_loop : ℕ → Bytes → Got Bool
unfolding receive_packet
auth_loop zero incoming = failed unfinished
auth_loop (suc fuel) incoming = and_then (receive_packet incoming) (λ p rest.
    let next = auth_loop fuel rest in
    if p.ptype == rcon_type_auth_response
    then (if is_negative p.id then failed auth_failed else ok true rest)
    else next)

-- `auth`, with a round for each byte and one more.
unfoldable pub auth : Bool → Bytes → Rcon → Bytes → Got Bool × Rcon
unfolding send auth_loop
auth up password r incoming =
    let (id, r₂) = send up rcon_type_auth password r in
    (
      elim id [ none ↦ failed write_failed | some i ↦ auth_loop (suc (length incoming)) incoming ],
      r₂,
    )

-- The loop of `receiveMultiPacketResponse`
unfoldable pub response_loop : ℕ → ℕ → Bytes → Bytes → Got Bytes
unfolding receive_packet
response_loop zero end_id result incoming = failed unfinished
response_loop (suc fuel) end_id result incoming = and_then (receive_packet incoming) (λ p rest.
    let next = response_loop fuel end_id (result ++ p.body) rest in
    if p.id == end_id then ok result rest else next)

-- `receiveMultiPacketResponse`
unfoldable pub receive_multi_packet_response : Bool → Rcon → Bytes → Got Bytes × Rcon
unfolding send response_loop
receive_multi_packet_response up r incoming =
    let (id, r₂) = send up rcon_type_exec_command [] r in
    (
      elim id [
        | none ↦ failed write_failed
        | some end_id ↦ response_loop (suc (length incoming)) end_id [] incoming
      ],
      r₂,
    )

-- `Cmd`
unfoldable pub cmd : Bool → Bytes → Rcon → Bytes → Got Bytes × Rcon
unfolding send receive_multi_packet_response
cmd up text r incoming =
    if ltb rcon_max_payload_size (length text)
    then (failed too_long, r)
    else (let (id, r₂) = send up rcon_type_exec_command text r in
        elim id [
          | none ↦ (failed write_failed, r₂)
          | some i ↦ receive_multi_packet_response up r₂ incoming
        ])
