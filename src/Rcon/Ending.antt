-- ===== src/Rcon/Ending.antt =====
-- mc/rcon.go: the loops of `auth` and of `receiveMultiPacketResponse` and their rounds.
use lazygate.Prelude.{
  ℕ, zero, suc, ◌+◌, ◌<◌, ◌≤◌, Bool, true, false, [], ◌++◌, Bytes, if◌then◌else◌, ltb, ◌==◌, length,
  take, drop, length-drop, Bool-cases, inl, inr, ◌≡◌, ◌≢◌, arith,
}
use lazygate.Proto.VarInt.{is_negative}
use lazygate.Rcon.{
  unfinished, bad_length, auth_failed, body_len, little_endian_value, rcon_max_payload_size,
  too_long, next_packet_id, Got, ok, failed, and_then, read_full, receive_packet, response_loop,
  auth_loop, auth, cmd, send, receive_multi_packet_response, Rcon, rcon_type_auth_response,
}

-- Not out of rounds, and a value leaves less than what there was by `n` bytes at least.
Takes : {A : Type 0} → ℕ → Bytes → Got A → Type 0
Takes n incoming (failed err) = err ≢ unfinished
Takes n incoming (ok a rest) = n + length rest ≤ length incoming

read_full-Takes : (n : ℕ) (incoming : Bytes) → Takes n incoming (read_full n incoming)
unfolding Takes read_full
read_full-Takes n incoming = elim (Bool-cases (ltb (length incoming) n)) [
  | inl few ↦ simp (few) (λ e. cc)
  | inr enough ↦ simp (enough) (dropped n incoming enough)
]
  where
    dropped : (n : ℕ) (bs : Bytes) → ltb (length bs) n ≡ false → n + length (drop n bs) ≤ length bs
    dropped n bs e = ground (arith, length-drop n bs)

and_then-Takes :
    {A B : Type 0} (n m : ℕ) (incoming : Bytes) (g : Got A) (next : A → Bytes → Got B)
    → Takes n incoming g
    → ((a : A) (rest : Bytes) → Takes m rest (next a rest))
    → Takes n incoming (and_then g next)
unfolding Takes
and_then-Takes n m incoming (failed err) next h goes = h
and_then-Takes {B = B} n m incoming (ok a rest) next h goes = further (next a rest) (goes a rest)
  where
    further : (g : Got B) → Takes m rest g → Takes n incoming g
    further (failed err) k = k
    further (ok b rest₂) k = omega arith

weaker :
    {A : Type 0} (n : ℕ) (incoming : Bytes) (g : Got A) → Takes n incoming g → Takes 0 incoming g
unfolding Takes
weaker n incoming (failed err) h = h
weaker n incoming (ok a rest) h = omega arith

Takes-if :
    {A : Type 0} (n : ℕ) (incoming : Bytes) (t : Bool) (x y : Got A)
    → Takes n incoming x
    → Takes n incoming y
    → Takes n incoming (if t then x else y)
Takes-if n incoming true x y h k = h
Takes-if n incoming false x y h k = k

receive_packet-Takes : (incoming : Bytes) → Takes 12 incoming (receive_packet incoming)
unfolding Takes receive_packet
receive_packet-Takes incoming =
    and_then-Takes 12 0 incoming (read_full 12 incoming) _ (read_full-Takes 12 incoming)
      (λ hdr rest.
        let n = body_len (little_endian_value (take 4 hdr)) in
        Takes-if 0 rest (is_negative n) (failed bad_length) _ (λ e. cc)
          (weaker n rest _ (
            and_then-Takes n 0 rest (read_full n rest) _ (read_full-Takes n rest) (λ body rest₂.
              weaker 2 rest₂ _ (
                and_then-Takes 2 0 rest₂ (read_full 2 rest₂) _ (read_full-Takes 2 rest₂)
                  (λ term rest₃. omega arith))))))

-- Not out of rounds.
Ends : {A : Type 0} → Got A → Type 0
Ends g = g ≢ failed unfinished

and_then-Ends :
    {A B : Type 0} (n : ℕ) (incoming : Bytes) (g : Got A) (next : A → Bytes → Got B)
    → Takes n incoming g
    → ((a : A) (rest : Bytes) → n + length rest ≤ length incoming → Ends (next a rest))
    → Ends (and_then g next)
unfolding Takes Ends
and_then-Ends n incoming (failed err) next h goes = λ e. h cc
and_then-Ends n incoming (ok a rest) next h goes = goes a rest h

Ends-if : {A : Type 0} (t : Bool) (x y : Got A) → Ends x → Ends y → Ends (if t then x else y)
Ends-if true x y h k = h
Ends-if false x y h k = k

-- The same for a result with the client beside it.
Ends-if_beside :
    {A : Type 0} (t : Bool) (x y : Got A × Rcon) → Ends x.0 → Ends y.0 → Ends (if t then x else y).0
Ends-if_beside true x y h k = h
Ends-if_beside false x y h k = k

response_loop-Ends :
    (fuel end_id : ℕ) (result incoming : Bytes)
    → length incoming < fuel
    → Ends (response_loop fuel end_id result incoming)
unfolding response_loop Ends
response_loop-Ends zero end_id result incoming enough = absurd (omega arith)
response_loop-Ends (suc fuel) end_id result incoming enough =
    and_then-Ends 12 incoming (receive_packet incoming) _ (receive_packet-Takes incoming)
      (λ p rest less.
        Ends-if (p.id == end_id) (ok result rest) _ (λ e. cc)
          (response_loop-Ends fuel end_id (result ++ p.body) rest (omega arith)))

auth_loop-Ends :
    (fuel : ℕ) (incoming : Bytes) → length incoming < fuel → Ends (auth_loop fuel incoming)
unfolding auth_loop Ends
auth_loop-Ends zero incoming enough = absurd (omega arith)
auth_loop-Ends (suc fuel) incoming enough =
    and_then-Ends 12 incoming (receive_packet incoming) _ (receive_packet-Takes incoming)
      (λ p rest less.
        Ends-if (p.ptype == rcon_type_auth_response) _ _
          (Ends-if (is_negative p.id) (failed auth_failed) (ok true rest) (λ e. cc) (λ e. cc))
          (auth_loop-Ends fuel rest (omega arith)))

-- When what the server sends is finite, neither the authentication nor a command runs out of rounds: each
-- ends in a value or in an error, whatever the server sends and whether or not the writes succeed.
pub cmd-ne-unfinished :
    (up : Bool) (text : Bytes) (r : Rcon) (incoming : Bytes)
    → ((auth up text r incoming).0 ≢ failed unfinished)
      × ((cmd up text r incoming).0 ≢ failed unfinished)
unfolding auth cmd receive_multi_packet_response send Ends
cmd-ne-unfinished false text r incoming = (
  λ e. cc,
  Ends-if_beside (ltb rcon_max_payload_size (length text)) (failed too_long, r) _ (λ e. cc)
      (λ e. cc),
)
cmd-ne-unfinished true text r incoming = (
  auth_loop-Ends (suc (length incoming)) incoming (omega arith),
  Ends-if_beside (ltb rcon_max_payload_size (length text)) (failed too_long, r) _ (λ e. cc)
      (response_loop-Ends (suc (length incoming)) (next_packet_id r.next_id) [] incoming
        (omega arith)),
)
