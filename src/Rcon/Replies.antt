-- ===== src/Rcon/Replies.antt =====
-- mc/rcon.go: `Cmd` and `auth` on a server that sends packets.
use lazygate.Prelude.{
  ℕ, zero, suc, ◌^◌, ◌<◌, ◌≤◌, Bool, true, false, List, [], ◌∷◌, ◌++◌, Bytes, Option, none, some,
  ◌>>=◌, if◌then◌else◌, ltb, ◌==◌, length, length-append, All, append_assoc, append-nil, ◌≡◌, ◌≢◌,
  refl, sym, ◌∙◌, ap, arith, Bool-cases, inl, inr, ==_iff,
}
use lazygate.Proto.VarInt.{is_negative}
use lazygate.Rcon.{
  RconPacket, packet_bytes, short, auth_failed, Got, ok, failed, read_full, response_loop,
  receive_multi_packet_response, auth_loop, auth, cmd, send, Rcon, next_packet_id,
  rcon_max_payload_size, rcon_type_auth_response,
}
use lazygate.Rcon.RoundTrip.{IsPacket, receive_packet-packet_bytes}

-- The packets one after the other.
pub wire : List RconPacket → Bytes
wire [] = []
wire (p ∷ ps) = packet_bytes p ++ wire ps

-- The response by packets: the bodies in front of the first packet with the id of the end marker, and the
-- packets behind it; none when there is no such packet.
pub reply : ℕ → List RconPacket → Option (Bytes × List RconPacket)
reply end_id [] = none
reply end_id (p ∷ ps) =
    let later = reply end_id ps in
    if p.id == end_id then some ([], ps) else (do (text, rest) ← later; some (p.body ++ text, rest))

-- A response by packets as `Cmd` gives it.
abbrev pub as_got : Bytes → Option (Bytes × List RconPacket) → Got Bytes
as_got result none = failed short
as_got result (some (text, rest)) = ok (result ++ text) (wire rest)

read_full_nothing : read_full 12 [] ≡ failed short
unfolding read_full
read_full_nothing = refl

response_loop_refines :
    (fuel end_id : ℕ) (result : Bytes) (ps : List RconPacket)
    → All IsPacket ps
    → length ps < fuel
    → response_loop fuel end_id result (wire ps) ≡ as_got result (reply end_id ps)
unfolding response_loop wire reply
response_loop_refines zero end_id result ps fit enough = absurd (omega arith)
response_loop_refines (suc fuel) end_id result [] fit enough = rw read_full_nothing refl
response_loop_refines (suc fuel) end_id result (p ∷ ps) (fits, fit) enough =
    rw (receive_packet-packet_bytes p (wire ps) fits) (elim (Bool-cases (p.id == end_id)) [
      | inl ends ↦ simp (ends, append-nil)
      | inr goes ↦ simp (goes) (
          response_loop_refines fuel end_id (result ++ p.body) ps fit (omega arith)
          ∙ joined (reply end_id ps))
    ])
  where
    joined :
        (later : Option (Bytes × List RconPacket))
        → as_got (result ++ p.body) later
          ≡ as_got result (do (text, rest) ← later; some (p.body ++ text, rest))
    joined none = refl
    joined (some (text, rest)) = ap (λ t. ok t (wire rest)) (append_assoc result p.body text)

length-packet_bytes : (p : RconPacket) → 1 ≤ length (packet_bytes p)
unfolding packet_bytes
length-packet_bytes p = omega arith

length-wire : (ps : List RconPacket) → length ps ≤ length (wire ps)
unfolding wire
length-wire [] = omega arith
length-wire (p ∷ ps) =
    omega (arith, length-append (packet_bytes p) (wire ps), length-packet_bytes p, length-wire ps)

-- `Cmd` on a server that sends packets.
cmd_refines :
    (text : Bytes) (r : Rcon) (ps : List RconPacket)
    → length text ≤ rcon_max_payload_size
    → All IsPacket ps
    → (cmd true text r (wire ps)).0 ≡ as_got [] (reply (next_packet_id r.next_id) ps)
unfolding cmd receive_multi_packet_response send
cmd_refines text r ps short_text fit = rw (allowed (length text) short_text) (
    response_loop_refines (suc (length (wire ps))) (next_packet_id r.next_id) [] ps fit
      (omega (arith, length-wire ps)))
  where
    allowed : (n : ℕ) → n ≤ rcon_max_payload_size → ltb rcon_max_payload_size n ≡ false
    allowed n h = ground arith

-- An id that `send` uses: from 1 to 2^31 - 1.
abbrev pub IsId : ℕ → Type 0
IsId id = (1 ≤ id) × (id < 2 ^ 31)

-- From such an id the next is such an id again, and another one.
pub next_packet_id-IsId : (id : ℕ) → IsId id → IsId (next_packet_id id) × (next_packet_id id ≢ id)
unfolding next_packet_id
next_packet_id-IsId id h = ground arith

pub bodies : List RconPacket → Bytes
bodies [] = []
bodies (p ∷ ps) = p.body ++ bodies ps

reply-bodies :
    (id : ℕ) (parts : List RconPacket) (last : RconPacket) (rest : List RconPacket)
    → All (λ (p : RconPacket). p.id ≡ id) parts
    → last.id ≢ id
    → reply last.id (parts ++ last ∷ rest) ≡ some (bodies parts, rest)
unfolding reply bodies
reply-bodies id [] last rest same other = rw ((==_iff last.id last.id).1 refl) refl
reply-bodies id (p ∷ parts) last rest (same_id, same) other =
    let differs : (p.id == last.id) ≡ false = ground arith in
    rw (differs, reply-bodies id parts last rest same other) refl

-- When the server answers a command of at most 1413 bytes by parts under the command's id, whose fields fit, and
-- then the end marker under the next id, the result is the bodies of the parts joined, whatever the server
-- sends behind the marker, which is left.
pub cmd_response :
    (text : Bytes) (r : Rcon) (parts : List RconPacket) (last : RconPacket) (rest : List RconPacket)
    → length text ≤ rcon_max_payload_size
    → IsId r.next_id
    → All IsPacket (parts ++ last ∷ rest)
    → All (λ (p : RconPacket). p.id ≡ r.next_id) parts
    → last.id ≡ next_packet_id r.next_id
    → (cmd true text r (wire (parts ++ last ∷ rest))).0 ≡ ok (bodies parts) (wire rest)
cmd_response text r parts last rest short_text is_id fit same marks =
    let other = (next_packet_id-IsId r.next_id is_id).1 in
    cmd_refines text r (parts ++ last ∷ rest) short_text fit
    ∙ (ap (λ i. as_got [] (reply i (parts ++ last ∷ rest))) (sym marks)
        ∙ ap (as_got []) (reply-bodies r.next_id parts last rest same (λ e. other (sym marks ∙ e))))

-- The outcome of the authentication by packets: the first authentication response decides, by the sign of its id.
pub verdict : List RconPacket → Got Bool
verdict [] = failed short
verdict (p ∷ ps) =
    let later = verdict ps in
    if p.ptype == rcon_type_auth_response
    then (if is_negative p.id then failed auth_failed else ok true (wire ps))
    else later

auth_loop_refines :
    (fuel : ℕ) (ps : List RconPacket)
    → All IsPacket ps
    → length ps < fuel
    → auth_loop fuel (wire ps) ≡ verdict ps
unfolding auth_loop wire verdict
auth_loop_refines zero ps fit enough = absurd (omega arith)
auth_loop_refines (suc fuel) [] fit enough = refl
auth_loop_refines (suc fuel) (p ∷ ps) (fits, fit) enough =
    rw (receive_packet-packet_bytes p (wire ps) fits, auth_loop_refines fuel ps fit (omega arith))
      refl

-- `auth` on a server that sends packets.
auth_refines :
    (password : Bytes) (r : Rcon) (ps : List RconPacket)
    → All IsPacket ps
    → (auth true password r (wire ps)).0 ≡ verdict ps
unfolding auth send
auth_refines password r ps fit =
    auth_loop_refines (suc (length (wire ps))) ps fit (omega (arith, length-wire ps))

-- On a server that sends any packets whose fields fit and then nothing, with writes that succeed, the loops over
-- bytes do what is specified on the list of packets. The authentication ends as the first authentication
-- response says, by the sign of its id, and by an error when there is none. A command of at most 1413 bytes gives
-- the bodies in front of the first packet with the id after the command's, joined, and leaves what is behind
-- it, and gives an error when there is none.
pub rcon_refines :
    (text : Bytes) (r : Rcon) (ps : List RconPacket)
    → length text ≤ rcon_max_payload_size
    → All IsPacket ps
    → ((auth true text r (wire ps)).0 ≡ verdict ps)
      × ((cmd true text r (wire ps)).0 ≡ as_got [] (reply (next_packet_id r.next_id) ps))
rcon_refines text r ps short_text fit =
    (auth_refines text r ps fit, cmd_refines text r ps short_text fit)
