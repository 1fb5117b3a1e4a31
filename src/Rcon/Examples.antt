-- ===== src/Rcon/Examples.antt =====
-- The theorems on RCON for a server that answers a command in two parts.
use lazygate.Prelude.{true, List, [], ◌∷◌, Bytes, codes, All, ◌≡◌, arith}
use lazygate.Rcon.{RconPacket, Rcon, auth, cmd, next_packet_id}
use lazygate.Rcon.RoundTrip.{IsPacket}
use lazygate.Rcon.Replies.{wire, reply, as_got, verdict, rcon_refines}

abbrev fresh : Rcon
fresh = record { next_id = 1; sent = [] }

abbrev part : Bytes → RconPacket
part text = record { id = 1; ptype = 0; body = text }

abbrev marker : RconPacket
marker = record { id = 2; ptype = 0; body = codes "Unknown request" }

abbrev answered : List RconPacket
answered = part (codes "Stopping ") ∷ part (codes "the server") ∷ marker ∷ []

answered-fit : All IsPacket answered
answered-fit = (
  record { id = omega arith; ptype = omega arith; body = omega arith },
  (
    record { id = omega arith; ptype = omega arith; body = omega arith },
    (record { id = omega arith; ptype = omega arith; body = omega arith }, tt),
  ),
)

rcon_refines_example :
    ((auth true (codes "stop") fresh (wire answered)).0 ≡ verdict answered)
    × ((cmd true (codes "stop") fresh (wire answered)).0
        ≡ as_got [] (reply (next_packet_id 1) answered))
rcon_refines_example = rcon_refines (codes "stop") fresh answered (omega arith) answered-fit
