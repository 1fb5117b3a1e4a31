-- ===== src/Forge/Replay.antt =====
-- forge.go and server.go: the exchanges that are kept for later clients, and their replay. Setting and clearing
-- the deadline of a read succeeds; a deadline that fires is a read that fails.
pub mod Drain
pub mod Recorded
use lazygate.Prelude.{
  ℕ, zero, suc, ◌+◌, ◌-◌, ◌<◌, ◌≤◌, Bool, true, false, not, ◌&&◌, List, [], ◌∷◌, ◌++◌, Bytes,
  Option, none, some, ◌>>=◌, if◌then◌else◌, ◌==◌, length, same_bytes,
}
use lazygate.Proto.Client.{Client, login}
use lazygate.Proto.Framing.{Zlib, RawPacket, new_raw_packet}
use lazygate.Proto.Packets.{LoginPluginRequest, decode_login_plugin_request}
use lazygate.Proto.Stream.{
  Connection, Outcome, packet, ended, failed, stuck, StreamError, read_failed, timeout, read_packet,
}
use lazygate.Serve.{same_client_state}
use lazygate.Server.{ServerState, ForgeLoginExchange}
use lazygate.Forge.{Relay, write_packet_to, write_forge_login_response}

-- `SetForgeLoginCache` and `SetForgePayload`; the copies that Go makes keep later writes apart.
abbrev pub set_forge_login_cache : List ForgeLoginExchange → ServerState → ServerState
set_forge_login_cache cache server = record server { forge_login_cache = cache }

abbrev pub set_forge_payload : List Bytes → ServerState → ServerState
set_forge_payload payload server = record server { forge = payload }

-- `commit`
unfoldable pub commit : Relay → ServerState → ServerState
commit r server =
    if not (length r.exchanges == 0) then set_forge_login_cache r.exchanges server else server

-- `err == nil && cached.Channel == request.Channel && bytes.Equal(cached.Data, request.Data)`
abbrev pub is_same_request : LoginPluginRequest → Option LoginPluginRequest → Bool
is_same_request request none = false
is_same_request request (some cached) =
    same_bytes cached.channel request.channel && same_bytes cached.body request.body

-- `cachedForgeRequestMatches`
unfoldable pub cached_forge_request_matches : ForgeLoginExchange → LoginPluginRequest → Bool
cached_forge_request_matches exchange request =
    is_same_request request (decode_login_plugin_request exchange.request)

-- `replayForgeLoginResponse`
abbrev pub replay_forge_login_response :
    Zlib → Bool → Client → ForgeLoginExchange → ℕ → Option Bytes
replay_forge_login_response zlib up client exchange message_id =
    write_forge_login_response zlib up client
      (record { message_id = message_id; successful = exchange.success; body = exchange.body })

-- How the drain ends: the responses are drained, none came for too long, the client is gone, or an error.
-- `unfinished` is fuel that ran out.
pub data Drained : Type 0 where
  drained gave_up gone unfinished : Drained
  drain_failed : StreamError → Drained

-- The error of a read; a timeout only ends the drain.
abbrev pub drain_error : StreamError → Drained
drain_error (read_failed timeout) = gave_up
drain_error err = drain_failed err

-- `clientState == proto.ClientStateLogin && packet.ID == proto.PacketServerLoginPluginResponse`
abbrev pub is_voided : Client → RawPacket → Bool
is_voided client p = same_client_state client.state login && (p.id == 2)

-- After a read: `again` is the rest of the loop on what is left to count.
abbrev pub drain_outcome : {R : Type 0} → Client → ℕ → Outcome → (Drained → R) → (ℕ → R) → R
drain_outcome client left ended leave again = leave gone
drain_outcome client left (failed err) leave again = leave (drain_error err)
drain_outcome client left stuck leave again = leave unfinished
drain_outcome client left (packet p raw) leave again =
    again (if is_voided client p then left - 1 else left)

module _ (zlib : Zlib) (conn : Connection) (client : Client) where
  open conn use {State}

  -- `drainForgeResponses`. A packet takes a byte at least.
  unfoldable pub drain_forge_responses : ℕ → ℕ → Bytes → State → Drained × Bytes × State
  drain_forge_responses fuel zero buf c = (drained, buf, c)
  drain_forge_responses zero (suc left) buf c = (unfinished, buf, c)
  drain_forge_responses (suc fuel) (suc left) buf c =
      let (out, buf₂, c₂) = read_packet zlib conn client buf c in
      drain_outcome client (suc left) out (λ d. (d, buf₂, c₂))
        (λ n. drain_forge_responses fuel n buf₂ c₂)

-- The loop of `replayForgeLoginPayload`: the frames that are written and the responses to come, or the
-- error of a write.
unfoldable pub replay_requests :
    Zlib → Bool → Client → List ForgeLoginExchange → Option (List Bytes × ℕ)
replay_requests zlib up client [] = some ([], 0)
replay_requests zlib up client (x ∷ xs) = do
  frame ← write_packet_to zlib up client (new_raw_packet 4 x.request)
  (frames, expected) ← replay_requests zlib up client xs
  some (frame ∷ frames, if x.no_response then expected else expected + 1)
