-- ===== src/Lobby/Connect.antt =====
-- lobby.go: `connectToServerNoTimeout` once the handshake and the login start are written: the login at
-- the backend. A round is one read from the backend, with what the peers do in it; behind the last round
-- the backend has closed the connection.
pub mod Steps
pub mod Forwarding
pub mod Hot
use lazygate.Prelude.{
  ℕ, suc, ◌+◌, Bool, true, false, not, ◌&&◌, List, [], ◌∷◌, ◌++◌, Bytes, Option, none, some, ◌>>=◌,
  if◌then◌else◌, ltb, ◌==◌, length, get_elem?, same_bytes,
}
use lazygate.Proto.Client.{
  Client, ClientState, login, play, ClientInfo, is_compressed, set_compression, set_state,
  new_client,
}
use lazygate.Proto.Framing.{Zlib, RawPacket, new_raw_packet}
use lazygate.Proto.Packets.{LoginPluginRequest, decode_login_plugin_request, decode_set_compression}
use lazygate.Proto.Stream.{Outcome, packet, ended, failed, stuck}
use lazygate.Forge.{
  Relay, Relayed, Peers, is_forge_fml3, forge_channel_login_wrapper, write_packet_to,
  write_forge_login_response, relay_forge_login_request,
}
use lazygate.Forge.Answer.{respond_login_plugin_request}
use lazygate.Forge.Replay.{commit, cached_forge_request_matches, replay_forge_login_response}
use lazygate.Serve.{same_client_state}
use lazygate.Server.{ServerState, ForgeLoginExchange}
use lazygate.Velocity.{velocity_player_info_channel, respond_velocity_forwarding}

-- What the login does not change. `has_server` is `server != nil`.
pub record Backend : Type 0 where
  pub zlib : Zlib
  pub hmac : Bytes → Bytes → Bytes
  pub secret : Option Bytes
  pub is_blank : Bytes → Bool
  pub address : Bytes
  pub online_mode : Bool
  pub forge : Bool
  pub has_server : Bool
  pub info : ClientInfo

-- `tmpClient`, the relay with its client, the counters, the server, and the frames that were written.
pub record BackendLogin : Type 0 where
  pub backend : Client
  pub client : Client
  pub relay : Option Relay
  pub replay_index : ℕ
  pub profile_forwarded : Bool
  pub server : ServerState
  pub to_backend : List Bytes
  pub to_client : List Bytes

pub record Round : Type 0 where
  pub outcome : Outcome
  pub peers : Peers

-- `break`, `continue` and the end of a round, and the return of the connection
pub data Next : Type 0 where
  leave : Next
  stay finish : BackendLogin → Next

-- A frame for the backend, or the error of its write.
abbrev pub answered : BackendLogin → Option Bytes → Next
answered s none = leave
answered s (some frame) = stay (record s { to_backend = s.to_backend ++ frame ∷ [] })

-- The packet goes on to the client, before its compression is set.
abbrev pub told_client : BackendLogin → ℕ → Option Bytes → Next
told_client s threshold none = leave
told_client s threshold (some frame) = stay (record s {
  backend = set_compression threshold s.backend;
  client = set_compression threshold s.client;
  to_client = s.to_client ++ frame ∷ [];
})

abbrev pub set_backend : BackendLogin → ℕ → BackendLogin
set_backend s threshold = record s { backend = set_compression threshold s.backend }

-- With a relay, the client's compression has to be the backend's.
abbrev pub compression_by : Backend → Round → BackendLogin → RawPacket → ℕ → Option Relay → Next
compression_by b round s p threshold none = stay (set_backend s threshold)
compression_by b round s p threshold (some r) =
    if is_compressed s.client
    then (if s.client.compression == threshold then stay (set_backend s threshold) else leave)
    else told_client s threshold (write_packet_to b.zlib round.peers.client_up s.client p)

abbrev pub on_set_compression : Backend → Round → BackendLogin → RawPacket → Option ℕ → Next
on_set_compression b round s p none = leave
on_set_compression b round s p (some threshold) = compression_by b round s p threshold s.relay

-- The frame of the forwarding answer: the profile is forwarded, or the login ends.
abbrev pub forwarded : BackendLogin → Option Bytes → Next
forwarded s none = leave
forwarded s (some frame) =
    stay (record s { profile_forwarded = true; to_backend = s.to_backend ++ frame ∷ [] })

abbrev pub forwarding_frame : Backend → Round → BackendLogin → LoginPluginRequest → Option Bytes
forwarding_frame b round s request = do
  body ← respond_velocity_forwarding b.hmac b.secret b.is_blank b.address request b.info.profile
  write_packet_to b.zlib round.peers.backend_up s.backend (new_raw_packet 2 body)

-- What the relay leaves, if it had no error.
abbrev pub relayed : BackendLogin → Relayed → Next
relayed s out =
    if out.ok
    then stay (record s {
      relay = some out.relay;
      to_backend = s.to_backend ++ out.to_backend;
      to_client = s.to_client ++ out.to_client;
    })
    else leave

abbrev pub rejection : Backend → Round → BackendLogin → LoginPluginRequest → Option Bytes
rejection b round s request =
    write_forge_login_response b.zlib round.peers.backend_up s.backend
      (record { message_id = request.message_id; successful = false; body = [] })

-- The exchange at the replay index: past the last one a rejection.
abbrev pub replayed :
    Backend → Round → BackendLogin → LoginPluginRequest → Option ForgeLoginExchange → Next
replayed b round s request none = answered s (rejection b round s request)
replayed b round s request (some exchange) =
    let t : BackendLogin = record s { replay_index = s.replay_index + 1 } in
    if not (cached_forge_request_matches exchange request)
    then leave
    else if exchange.no_response
    then stay t
    else answered t (
        replay_forge_login_response b.zlib round.peers.backend_up s.backend exchange
          request.message_id)

-- Without a relay: the cached answers, a rejection for FML3, the legacy answer, or a rejection.
unfoldable pub unrelayed : Backend → Round → BackendLogin → LoginPluginRequest → Next
unrelayed b round s request =
    let cache = s.server.forge_login_cache in
    if b.has_server
      && (same_bytes request.channel forge_channel_login_wrapper && not (length cache == 0))
    then replayed b round s request (get_elem? cache s.replay_index)
    else if b.forge && is_forge_fml3 b.info
    then answered s (rejection b round s request)
    else if b.forge
    then answered s (respond_login_plugin_request b.zlib round.peers.backend_up s.backend request)
    else answered s (rejection b round s request)

abbrev pub by_relay : Backend → Round → BackendLogin → LoginPluginRequest → Option Relay → Next
by_relay b round s request none = unrelayed b round s request
by_relay b round s request (some r) =
    relayed s (relay_forge_login_request b.zlib round.peers s.client s.backend r request)

abbrev pub on_plugin_request : Backend → Round → BackendLogin → Option LoginPluginRequest → Next
on_plugin_request b round s none = leave
on_plugin_request b round s (some request) =
    if same_bytes request.channel velocity_player_info_channel
    then forwarded s (forwarding_frame b round s request)
    else by_relay b round s request s.relay

-- The relay's client gets the login success, and the relay's exchanges become the server's cache.
abbrev pub success_told : BackendLogin → Relay → Option Bytes → Next
success_told s r none = leave
success_told s r (some frame) = finish (record s {
  backend = set_state play s.backend;
  client = set_state play s.client;
  server = commit r s.server;
  to_client = s.to_client ++ frame ∷ [];
})

abbrev pub success_by : Backend → Round → BackendLogin → RawPacket → Option Relay → Next
success_by b round s p none = finish (record s { backend = set_state play s.backend })
success_by b round s p (some r) =
    success_told s r (write_packet_to b.zlib round.peers.client_up s.client p)

abbrev pub on_login_success : Backend → Round → BackendLogin → RawPacket → Next
on_login_success b round s p =
    if b.online_mode && not s.profile_forwarded then leave else success_by b round s p s.relay

-- A packet in the login, by its id: 3 is the compression, 1 an encryption request, 4 a plugin request,
-- 2 the login success and 0 the disconnect.
unfoldable pub on_packet : Backend → Round → BackendLogin → RawPacket → Next
unfolding unrelayed
on_packet b round s p =
    if not (same_client_state s.backend.state login)
    then stay s
    else if p.id == 3
    then on_set_compression b round s p (decode_set_compression p.body)
    else if p.id == 1
    then leave
    else if p.id == 4
    then on_plugin_request b round s (decode_login_plugin_request p.body)
    else if p.id == 2
    then on_login_success b round s p
    else if p.id == 0
    then leave
    else stay s

abbrev pub on_outcome : Backend → Round → BackendLogin → Outcome → Next
on_outcome b round s (packet p raw) = on_packet b round s p
on_outcome b round s ended = leave
on_outcome b round s (failed err) = leave
on_outcome b round s stuck = leave

abbrev pub then_go : Next → (BackendLogin → Option BackendLogin) → Option BackendLogin
then_go leave go = none
then_go (stay s) go = go s
then_go (finish s) go = some s

unfoldable pub backend_login : Backend → List Round → BackendLogin → Option BackendLogin
unfolding on_packet
backend_login b [] s = none
backend_login b (round ∷ rounds) s =
    then_go (on_outcome b round s round.outcome) (backend_login b rounds)

-- The state before the first read: `tmpClient` in the login, with the relay or without.
abbrev pub start_login : Client → Option Relay → ServerState → BackendLogin
start_login client relay server = record {
  backend = set_state login new_client;
  client = client;
  relay = relay;
  replay_index = 0;
  profile_forwarded = false;
  server = server;
  to_backend = [];
  to_client = [];
}
