-- ===== src/Lobby/Login.antt =====
-- lobby.go: `LobbyServe` from the login start to the proxy, and the packets of its login.
--
-- What is sent is kept in its order. What the lobby meets is a
-- parameter: which sends fail, how the authentication ends, whether the answers are drained, the states of the
-- server, and what the backend's join game says.
use lazygate.Prelude.{
  ℕ, ◌+◌, ◌/◌, ◌%◌, ◌^◌, Bool, true, false, ◌&&◌, ◌||◌, List, [], ◌∷◌, ◌++◌, Bytes, codes, Option,
  none, some, if◌then◌else◌, leb, ltb, ◌==◌, length, bit_and, bit_or, ◌>>=◌,
}
use lazygate.Nbt.{Compound}
use lazygate.Proto.Client.{
  Client, play, ClientInfo, GameProfile, get_protocol, is_compressed, set_compression, set_state,
}
use lazygate.Proto.Framing.{RawPacket, new_raw_packet}
use lazygate.Proto.Writer.{write, write_var_int, write_string}
use lazygate.Forge.{is_forge_fml3}
use lazygate.Server.{ServerState, ForgeLoginExchange, State, stopped, starting, started, stopping}
use lazygate.Velocity.{write_properties}
use lazygate.Play.JoinGame.{JoinGameData}
use lazygate.Play.Title.{title_packets}
use lazygate.Lobby.Params.{lobby_play_packets, lobby_respawn_packet, ready_sound_packets}

-- `proto.CompressionThreshold`
abbrev pub compression_threshold : ℕ
compression_threshold = 256

abbrev hex_char : ℕ → ℕ
hex_char d = if ltb d 10 then 48 + d else 87 + d

-- The loop over the bytes with their places.
unfoldable pub hyphenate : ℕ → Bytes → Bytes
hyphenate i [] = []
hyphenate i (b ∷ bs) =
    (if i == 4 || (i == 6) || (i == 8) || (i == 10) then 45 ∷ [] else [])
    ++ (hex_char (b / 16) ∷ hex_char (b % 16) ∷ hyphenate (i + 1) bs)

unfoldable pub hyphenated_uuid : Bytes → Bytes
unfolding hyphenate
hyphenated_uuid u = hyphenate 0 u

-- mc/uuid.go, on the 16 bytes of a hash: byte 6 with the version 3, byte 8 with the variant
unfoldable pub set_version : ℕ → Bytes → Bytes
set_version i [] = []
set_version i (b ∷ bs) =
    (if i == 6
      then bit_or (bit_and b 0x0f) 0x30
      else if i == 8
      then bit_or (bit_and b 0x3f) 0x80
      else b)
    ∷ set_version (i + 1) bs

-- `OfflinePlayerUUID`; MD5 is a parameter.
unfoldable pub offline_player_uuid : (Bytes → Bytes) → Bytes → Bytes
unfolding set_version
offline_player_uuid md5 name = set_version 0 (md5 (codes "OfflinePlayer:" ++ name))

abbrev pub login_uuid : (Bytes → Bytes) → ClientInfo → Bytes → Bytes
login_uuid md5 info name = elim info.profile [
  | none ↦ offline_player_uuid md5 name
  | some profile ↦ profile.uuid
]

abbrev pub is_from : ℕ → Option ℕ → Bool
is_from version none = false
is_from version (some p) = leb version p

-- `if protocol != nil && *protocol >= 759 { … }`
abbrev pub write_profile_properties : Bytes → Option GameProfile → Bytes
write_profile_properties w none = write_var_int w 0
write_profile_properties w (some profile) =
    write_properties (write_var_int w (length profile.properties % 2 ^ 32)) profile.properties

-- The packet of `respondLoginSuccess`.
unfoldable pub login_success_packet : (Bytes → Bytes) → ClientInfo → Bytes → RawPacket
unfolding hyphenated_uuid offline_player_uuid write_properties
login_success_packet md5 info name =
    let protocol = get_protocol info in
    let uuid = login_uuid md5 info name in
    let head =
      if is_from 735 protocol then write [] uuid else write_string [] (hyphenated_uuid uuid) in
    let named = write_string head name in
    new_raw_packet 2
      (if is_from 759 protocol then write_profile_properties named info.profile else named)

-- The packet of `respondSetCompression`.
abbrev pub set_compression_packet : ℕ → RawPacket
set_compression_packet threshold = new_raw_packet 3 (write_var_int [] threshold)

pub record LobbyConfig : Type 0 where
  pub online_mode : Bool  -- Auth.OnlineMode
  pub forge : Bool  -- Server.Forge
  pub message : Bytes  -- Join.Lobby.Message
  pub ready_sound : Option Bytes  -- Join.Lobby.ReadySound

-- What the lobby meets. `reaches n` says whether the send after n others reaches the client.
pub record World : Type 0 where
  pub reaches : ℕ → Bool
  pub authenticated : Option GameProfile
  pub drained : Bool
  pub received : List State
  pub server : ServerState
  pub probed : Option JoinGameData
  pub joined : Option JoinGameData
  pub default_codec : Compound
  pub default_dimension : Compound

-- `waitForServer`, on the states that its subscription delivers before the timeout
unfoldable pub wait_for_server : List State → Bool
wait_for_server [] = false
wait_for_server (starting ∷ rest) = wait_for_server rest
wait_for_server (started ∷ rest) = true
wait_for_server (stopping ∷ rest) = false
wait_for_server (stopped ∷ rest) = false

-- What is written to the client: a packet with the threshold that it is framed with, or the bytes of a
-- frame that a probe recorded.
pub data Sent : Type 0 where
  built : ℕ → RawPacket → Sent
  recorded : Bytes → Sent

pub record LobbyState : Type 0 where
  pub client : Client
  pub info : ClientInfo
  pub started : Bool
  pub sent : List Sent

-- `sent.Write` on the client's connection: the packet with its framing, or the error
unfoldable pub send_packet : World → RawPacket → LobbyState → Option LobbyState
send_packet w p s =
    if w.reaches (length s.sent)
    then some (record s { sent = s.sent ++ built s.client.compression p ∷ [] })
    else none

unfoldable pub send_all : World → List RawPacket → LobbyState → Option LobbyState
unfolding send_packet
send_all w [] s = some s
send_all w (p ∷ ps) s = send_packet w p s >>= send_all w ps

-- `respondSetCompression` and `client.SetCompression`
unfoldable pub enable_compression : World → LobbyState → Option LobbyState
unfolding send_packet
enable_compression w s = do
  t ← send_packet w (set_compression_packet compression_threshold) s
  some (record t { client = set_compression compression_threshold t.client })

-- `ensureClientCompression`: the threshold is not negative, so that compression is active afterwards.
unfoldable pub ensure_client_compression : World → LobbyState → Option LobbyState
unfolding enable_compression
ensure_client_compression w s =
    if is_compressed s.client
    then (if s.client.compression == compression_threshold then some s else none)
    else enable_compression w s

-- The requests of `replayForgeLoginPayload`.
abbrev pub requests_of : List ForgeLoginExchange → List RawPacket
requests_of [] = []
requests_of (x ∷ xs) = new_raw_packet 4 x.request ∷ requests_of xs

-- `replayColdForgeLogin`
unfoldable pub replay_cold_forge_login : World → LobbyState → Option LobbyState
unfolding ensure_client_compression send_all
replay_cold_forge_login w s = do
  t ← ensure_client_compression w s
  u ← send_all w (requests_of w.server.forge_login_cache) t
  if w.drained then some u else none

-- The loop of `replayLoginPayload` over the recorded frames: a frame that does not reach the client is
-- passed over.
unfoldable pub send_recorded : World → List Bytes → LobbyState → LobbyState
send_recorded w [] s = s
send_recorded w (frame ∷ frames) s =
    send_recorded w frames
      (if w.reaches (length s.sent) then record s { sent = s.sent ++ recorded frame ∷ [] } else s)

-- The replay to a Forge client, by its protocol, and whether compression was sent.
abbrev pub replay_by : World → LobbyState → Bool → Bool → Option (LobbyState × Bool)
replay_by w s true forge = do t ← replay_cold_forge_login w s; some (t, true)
replay_by w s false true =
    let t = send_recorded w w.server.forge s in if w.drained then some (t, false) else none
replay_by w s false false = some (s, false)

unfoldable pub replay_forge : LobbyConfig → World → LobbyState → Option (LobbyState × Bool)
unfolding replay_cold_forge_login send_recorded
replay_forge config w s = replay_by w s (config.forge && is_forge_fml3 s.info) config.forge

abbrev pub compress_unless : World → LobbyState → Bool → Option LobbyState
compress_unless w s true = some s
compress_unless w s false = enable_compression w s

-- From the replay to the play state.
unfoldable pub enter_play :
    (Bytes → Bytes) → LobbyConfig → World → Bytes → LobbyState → Option LobbyState
unfolding replay_forge enable_compression
enter_play md5 config w name s = do
  (t, compression_sent) ← replay_forge config w s
  u ← compress_unless w t compression_sent
  v ← send_packet w (login_success_packet md5 u.info name) u
  some (record v { client = set_state play v.client })

-- From the play packets to the proxy: the world, the wait, the backend, the empty title, the sound and
-- the respawn.
unfoldable pub lobby_stay : LobbyConfig → World → LobbyState → Option LobbyState
unfolding send_all
lobby_stay config w s = do
  t ←
      send_all w
        (lobby_play_packets w.default_codec w.default_dimension s.info w.server.status w.probed) s
  joined ← (if wait_for_server w.received then w.joined else none)
  u ← send_all w (title_packets t.info []) t
  v ← send_all w (ready_sound_packets u.info config.ready_sound) u
  send_packet w (lobby_respawn_packet w.default_codec w.default_dimension v.info joined) v

-- `LobbyServe` on a login start: an error closes the connection, before or after the start of the server, a hot bootstrap is left to the relay
-- with the state at its start, and else the client is proxied.
pub data Served : Type 0 where
  closed : Bool → Served
  hot proxied : LobbyState → Served

abbrev pub hot_or_closed : Option LobbyState → Served
hot_or_closed none = closed true
hot_or_closed (some s) = hot s

abbrev pub proxied_or_closed : Option LobbyState → Served
proxied_or_closed none = closed true
proxied_or_closed (some s) = proxied s

-- `server.Start`, and the rest
unfoldable pub lobby_started :
    (Bytes → Bytes) → LobbyConfig → World → Bytes → LobbyState → Bool → Served
unfolding ensure_client_compression enter_play lobby_stay
lobby_started md5 config w name s true =
    if wait_for_server w.received
    then hot_or_closed (ensure_client_compression w s)
    else closed true
lobby_started md5 config w name s false =
    proxied_or_closed (enter_play md5 config w name s >>= lobby_stay config w)

-- `config.Server.Forge && isForgeFML3(&clientInfo) && len(server.ForgeLoginCache()) == 0`
abbrev pub is_hot : LobbyConfig → World → ClientInfo → Bool
is_hot config w info =
    config.forge && is_forge_fml3 info && (length w.server.forge_login_cache == 0)

unfoldable pub lobby_after_start :
    (Bytes → Bytes) → LobbyConfig → World → Bytes → LobbyState → Served
unfolding lobby_started
lobby_after_start md5 config w name s =
    lobby_started md5 config w name (record s { started = true }) (is_hot config w s.info)

-- `authenticateLobbyClient`: with a profile its name counts from there on.
abbrev pub lobby_authenticated :
    (Bytes → Bytes) → LobbyConfig → World → LobbyState → Option GameProfile → Served
lobby_authenticated md5 config w s none = closed false
lobby_authenticated md5 config w s (some profile) =
    lobby_after_start md5 config w profile.name
      (record s { info = record (s.info) { profile = some profile; username = some profile.name } })

unfoldable pub lobby_login : (Bytes → Bytes) → LobbyConfig → World → Bytes → LobbyState → Served
unfolding lobby_after_start
lobby_login md5 config w name s =
    if config.online_mode
    then lobby_authenticated md5 config w s w.authenticated
    else lobby_after_start md5 config w name s
