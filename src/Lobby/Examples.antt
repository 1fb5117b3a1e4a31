-- ===== src/Lobby/Examples.antt =====
-- The theorems on the lobby at a Forge client of 1.20.1, with empty compounds for the embedded texts.
use lazygate.Nbt.{tag_float, tag_string, tag_compound, tag_list, one_tag, no_tags, entry, Compound}
use lazygate.Nbt.Encodable.{AreEntries}
use lazygate.Play.JoinGame.{JoinGameData}
use lazygate.Prelude.{codes, arith}
use lazygate.Prelude.{List, true, false, [], ◌∷◌, ◌++◌, Bytes, some, none, ◌≡◌, refl}
use lazygate.Nbt.{new_compound}
use lazygate.Nbt.Reader.{ok}
use lazygate.Forge.{new_forge_login_relay, Peers}
use lazygate.Play.Ids.{is_v1_20_1, join_game_is_packet}
use lazygate.Play.JoinGame.{join_game_data_from_packet}
use lazygate.Play.JoinGame.RoundTrip.{seen_by}
use lazygate.Play.Lobby.{join_game_packet}
use lazygate.Proto.Client.{Client, login, play, ClientInfo, minus_one, get_protocol}
use lazygate.Proto.Framing.{RawPacket}
use lazygate.Proto.Framing.Examples.{stored}
use lazygate.Proto.Stream.{packet, ended}
use lazygate.Server.{new_server_state, starting, started}
use lazygate.Velocity.{velocity_player_info_channel}
use lazygate.Lobby.Params.{lobby_join_game_params, lobby_join_game_packet_lem}
use lazygate.Lobby.Login.{World, LobbyConfig, LobbyState, lobby_login}
use lazygate.Lobby.Framing.{Followed, lobby_login-Followed}
use lazygate.Lobby.Connect.{Backend, BackendLogin, Round, backend_login, start_login}
use lazygate.Lobby.Connect.Forwarding.{ForwardingSent, backend_login-ForwardingSent}
use lazygate.Lobby.Connect.Hot.{InStep, backend_login-InStep}
use lazygate.Lobby.JoinWait.{
  Read, Joined, wait_for_server_join_game, wait_for_server_join_game-Joined,
}

abbrev modern : ClientInfo
modern = record {
  protocol = some 763;
  handshake_packet = none;
  username = some (97 ∷ []);
  profile = none;
}

abbrev lobby_params : lazygate.Play.Lobby.JoinGameParams
lobby_params = lobby_join_game_params new_compound new_compound none none

-- A dimension whose light is 0.1f, which is no float32, under the name that the lobby prefers.
abbrev dim_light : Compound
dim_light = entry (codes "ambient_light") (tag_float 0x3FB999999999999A) new_compound

abbrev the_end : Compound
the_end =
    entry (codes "name") (tag_string (codes "minecraft:the_end"))
      (entry (codes "element") (tag_compound dim_light) new_compound)

abbrev dimension_types : Compound
dimension_types =
    entry (codes "value") (tag_list 10 (one_tag (tag_compound the_end) no_tags)) new_compound

abbrev small_codec : Compound
small_codec = entry (codes "minecraft:dimension_type") (tag_compound dimension_types) new_compound

dim_light-AreEntries : AreEntries dim_light
unfolding lazygate.Nbt.Entries.get
dim_light-AreEntries = (omega arith, omega arith, tt, refl, tt)

small_codec-AreEntries : AreEntries small_codec
unfolding lazygate.Nbt.Entries.get
small_codec-AreEntries = (
  omega arith,
  omega arith,
  (
    omega arith,
    omega arith,
    (
      omega arith,
      (
        refl,
        (
          omega arith,
          omega arith,
          omega arith,
          refl,
          (omega arith, omega arith, dim_light-AreEntries, refl, tt),
        ),
        tt,
      ),
    ),
    refl,
    tt,
  ),
  refl,
  tt,
)

-- What a probe left: the codec, and some of the numbers.
abbrev probed_server : JoinGameData
probed_server = record (seen_by true lobby_params) {
  dimension_codec = some small_codec;
  max_players = some 5;
  view_distance = some 8;
}

abbrev probed_params : lazygate.Play.Lobby.JoinGameParams
probed_params = lobby_join_game_params new_compound dim_light none (some probed_server)

lobby_join_game_packet_lem_example :
    (join_game_is_packet (get_protocol modern) (join_game_packet modern probed_params).id ≡ true)
    × (join_game_data_from_packet modern (join_game_packet modern probed_params)
        ≡ ok (seen_by (is_v1_20_1 (get_protocol modern)) probed_params) [])
lobby_join_game_packet_lem_example =
    lobby_join_game_packet_lem new_compound dim_light tt dim_light-AreEntries modern none
      (some probed_server) (small_codec-AreEntries, omega arith, omega arith)

abbrev fresh : LobbyState
fresh = record {
  client = record { state = login; compression = minus_one };
  info = modern;
  started = false;
  sent = [];
}

-- A Forge server with one cached exchange.
abbrev world : World
world = record {
  reaches = λ n. true;
  authenticated = none;
  drained = true;
  received = starting ∷ started ∷ [];
  server = record new_server_state {
    forge_login_cache =
        record { request = 1 ∷ []; success = true; body = []; no_response = false } ∷ [];
  };
  probed = none;
  joined = some (seen_by true lobby_params);
  default_codec = new_compound;
  default_dimension = new_compound;
}

abbrev forge_lobby : LobbyConfig
forge_lobby = record { online_mode = false; forge = true; message = []; ready_sound = none }

lobby_login-Followed_example :
    Followed (true, minus_one) (lobby_login (λ b. b) forge_lobby world (97 ∷ []) fresh)
lobby_login-Followed_example =
    lobby_login-Followed (λ b. b) forge_lobby world (97 ∷ []) fresh refl refl

abbrev sixteen : Bytes
sixteen = 1 ∷ 2 ∷ 3 ∷ 4 ∷ 5 ∷ 6 ∷ 7 ∷ 8 ∷ 9 ∷ 10 ∷ 11 ∷ 12 ∷ 13 ∷ 14 ∷ 15 ∷ 16 ∷ []

-- Online mode, with a player, a secret, and a hash of one byte.
abbrev online : Backend
online = record {
  zlib = stored;
  hmac = λ key m. 0 ∷ [];
  secret = some sixteen;
  is_blank = λ address. false;
  address = 49 ∷ [];
  online_mode = true;
  forge = false;
  has_server = true;
  info = record modern {
    profile = some (record { uuid = sixteen; name = 97 ∷ []; properties = [] });
  };
}

abbrev peers_up : Peers
peers_up = record { client_up = true; backend_up = true; answer = ended }

-- A forwarding request of id 7 for version 1, and the login success.
abbrev rounds : List Round
rounds =
    record {
      outcome =
          packet (record { id = 4; body = 7 ∷ 20 ∷ velocity_player_info_channel ++ (1 ∷ []) }) [];
      peers = peers_up;
    }
    ∷ record { outcome = packet (record { id = 2; body = [] }) []; peers = peers_up }
    ∷ []

abbrev logged_in : BackendLogin
logged_in = record (start_login fresh.client none new_server_state) {
  backend = record { state = play; compression = minus_one };
  profile_forwarded = true;
  to_backend = (26 ∷ 2 ∷ 7 ∷ 1 ∷ 0 ∷ 1 ∷ 1 ∷ 49 ∷ sixteen ++ 1 ∷ 97 ∷ 0 ∷ []) ∷ [];
}

login_succeeds :
    backend_login online rounds (start_login fresh.client none new_server_state) ≡ some logged_in
unfolding backend_login lazygate.Proto.Packets.decode_set_compression lazygate.Proto.VarInt.var_int
    lazygate.Proto.Framing.encode_with_len lazygate.Proto.Framing.encode_without_len
    lazygate.Proto.Framing.encode_compressed lazygate.Proto.VarInt.encode_var_int
    lazygate.Proto.Packets.decode_login_plugin_request lazygate.Proto.Reader.read_str
    lazygate.Velocity.respond_velocity_forwarding
login_succeeds = refl

backend_login-ForwardingSent_example :
    ForwardingSent online logged_in.to_backend rounds
      (start_login fresh.client none new_server_state)
backend_login-ForwardingSent_example =
    backend_login-ForwardingSent online rounds (start_login fresh.client none new_server_state) refl
      refl login_succeeds

-- Offline mode with a relay: the compression 256, and the login success.
abbrev hot_rounds : List Round
hot_rounds =
    record { outcome = packet (record { id = 3; body = 0x80 ∷ 2 ∷ [] }) []; peers = peers_up }
    ∷ record { outcome = packet (record { id = 2; body = [] }) []; peers = peers_up }
    ∷ []

abbrev offline : Backend
offline = record online { online_mode = false }

abbrev hot_logged_in : BackendLogin
hot_logged_in = record (start_login fresh.client (some new_forge_login_relay) new_server_state) {
  backend = record { state = play; compression = 256 };
  client = record { state = play; compression = 256 };
  to_client = (3 ∷ 3 ∷ 0x80 ∷ 2 ∷ []) ∷ (2 ∷ 0 ∷ 2 ∷ []) ∷ [];
}

hot_login_succeeds :
    backend_login offline hot_rounds
      (start_login fresh.client (some new_forge_login_relay) new_server_state)
    ≡ some hot_logged_in
unfolding backend_login lazygate.Proto.Packets.decode_set_compression lazygate.Proto.VarInt.var_int
    lazygate.Proto.Framing.encode_with_len lazygate.Proto.Framing.encode_without_len
    lazygate.Proto.Framing.encode_compressed lazygate.Proto.VarInt.encode_var_int
    lazygate.Forge.Replay.commit
hot_login_succeeds = refl

backend_login-InStep_example :
    InStep hot_logged_in.relay hot_logged_in.client.compression hot_logged_in.backend.compression
backend_login-InStep_example =
    backend_login-InStep offline hot_rounds fresh.client (some new_forge_login_relay)
      new_server_state hot_login_succeeds

-- A packet of two bytes, and then a join game with three bytes behind it.
abbrev two_reads : List Read
two_reads =
    record { packet = record { id = 0x17; body = [] }; raw = 1 ∷ 0x17 ∷ []; buf = [] }
    ∷ record { packet = join_game_packet modern lobby_params; raw = []; buf = 9 ∷ 9 ∷ 9 ∷ [] }
    ∷ []

waits :
    wait_for_server_join_game modern two_reads
    ≡ some (seen_by true lobby_params, 1 ∷ 0x17 ∷ 9 ∷ 9 ∷ 9 ∷ [])
unfolding wait_for_server_join_game lazygate.Proto.Client.get_protocol join_game_packet
waits = rw (lobby_join_game_packet_lem new_compound new_compound tt tt modern none none tt).1 refl

wait_for_server_join_game-Joined_example :
    Joined modern [] two_reads (seen_by true lobby_params) (1 ∷ 0x17 ∷ 9 ∷ 9 ∷ 9 ∷ [])
wait_for_server_join_game-Joined_example = wait_for_server_join_game-Joined modern two_reads waits
