-- ===== src/Lobby/Params.antt =====
-- lobby.go: what the lobby's packets are built from. The embedded default codec and default dimension
-- are parameters: the compounds that their texts parse to.
use lazygate.Prelude.{
  ℕ, ◌^◌, ◌%◌, Bool, true, false, ◌&&◌, ◌||◌, List, [], ◌∷◌, Bytes, codes, Option, none, some,
  if◌then◌else◌, ◌==◌, ◌≡◌, arith,
}
use lazygate.Nbt.{Compound}
use lazygate.Nbt.Encodable.{AreEntries}
use lazygate.Nbt.Reader.{ok}
use lazygate.Proto.Client.{ClientInfo, get_protocol}
use lazygate.Proto.Framing.{RawPacket}
use lazygate.Proto.Status.{ServerStatus}
use lazygate.Proto.VarInt.{IsInt32}
use lazygate.Play.Ids.{is_v1_20_1, join_game_is_packet}
use lazygate.Play.JoinGame.{JoinGameData, join_game_data_from_packet}
use lazygate.Play.JoinGame.RoundTrip.{
  AreParams, seen_by, join_game_data_from_packet-join_game_packet,
}
use lazygate.Play.Lobby.{JoinGameParams, join_game_packet}
use lazygate.Play.Packets.{
  respawn_packet, server_brand_packet, player_pos_packet, time_update_packet, sound_packet,
}
use lazygate.Lobby.Dimension.{lobby_dimension}
use lazygate.Lobby.World.{lobby_dimension-AreEntries}

-- `if v != nil { … = *v }`
abbrev pub or_default {ℓ} : {A : Type ℓ} → A → Option A → A
or_default default none = default
or_default default (some v) = v

-- A field of what was probed, if something was.
abbrev pub probed_field {ℓ} :
    {A : Type ℓ} → (JoinGameData → Option A) → Option JoinGameData → Option A
probed_field field none = none
probed_field field (some d) = field d

-- `int32(status.Players.Max)`, or what was probed
abbrev pub lobby_max_players : Option ServerStatus → Option JoinGameData → ℕ
lobby_max_players none probed = or_default 20 (probed_field (λ d. d.max_players) probed)
lobby_max_players (some status) probed = status.players.max % 2 ^ 32

module _ (default_codec default_dimension : Compound) where
  unfoldable pub lobby_join_game_params : Option ServerStatus → Option JoinGameData → JoinGameParams
  lobby_join_game_params status probed =
      let codec = or_default default_codec (probed_field (λ d. d.dimension_codec) probed) in
      record {
        dimension_codec = codec;
        dimension = lobby_dimension default_dimension codec;
        max_players = lobby_max_players status probed;
        view_distance = or_default 10 (probed_field (λ d. d.view_distance) probed);
        simulation_distance = 0;
        hardcore = or_default false (probed_field (λ d. d.hardcore) probed);
        reduced_debug_info = or_default false (probed_field (λ d. d.reduced_debug_info) probed);
        enable_respawn_screen =
            or_default true (probed_field (λ d. d.enable_respawn_screen) probed);
        is_debug = or_default false (probed_field (λ d. d.is_debug) probed);
        is_flat = or_default false (probed_field (λ d. d.is_flat) probed);
      }

  -- The packets of `sendLobbyPlayPackets`, in order.
  unfoldable pub lobby_play_packets :
      ClientInfo → Option ServerStatus → Option JoinGameData → List RawPacket
  unfolding lobby_join_game_params
  lobby_play_packets info status probed =
      join_game_packet info (lobby_join_game_params status probed)
      ∷ server_brand_packet info
      ∷ player_pos_packet info
      ∷ time_update_packet info
      ∷ []

  -- `sendLobbyRespawn`
  pub lobby_respawn_packet : ClientInfo → JoinGameData → RawPacket
  lobby_respawn_packet info d =
      let codec = or_default default_codec d.dimension_codec in
      respawn_packet info (record {
        dimension = or_default (lobby_dimension default_dimension codec) d.dimension;
        world_name = or_default (codes "minecraft:overworld") d.world_name;
        hashed_seed = or_default 0 d.hashed_seed;
        game_mode = or_default 0 d.game_mode;
        previous_game_mode = or_default 0xff d.previous_game_mode;
        is_debug = or_default false d.is_debug;
        is_flat = or_default false d.is_flat;
      })

abbrev pub all_spaces : Bytes → Bool
all_spaces [] = true
all_spaces (c ∷ s) = (c == 32 || (c == 9)) && all_spaces s

-- The packets of `playLobbyReadySound`. The empty text is one of spaces.
pub ready_sound_packets : ClientInfo → Option Bytes → List RawPacket
ready_sound_packets info none = []
ready_sound_packets info (some name) =
    if all_spaces name then [] else player_pos_packet info ∷ sound_packet info name ∷ []

-- What a probe may have left: a codec that can be written down, and int32s.
abbrev IsFit {ℓ} : {A : Type ℓ} → (A → Type 0) → Option A → Type 0
IsFit P none = Unit
IsFit P (some a) = P a

abbrev pub IsProbed : Option JoinGameData → Type 0
IsProbed none = Unit
IsProbed (some d) =
    IsFit AreEntries d.dimension_codec × IsFit IsInt32 d.max_players × IsFit IsInt32 d.view_distance

or_default-IsFit :
    {A : Type 0} (P : A → Type 0) (default : A) (o : Option A)
    → P default
    → IsFit P o
    → P (or_default default o)
or_default-IsFit P default none h k = h
or_default-IsFit P default (some a) h k = k

max_players-IsInt32 :
    (status : Option ServerStatus) (probed : Option JoinGameData)
    → IsProbed probed
    → IsInt32 (lobby_max_players status probed)
max_players-IsInt32 none none h = omega arith
max_players-IsInt32 none (some d) h = or_default-IsFit IsInt32 20 d.max_players (omega arith) h.1
max_players-IsInt32 (some status) probed h = omega arith

module _ (default_codec default_dimension : Compound) (codec_fits : AreEntries default_codec)
    (dimension_fits : AreEntries default_dimension) where
  params_fit :
      (status : Option ServerStatus) (probed : Option JoinGameData)
      → IsProbed probed
      → AreParams (lobby_join_game_params default_codec default_dimension status probed)
  unfolding lobby_join_game_params
  params_fit status probed h =
      let codec : AreEntries
          (or_default default_codec (probed_field (λ d. d.dimension_codec) probed)) =
        fit_codec probed h in
      record {
        codec = codec;
        dimension = lobby_dimension-AreEntries default_dimension dimension_fits _ codec;
        max_players = max_players-IsInt32 status probed h;
        view_distance = fit_view probed h;
        simulation_distance = omega arith;
      }
    where
      fit_codec :
          (probed : Option JoinGameData)
          → IsProbed probed
          → AreEntries (or_default default_codec (probed_field (λ d. d.dimension_codec) probed))
      fit_codec none h = codec_fits
      fit_codec (some d) h =
          or_default-IsFit AreEntries default_codec d.dimension_codec codec_fits h.0

      fit_view :
          (probed : Option JoinGameData)
          → IsProbed probed
          → IsInt32 (or_default 10 (probed_field (λ d. d.view_distance) probed))
      fit_view none h = omega arith
      fit_view (some d) h = or_default-IsFit IsInt32 10 d.view_distance (omega arith) h.2

  -- Whatever the poll and the probe left, the join game packet of the lobby is taken for one by a client of
  -- the version that it is built for, and is read back as the parameters say, with the floats of its
  -- float32 tags rounded to float32s and nothing left over, if the default codec, the default dimension and
  -- the probed codec can be written down and the probed numbers are int32s.
  pub lobby_join_game_packet_lem :
      (info : ClientInfo) (status : Option ServerStatus) (probed : Option JoinGameData)
      → IsProbed probed
      → let p = lobby_join_game_params default_codec default_dimension status probed in
        (join_game_is_packet (get_protocol info) (join_game_packet info p).id ≡ true)
        × (join_game_data_from_packet info (join_game_packet info p)
            ≡ ok (seen_by (is_v1_20_1 (get_protocol info)) p) [])
  lobby_join_game_packet_lem info status probed h =
      join_game_data_from_packet-join_game_packet info
        (lobby_join_game_params default_codec default_dimension status probed)
        (params_fit status probed h)
