-- ===== src/Play/Lobby.antt =====
-- proto/packets/play/: the packets that the lobby sends, each as its id and its bytes. A float is its
-- IEEE bit pattern.
use lazygate.Prelude.{
  ℕ, Bool, false, ◌||◌, List, [], ◌∷◌, Bytes, codes, Option, if◌then◌else◌, ◌==◌,
}
use lazygate.Proto.Client.{ClientInfo, get_protocol}
use lazygate.Proto.Framing.{RawPacket, new_raw_packet}
use lazygate.Proto.VarInt.{is_negative}
use lazygate.Proto.Writer.{
  write, write_u8, write_bool, write_uint32, write_int64, write_var_int, write_string,
}
use lazygate.Nbt.{Compound}
use lazygate.Nbt.Writer.{write_compound_tag}
use lazygate.Play.Ids.{is_v1_20_1, join_game_packet_id}

pub record JoinGameParams : Type 0 where
  pub dimension_codec : Compound
  pub dimension : Compound
  pub max_players : ℕ  -- int32
  pub view_distance : ℕ  -- int32
  pub simulation_distance : ℕ  -- int32
  pub hardcore : Bool
  pub reduced_debug_info : Bool
  pub enable_respawn_screen : Bool
  pub is_debug : Bool
  pub is_flat : Bool

abbrev pub default_world_names : List Bytes
default_world_names =
    codes "minecraft:overworld" ∷ codes "minecraft:the_nether" ∷ codes "minecraft:the_end" ∷ []

-- `for _, n := range worldNames`
abbrev pub write_names : Bytes → List Bytes → Bytes
write_names w [] = w
write_names w (n ∷ ns) = write_names (write_string w n) ns

-- The entity id 0, the mode spectator and no mode before it, the names and the codec.
abbrev pub write_opening : JoinGameParams → Bytes
write_opening p =
    let head = write_u8 (write_u8 (write_bool (write_uint32 [] 0) p.hardcore) 3) 0xff in
    let names = write_names (write_var_int head 3) default_world_names in
    write names (write_compound_tag p.dimension_codec)

abbrev pub write_flags : Bytes → JoinGameParams → Bytes
write_flags w p =
    let w₂ = write_bool (write_bool w p.reduced_debug_info) p.enable_respawn_screen in
    write_bool (write_bool w₂ p.is_debug) p.is_flat

abbrev pub lobby_name : Bytes
lobby_name = codes "lazymc:lobby"

abbrev pub lobby_join_game_data_old : JoinGameParams → Bytes
lobby_join_game_data_old p =
    let worlds = write (write_opening p) (write_compound_tag p.dimension) in
    let seeded = write_int64 (write_string worlds lobby_name) 0 in
    write_flags (write_var_int (write_var_int seeded p.max_players) p.view_distance) p

-- `simulationDistance <= 0`
abbrev pub shown_distance : JoinGameParams → ℕ
shown_distance p =
    if is_negative p.simulation_distance || (p.simulation_distance == 0)
    then p.view_distance
    else p.simulation_distance

abbrev pub lobby_join_game_data_v1_20_1 : JoinGameParams → Bytes
lobby_join_game_data_v1_20_1 p =
    let worlds =
      write_string (write_string (write_opening p) (codes "minecraft:overworld")) lobby_name in
    let distances =
      write_var_int
        (write_var_int (write_var_int (write_int64 worlds 0) p.max_players) p.view_distance)
        (shown_distance p) in
    write_var_int (write_bool (write_flags distances p) false) 0

unfoldable pub lobby_join_game_data : Option ℕ → JoinGameParams → Bytes
lobby_join_game_data protocol p =
    if is_v1_20_1 protocol then lobby_join_game_data_v1_20_1 p else lobby_join_game_data_old p

-- `SendJoinGame`
unfoldable pub join_game_packet : ClientInfo → JoinGameParams → RawPacket
unfolding lobby_join_game_data
join_game_packet info p =
    new_raw_packet (join_game_packet_id (get_protocol info))
      (lobby_join_game_data (get_protocol info) p)
