-- ===== src/Play/JoinGame/RoundTrip.antt =====
-- proto/packets/play/join_game.go: the reader of a join game packet on the one that the lobby sends.
use lazygate.Prelude.{
  Bool, true, false, [], ◌∷◌, ◌++◌, Bytes, codes, none, some, if◌then◌else◌, ◌≡◌, refl, arith, sym,
  ap, ◌∙◌, append-nil, Bool-cases, inl, inr,
}
use lazygate.Proto.Client.{ClientInfo, get_protocol}
use lazygate.Proto.VarInt.{IsInt32, encode_var_int}
use lazygate.Proto.Writer.{write_bool, string_bytes, big_endian64}
use lazygate.Nbt.Stored.{stored}
use lazygate.Nbt.Encodable.{AreEntries}
use lazygate.Nbt.Leaves.{fixed-big_endian64}
use lazygate.Nbt.Reader.{ok}
use lazygate.Nbt.RoundTrip.{read_compound_tag-write_compound_tag}
use lazygate.Nbt.Writer.{write_compound_tag}
use lazygate.Play.Ids.{is_v1_20_1, join_game_is_packet}
use lazygate.Play.JoinGame.{
  JoinGameData, Opening, read_int, read_counted_names, read_opening, read_death,
  decode_join_game_v1_16_3, decode_join_game_v1_20_1, join_game_data_from_packet,
}
use lazygate.Play.JoinGame.Fields.{
  read_int-encode_var_int, read_flag-write_bool, read_chars-string_bytes, skip-four, read_modes-two,
  read_names-write_names,
}
use lazygate.Play.Lobby.{
  JoinGameParams, default_world_names, lobby_name, write_names, write_opening, shown_distance,
  lobby_join_game_data_old, lobby_join_game_data_v1_20_1, join_game_packet,
}
use lazygate.Play.JoinGame.Layout.{opening_layout, old_layout, new_layout, flags_bytes}

-- The compounds can be written down, and the numbers are int32s.
pub record AreParams (p : JoinGameParams) : Type 0 where
  pub codec : AreEntries p.dimension_codec
  pub dimension : AreEntries p.dimension
  pub max_players : IsInt32 p.max_players
  pub view_distance : IsInt32 p.view_distance
  pub simulation_distance : IsInt32 p.simulation_distance

-- What the reader makes of the opening.
abbrev opening_of : JoinGameParams → Opening
opening_of p = record {
  hardcore = p.hardcore;
  modes = (3, 255);
  world_names = default_world_names;
  codec = stored p.dimension_codec;
}

counted_names :
    (r : Bytes)
    → read_counted_names 3 (write_names [] default_world_names ++ r) ≡ ok default_world_names r
unfolding read_counted_names
counted_names r =
    read_names-write_names default_world_names r (omega arith, (omega arith, (omega arith, tt)))

read_opening-write_opening :
    (p : JoinGameParams) (r : Bytes)
    → AreParams p
    → read_opening (write_opening p ++ r) ≡ ok (opening_of p) r
unfolding read_opening
read_opening-write_opening p r h =
    let after = write_names [] default_world_names ++ (write_compound_tag p.dimension_codec ++ r) in
    ap read_opening (opening_layout p r)
    ∙ rw
        (
          skip-four 0 0 0 0 (write_bool [] p.hardcore ++ (3 ∷ 255 ∷ (encode_var_int 3 ++ after))),
          read_flag-write_bool p.hardcore (3 ∷ 255 ∷ (encode_var_int 3 ++ after)),
          read_modes-two 3 255 (encode_var_int 3 ++ after),
          read_int-encode_var_int 3 after (omega arith),
          counted_names (write_compound_tag p.dimension_codec ++ r),
          read_compound_tag-write_compound_tag p.dimension_codec r h.codec,
        )
        refl

-- What a reader is to make of the packet: all that was given, the fixed values, and for 1.20.1 the
-- dimension by its name and the distances. A distance that is not positive is read as the view's.
abbrev pub seen_by : Bool → JoinGameParams → JoinGameData
seen_by new p = record {
  hardcore = some p.hardcore;
  game_mode = some 3;
  previous_game_mode = some 255;
  world_names = some default_world_names;
  dimension = if new then none else some (stored p.dimension);
  dimension_codec = some (stored p.dimension_codec);
  dimension_type = if new then some (codes "minecraft:overworld") else none;
  world_name = some lobby_name;
  hashed_seed = some 0;
  max_players = some p.max_players;
  view_distance = some p.view_distance;
  simulation_distance = if new then some (shown_distance p) else none;
  reduced_debug_info = some p.reduced_debug_info;
  enable_respawn_screen = some p.enable_respawn_screen;
  is_debug = some p.is_debug;
  is_flat = some p.is_flat;
}

decode_old :
    (p : JoinGameParams)
    → AreParams p
    → decode_join_game_v1_16_3 (lobby_join_game_data_old p) ≡ ok (seen_by false p) []
unfolding decode_join_game_v1_16_3 flags_bytes
decode_old p h =
    let flat = write_bool [] p.is_flat ++ [] in
    let debug = write_bool [] p.is_debug ++ flat in
    let respawn = write_bool [] p.enable_respawn_screen ++ debug in
    let reduced = write_bool [] p.reduced_debug_info ++ respawn in
    let view = encode_var_int p.view_distance ++ reduced in
    let most = encode_var_int p.max_players ++ view in
    let name = string_bytes lobby_name ++ (big_endian64 0 ++ most) in
    ap decode_join_game_v1_16_3 (old_layout p)
    ∙ rw
        (
          read_opening-write_opening p (write_compound_tag p.dimension ++ name) h,
          read_compound_tag-write_compound_tag p.dimension name h.dimension,
          read_chars-string_bytes lobby_name (big_endian64 0 ++ most) (omega arith),
          fixed-big_endian64 0 (omega arith) most,
          read_int-encode_var_int p.max_players view h.max_players,
          read_int-encode_var_int p.view_distance reduced h.view_distance,
          read_flag-write_bool p.reduced_debug_info respawn,
          read_flag-write_bool p.enable_respawn_screen debug,
          read_flag-write_bool p.is_debug flat,
          read_flag-write_bool p.is_flat [],
        )
        refl

shown_distance-IsInt32 : (p : JoinGameParams) → AreParams p → IsInt32 (shown_distance p)
shown_distance-IsInt32 p h = ground arith

portal_cooldown : read_int (encode_var_int 0) ≡ ok 0 []
portal_cooldown =
    ap read_int (sym (append-nil (encode_var_int 0))) ∙ read_int-encode_var_int 0 [] (omega arith)

decode_new :
    (p : JoinGameParams)
    → AreParams p
    → decode_join_game_v1_20_1 (lobby_join_game_data_v1_20_1 p) ≡ ok (seen_by true p) []
unfolding decode_join_game_v1_20_1 flags_bytes read_death
decode_new p h =
    let death = write_bool [] false ++ encode_var_int 0 in
    let flat = write_bool [] p.is_flat ++ death in
    let debug = write_bool [] p.is_debug ++ flat in
    let respawn = write_bool [] p.enable_respawn_screen ++ debug in
    let reduced = write_bool [] p.reduced_debug_info ++ respawn in
    let simulation = encode_var_int (shown_distance p) ++ reduced in
    let view = encode_var_int p.view_distance ++ simulation in
    let most = encode_var_int p.max_players ++ view in
    let name = string_bytes lobby_name ++ (big_endian64 0 ++ most) in
    ap decode_join_game_v1_20_1 (new_layout p)
    ∙ rw
        (
          read_opening-write_opening p (string_bytes (codes "minecraft:overworld") ++ name) h,
          read_chars-string_bytes (codes "minecraft:overworld") name (omega arith),
          read_chars-string_bytes lobby_name (big_endian64 0 ++ most) (omega arith),
          fixed-big_endian64 0 (omega arith) most,
          read_int-encode_var_int p.max_players view h.max_players,
          read_int-encode_var_int p.view_distance simulation h.view_distance,
          read_int-encode_var_int (shown_distance p) reduced (shown_distance-IsInt32 p h),
          read_flag-write_bool p.reduced_debug_info respawn,
          read_flag-write_bool p.enable_respawn_screen debug,
          read_flag-write_bool p.is_debug flat,
          read_flag-write_bool p.is_flat death,
          read_flag-write_bool false (encode_var_int 0),
          portal_cooldown,
        )
        refl

-- For every protocol version, the join game packet that the lobby sends is taken for one, and is read
-- back with nothing left over: the flags, the codec, the numbers and the fixed values, and, by the
-- layout of the version, the dimension itself or its name with the simulation distance, which is
-- the view distance if it was not positive. The compounds are such that they can be written down, and the numbers
-- are int32s.
pub join_game_data_from_packet-join_game_packet :
    (info : ClientInfo) (p : JoinGameParams)
    → AreParams p
    → (join_game_is_packet (get_protocol info) (join_game_packet info p).id ≡ true)
      × (join_game_data_from_packet info (join_game_packet info p)
          ≡ ok (seen_by (is_v1_20_1 (get_protocol info)) p) [])
unfolding join_game_data_from_packet join_game_packet
join_game_data_from_packet-join_game_packet info p h =
    elim (Bool-cases (is_v1_20_1 (get_protocol info))) [
      | inl new ↦ (ground arith, simp (new) (decode_new p h))
      | inr old ↦ (ground arith, simp (old) (decode_old p h))
    ]
