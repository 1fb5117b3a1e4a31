-- ===== src/Play/Packets.antt =====
-- proto/packets/play/: the other packets of the lobby, each as its id and its bytes. A float is its
-- IEEE bit pattern.
use lazygate.Prelude.{
  ℕ, ◌+◌, ◌^◌, ◌%◌, Bool, true, false, not, ◌&&◌, [], Bytes, codes, if◌then◌else◌,
}
use lazygate.Proto.Client.{ClientInfo, get_protocol}
use lazygate.Proto.Framing.{RawPacket, new_raw_packet}
use lazygate.Proto.Writer.{
  write, write_u8, write_bool, write_int32, write_int64, write_uint64, write_var_int, write_string,
  write_byte_array,
}
use lazygate.Nbt.{Compound}
use lazygate.Nbt.Writer.{write_compound_tag}
use lazygate.Play.Ids.{is_v1_20_1, is_from_1_17, packet_id_for}

-- The packet, and the next id: a uint64 counter that all clients share.
unfoldable pub keep_alive_packet : ClientInfo → ℕ → RawPacket × ℕ
keep_alive_packet info next = (
  new_raw_packet (packet_id_for (get_protocol info) 0x1f 0x21 0x23) (write_uint64 [] next),
  (next + 1) % 2 ^ 64,
)

-- 90.0 as an f32
abbrev pitch_down : ℕ
pitch_down = 0x42b40000

pub player_pos_packet : ClientInfo → RawPacket
player_pos_packet info =
    let protocol = get_protocol info in
    let position = write_uint64 (write_uint64 (write_uint64 [] 0) 0) 0 in
    let look = write_u8 (write_int32 (write_int32 position 0) pitch_down) 0 in
    let body = write_var_int look 0 in
    new_raw_packet (packet_id_for protocol 0x34 0x38 0x3c)
      (if not (is_v1_20_1 protocol) && is_from_1_17 protocol then write_bool body true else body)

pub server_brand_packet : ClientInfo → RawPacket
server_brand_packet info =
    let protocol = get_protocol info in
    let w = write_string [] (codes "minecraft:brand") in
    new_raw_packet (packet_id_for protocol 0x17 0x18 0x17) (
      if is_v1_20_1 protocol then write w (codes "lazymc") else write_byte_array w (codes "lazymc"))

pub time_update_packet : ClientInfo → RawPacket
time_update_packet info =
    new_raw_packet (packet_id_for (get_protocol info) 0x4e 0x58 0x5e)
      (write_int64 (write_int64 [] 0) 0)

-- 1.0 as an f32, twice: the volume and the pitch
abbrev write_volume : Bytes → Bytes
write_volume w = write_int32 (write_int32 w 0x3f800000) 0x3f800000

abbrev write_origin : Bytes → Bytes
write_origin w = write_int32 (write_int32 (write_int32 w 0) 0) 0

pub sound_packet : ClientInfo → Bytes → RawPacket
sound_packet info name =
    let protocol = get_protocol info in
    let old = write_volume (write_origin (write_var_int (write_string [] name) 0)) in
    let inline = write_var_int (write_bool (write_string (write_var_int [] 0) name) false) 0 in
    new_raw_packet (packet_id_for protocol 0x18 0x19 0x62)
      (if is_v1_20_1 protocol then write_int64 (write_volume (write_origin inline)) 0 else old)

pub record RespawnParams : Type 0 where
  pub dimension : Compound
  pub world_name : Bytes
  pub hashed_seed : ℕ  -- int64
  pub game_mode : ℕ  -- byte
  pub previous_game_mode : ℕ  -- byte
  pub is_debug : Bool
  pub is_flat : Bool

-- The name, the seed, the modes, the flags and a last flag that is not set.
abbrev pub write_respawn : Bytes → RespawnParams → Bytes
write_respawn w p =
    let named = write_int64 (write_string w p.world_name) p.hashed_seed in
    let modes = write_u8 (write_u8 named p.game_mode) p.previous_game_mode in
    write_bool (write_bool (write_bool modes p.is_debug) p.is_flat) false

unfoldable pub respawn_packet : ClientInfo → RespawnParams → RawPacket
respawn_packet info p =
    let protocol = get_protocol info in
    let old = write_respawn (write_compound_tag p.dimension) p in
    let new = write_var_int (write_respawn (write_string [] (codes "minecraft:overworld")) p) 0 in
    new_raw_packet (packet_id_for protocol 0x39 0x3d 0x41)
      (if is_v1_20_1 protocol then new else old)
