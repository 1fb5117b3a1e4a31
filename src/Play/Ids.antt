-- ===== src/Play/Ids.antt =====
-- proto/packets/play/mod.go: protocol versions, and the choice of a packet id by them.
use lazygate.Prelude.{ℕ, Bool, false, Option, none, some, if◌then◌else◌, ltb, leb, ◌==◌}

abbrev pub is_v1_20_1 : Option ℕ → Bool
is_v1_20_1 none = false
is_v1_20_1 (some p) = p == 763

-- `protocol != nil && *protocol < ProtocolV1_17`
abbrev pub is_before_1_17 : Option ℕ → Bool
is_before_1_17 none = false
is_before_1_17 (some p) = ltb p 755

-- `protocol != nil && *protocol >= ProtocolV1_17`
abbrev pub is_from_1_17 : Option ℕ → Bool
is_from_1_17 none = false
is_from_1_17 (some p) = leb 755 p

-- Without a protocol the id of 1.16.3 is taken, by all packets but the join game.
abbrev pub packet_id_for : Option ℕ → ℕ → ℕ → ℕ → ℕ
packet_id_for protocol v1_16_3 v1_17 v1_20_1 =
    if is_v1_20_1 protocol then v1_20_1 else if is_from_1_17 protocol then v1_17 else v1_16_3

abbrev pub join_game_packet_id : Option ℕ → ℕ
join_game_packet_id protocol =
    if is_v1_20_1 protocol then 0x28 else if is_before_1_17 protocol then 0x24 else 0x26

-- `JoinGameIsPacket`
abbrev pub join_game_is_packet : Option ℕ → ℕ → Bool
join_game_is_packet protocol packet_id =
    if is_v1_20_1 protocol
    then packet_id == 0x28
    else if is_before_1_17 protocol
    then packet_id == 0x24
    else packet_id == 0x26
