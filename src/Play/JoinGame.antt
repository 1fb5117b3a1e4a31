-- ===== src/Play/JoinGame.antt =====
-- proto/packets/play/join_game.go: `joinGameReader`, and the two layouts of the join game packet.
-- A pointer field is an `Option`, and a reader its unread bytes. An error of any text is `failed`;
-- a codec whose strings or counts are negative panics, as in nbt/read.go.
pub mod Fields
mod Layout
pub mod RoundTrip
use lazygate.Prelude.{
  ℕ, zero, suc, ◌-◌, ◌^◌, Bool, true, not, List, [], ◌∷◌, Bytes, Option, none, some, if◌then◌else◌,
  ltb, leb, ◌==◌, length, take, drop, get_or,
}
use lazygate.Proto.Client.{ClientInfo, get_protocol}
use lazygate.Proto.Framing.{RawPacket}
use lazygate.Proto.VarInt.{var_int}
use lazygate.Nbt.{Compound}
use lazygate.Nbt.Reader.{Result, failed, ok, and_then, fixed, read_compound_tag}
use lazygate.Play.Ids.{is_v1_20_1, is_before_1_17}

pub record JoinGameData : Type 0 where
  pub hardcore : Option Bool
  pub game_mode : Option ℕ
  pub previous_game_mode : Option ℕ
  pub world_names : Option (List Bytes)
  pub dimension : Option Compound
  pub dimension_codec : Option Compound
  pub dimension_type : Option Bytes
  pub world_name : Option Bytes
  pub hashed_seed : Option ℕ
  pub max_players : Option ℕ
  pub view_distance : Option ℕ
  pub simulation_distance : Option ℕ
  pub reduced_debug_info : Option Bool
  pub enable_respawn_screen : Option Bool
  pub is_debug : Option Bool
  pub is_flat : Option Bool

-- What reads from the unread bytes, and its chains.
abbrev pub Reads : Type 0 → Type 0
Reads A = Bytes → Result A

infixl 5 ◌>>=◌ ◌>>◌
abbrev pub ◌>>=◌ : {A B : Type 0} → Reads A → (A → Reads B) → Reads B
◌>>=◌ m f r = and_then (m r) f

abbrev pub ◌>>◌ : {B : Type 0} → Reads (Unit {0}) → Reads B → Reads B
m >> k = m >>= λ _. k

abbrev pub done : {A : Type 0} → A → Reads A
done a r = ok a r

abbrev pub found : Option (ℕ × Bytes) → Result ℕ
found none = failed
found (some (v, r)) = ok v r

-- `varInt` of the reader: the loop is that of `packetReader`.
unfoldable pub read_int : Reads ℕ
read_int r = found (var_int r)

unfoldable pub read_flag : Reads Bool
read_flag r = if ltb (length r) 1 then failed else ok (not (get_or r 0 0 == 0)) (drop 1 r)

-- the rest of `str`, once the length is read
unfoldable pub read_text : ℕ → Reads Bytes
read_text n r =
    if leb (2 ^ 31) n then failed else if ltb (length r) n then failed else ok (take n r) (drop n r)

unfoldable pub read_chars : Reads Bytes
unfolding read_int read_text
read_chars = read_int >>= read_text

-- `skip`, for the constant counts that it is called with, and the entity id
unfoldable pub skip : ℕ → Reads (Unit {0})
skip n r = if ltb (length r) n then failed else ok tt (drop n r)

-- The game mode and the one before.
unfoldable pub read_modes : Reads (ℕ × ℕ)
read_modes r = if ltb (length r) 2 then failed else ok (get_or r 0 0, get_or r 1 0) (drop 2 r)

-- `for i := int32(0); i < n; i++`
unfoldable pub read_names : ℕ → Reads (List Bytes)
unfolding read_chars
read_names zero = done []
read_names (suc n) = read_chars >>= λ name. read_names n >>= λ names. done (name ∷ names)

unfoldable pub read_counted_names : ℕ → Reads (List Bytes)
unfolding read_names
read_counted_names n r = if leb (2 ^ 31) n then failed else read_names n r

-- What both layouts begin with: up to the dimension codec.
pub record Opening : Type 0 where
  pub hardcore : Bool
  pub modes : ℕ × ℕ
  pub world_names : List Bytes
  pub codec : Compound

unfoldable pub read_opening : Reads Opening
unfolding skip read_flag read_modes read_int read_counted_names
read_opening = do
  skip 4
  hardcore ← read_flag
  modes ← read_modes
  n ← read_int
  names ← read_counted_names n
  codec ← read_compound_tag
  done (record { hardcore = hardcore; modes = modes; world_names = names; codec = codec })

unfoldable pub decode_join_game_v1_16_3 : Reads JoinGameData
unfolding read_opening read_chars read_int read_flag
decode_join_game_v1_16_3 = do
  o ← read_opening
  dimension ← read_compound_tag
  world_name ← read_chars
  seed ← fixed 8
  max_players ← read_int
  view_distance ← read_int
  reduced ← read_flag
  respawn_screen ← read_flag
  debug ← read_flag
  flat ← read_flag
  done (record {
    hardcore = some o.hardcore;
    game_mode = some o.modes.0;
    previous_game_mode = some o.modes.1;
    world_names = some o.world_names;
    dimension = some dimension;
    dimension_codec = some o.codec;
    dimension_type = none;
    world_name = some world_name;
    hashed_seed = some seed;
    max_players = some max_players;
    view_distance = some view_distance;
    simulation_distance = none;
    reduced_debug_info = some reduced;
    enable_respawn_screen = some respawn_screen;
    is_debug = some debug;
    is_flat = some flat;
  })

-- `if death { … }`
unfoldable pub read_death : Bool → Reads (Unit {0})
unfolding read_chars skip
read_death death r = if death then (read_chars >>= λ _. skip 8) r else ok tt r

unfoldable pub decode_join_game_v1_20_1 : Reads JoinGameData
unfolding read_opening read_chars read_int read_flag read_death
decode_join_game_v1_20_1 = do
  o ← read_opening
  dimension_type ← read_chars
  world_name ← read_chars
  seed ← fixed 8
  max_players ← read_int
  view_distance ← read_int
  simulation_distance ← read_int
  reduced ← read_flag
  respawn_screen ← read_flag
  debug ← read_flag
  flat ← read_flag
  death ← read_flag
  read_death death
  portal_cooldown ← read_int
  done (record {
    hardcore = some o.hardcore;
    game_mode = some o.modes.0;
    previous_game_mode = some o.modes.1;
    world_names = some o.world_names;
    dimension = none;
    dimension_codec = some o.codec;
    dimension_type = some dimension_type;
    world_name = some world_name;
    hashed_seed = some seed;
    max_players = some max_players;
    view_distance = some view_distance;
    simulation_distance = some simulation_distance;
    reduced_debug_info = some reduced;
    enable_respawn_screen = some respawn_screen;
    is_debug = some debug;
    is_flat = some flat;
  })

-- `decodeJoinGameV1_17` is `decodeJoinGameV1_16_3`. What the decoders leave unread is dropped.
unfoldable pub join_game_data_from_packet : ClientInfo → RawPacket → Result JoinGameData
unfolding decode_join_game_v1_20_1 decode_join_game_v1_16_3
join_game_data_from_packet info packet =
    if is_v1_20_1 (get_protocol info)
    then decode_join_game_v1_20_1 packet.body
    else decode_join_game_v1_16_3 packet.body
