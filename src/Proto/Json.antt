-- ===== src/Proto/Json.antt =====
-- proto/packets.go: the JSON of a status response and of a chat message; proto/action.go: `Kick`.
pub mod Strings
pub mod Numbers
use lazygate.Prelude.{
  ℕ, zero, suc, ◌+◌, ◌/◌, ◌%◌, Bool, true, false, ◌&&◌, not, List, [], ◌∷◌, ◌++◌, Bytes, codes,
  Option, none, some, if◌then◌else◌, ltb, ◌==◌, length,
}
use lazygate.Proto.Status.{OnlinePlayer, ServerStatus}
use lazygate.Proto.Writer.{string_bytes}
use lazygate.Proto.Client.{Client, ClientState, handshake, status, login, play}
use lazygate.Proto.Framing.{Zlib, RawPacket, new_raw_packet, encode_with_len}

-- `for v > 0 { … }`; ten rounds empty a uint32.
unfoldable pub itoa_loop : ℕ → ℕ → Bytes → Bytes
itoa_loop zero v out = out
itoa_loop (suc rounds) v out =
    let rest = itoa_loop rounds (v / 10) ((48 + v % 10) ∷ out) in if v == 0 then out else rest

unfoldable pub itoa : ℕ → Bytes
itoa v = if v == 0 then 48 ∷ [] else itoa_loop 10 v []

-- A digit of `%04x`
abbrev pub hex_digit : ℕ → ℕ
hex_digit d = if ltb d 10 then 48 + d else 87 + d

-- `\b`, `\t`, `\n`, `\f`, `\r` and the other control characters as `\u%04x`
unfoldable pub escape_char : ℕ → Bytes
escape_char c =
    if c == 34
    then 92 ∷ 34 ∷ []
    else if c == 92
    then 92 ∷ 92 ∷ []
    else if c == 8
    then 92 ∷ 98 ∷ []
    else if c == 12
    then 92 ∷ 102 ∷ []
    else if c == 10
    then 92 ∷ 110 ∷ []
    else if c == 13
    then 92 ∷ 114 ∷ []
    else if c == 9
    then 92 ∷ 116 ∷ []
    else if ltb c 32
    then 92 ∷ 117 ∷ 48 ∷ 48 ∷ hex_digit (c / 16) ∷ hex_digit (c % 16) ∷ []
    else c ∷ []

unfoldable pub escape_loop : Bytes → Bytes
unfolding escape_char
escape_loop [] = []
escape_loop (c ∷ s) = escape_char c ++ escape_loop s

unfoldable pub serde_json_string : Bytes → Bytes
unfolding escape_loop
serde_json_string s = 34 ∷ escape_loop s ++ 34 ∷ []

unfoldable pub chat_message_json : Bytes → Bytes
unfolding serde_json_string
chat_message_json text = codes "{\"text\":" ++ serde_json_string text ++ codes "}"

abbrev pub player_json : OnlinePlayer → Bytes
player_json p =
    codes "{\"name\":"
    ++ serde_json_string p.name
    ++ codes ",\"id\":"
    ++ serde_json_string p.id
    ++ codes "}"

-- `if i > 0 { sb.WriteString(",") }` before each player
unfoldable pub sample_json : Bool → List OnlinePlayer → Bytes
sample_json first [] = []
sample_json first (p ∷ ps) =
    let rest = sample_json false ps in (if first then [] else codes ",") ++ player_json p ++ rest

abbrev pub favicon_json : Option Bytes → Bytes
favicon_json none = codes "null"
favicon_json (some icon) = serde_json_string icon

-- `valid` is `json.Valid`.
unfoldable pub status_response_json : (Bytes → Bool) → ServerStatus → Bytes
unfolding itoa sample_json serde_json_string
status_response_json valid s =
    codes "{\"version\":{\"name\":"
    ++ serde_json_string s.version.name
    ++ codes ",\"protocol\":"
    ++ itoa s.version.protocol
    ++ codes "},\"players\":{\"max\":"
    ++ itoa s.players.max
    ++ codes ",\"online\":"
    ++ itoa s.players.online
    ++ codes ",\"sample\":["
    ++ sample_json true s.players.sample
    ++ codes "]},\"description\":"
    ++ serde_json_string s.description
    ++ codes ",\"favicon\":"
    ++ favicon_json s.favicon
    ++ (if not (length s.forge_data == 0) && valid s.forge_data
        then codes ",\"forgeData\":" ++ s.forge_data
        else [])
    ++ codes "}"

-- `Kick`: the bytes that are written, or the error of the framing.
unfoldable pub kick : Zlib → Client → Bytes → Option Bytes
unfolding chat_message_json
kick zlib client msg =
    let id : ℕ = elim client.state [ play ↦ 0x1A | handshake ↦ 0 | status ↦ 0 | login ↦ 0 ] in
    encode_with_len zlib (new_raw_packet id (string_bytes (chat_message_json msg))) client
