-- ===== src/Forge.antt =====
-- forge.go: the login exchange of Forge between a backend, this program and a client.
--
-- A connection is what is written to it, as a list of frames, and what `ReadPacketWithTimeout` answers,
-- which is a parameter. Each write reaches its peer or fails: that too is a parameter.
pub mod Bounds
pub mod Exchange
pub mod Replay
pub mod ModList
pub mod Answer
mod Examples
use lazygate.Prelude.{
  ℕ, zero, suc, ◌+◌, ◌%◌, ◌^◌, ◌*◌, Bool, true, false, not, ◌&&◌, ◌||◌, List, [], ◌∷◌, ◌++◌, Bytes,
  codes, Option, none, some, ◌>>=◌, if◌then◌else◌, ltb, leb, ◌==◌, length, same_bytes, contains,
}
use lazygate.Proto.Client.{Client, ClientState, login, ClientInfo, get_protocol}
use lazygate.Proto.Framing.{
  Zlib, RawPacket, new_raw_packet, encode_with_len, encode_without_len, decode_without_len,
}
use lazygate.Proto.Packets.{
  Handshake, LoginPluginRequest, encode_login_plugin_request, decode_login_plugin_request,
  LoginPluginResponse, encode_login_plugin_response, decode_login_plugin_response,
}
use lazygate.Proto.Reader.{read_str}
use lazygate.Proto.Stream.{
  Outcome, packet, ended, failed, stuck, max_packet_length, StreamError, read_failed, timeout,
}
use lazygate.Proto.VarInt.{var_int, is_negative}
use lazygate.Proto.Writer.{write, write_string, write_var_int}
use lazygate.Server.{ServerState, ForgeLoginExchange}

abbrev pub forge_status_magic_v2 : Bytes
forge_status_magic_v2 = 0 ∷ codes "FML2" ++ 0 ∷ []

abbrev pub forge_status_magic_v3 : Bytes
forge_status_magic_v3 = 0 ∷ codes "FML3" ++ 0 ∷ []

abbrev pub protocol_v1_20_1 : ℕ
protocol_v1_20_1 = 763

abbrev pub forge_status_magic : ℕ → Bytes
forge_status_magic protocol =
    if leb protocol_v1_20_1 protocol then forge_status_magic_v3 else forge_status_magic_v2

abbrev pub forge_channel_login_wrapper : Bytes
forge_channel_login_wrapper = codes "fml:loginwrapper"

abbrev pub forge_channel_handshake : Bytes
forge_channel_handshake = codes "fml:handshake"

abbrev pub max_forge_login_exchanges : ℕ
max_forge_login_exchanges = 512

abbrev pub max_forge_login_cache_bytes : ℕ
max_forge_login_cache_bytes = 8 * 2 ^ 20

-- `isForgeFML3`
abbrev pub is_forge_fml3 : ClientInfo → Bool
is_forge_fml3 info = elim (get_protocol info) [
  | none ↦ false
  | some protocol ↦ leb protocol_v1_20_1 protocol
]

pub data Marker : Type 0 where
  absent fml2 fml3 : Marker

unfoldable pub forge_handshake_marker : Option Handshake → Marker
forge_handshake_marker none = absent
forge_handshake_marker (some h) =
    if contains forge_status_magic_v3 h.server_addr
    then fml3
    else if contains forge_status_magic_v2 h.server_addr
    then fml2
    else absent

-- `writePacketTo`, with `up` for a write that succeeds: the frame that is written, or the error.
abbrev pub write_packet_to : Zlib → Bool → Client → RawPacket → Option Bytes
write_packet_to zlib up client p = do
  encoded ← encode_with_len zlib p client
  if up then some encoded else none

-- `writeForgeLoginResponse`
unfoldable pub write_forge_login_response :
    Zlib → Bool → Client → LoginPluginResponse → Option Bytes
unfolding encode_login_plugin_response
write_forge_login_response zlib up client response =
    write_packet_to zlib up client (new_raw_packet 2 (encode_login_plugin_response response []))

-- `forgeLoginRelay`, without its connections
pub record Relay : Type 0 where
  pub exchanges : List ForgeLoginExchange
  pub client_id : ℕ  -- int32
  pub cache_bytes : ℕ

abbrev pub new_forge_login_relay : Relay
new_forge_login_relay = record { exchanges = []; client_id = 0; cache_bytes = 0 }

-- `inspectForgeLoginWrapper`: the inner channel, the inner packet id, ok
unfoldable pub inspect_forge_login_wrapper : LoginPluginRequest → Option (Bytes × ℕ)
inspect_forge_login_wrapper request =
    if not (same_bytes request.channel forge_channel_login_wrapper) then none else do
      (inner_channel, r) ← read_str 32767 request.body
      if not (same_bytes inner_channel forge_channel_handshake) then none else do
        (inner_length, r₂) ← var_int r
        if is_negative inner_length || inner_length == 0 || ltb (length r₂) inner_length
            then none
            else do (inner_packet_id, r₃) ← var_int r₂; some (inner_channel, inner_packet_id)

-- `innerChannel == forgeChannelHandshake && innerPacketID == 5`
abbrev pub is_one_way : Option (Bytes × ℕ) → Bool
is_one_way none = false
is_one_way (some (channel, id)) = same_bytes channel forge_channel_handshake && (id == 5)

-- What the peers do in one exchange: whether the writes succeed, and what is read from the client.
pub record Peers : Type 0 where
  pub client_up : Bool
  pub backend_up : Bool
  pub answer : Outcome

-- The relay after the exchange, what it wrote, and whether it returned no error.
pub record Relayed : Type 0 where
  pub relay : Relay
  pub to_client : List Bytes
  pub to_backend : List Bytes
  pub ok : Bool

abbrev pub refused : Relay → List Bytes → Relayed
refused r sent = record { relay = r; to_client = sent; to_backend = []; ok = false }

-- `clientID` and the message id for the client
abbrev pub next_ids : Relay → LoginPluginRequest → ℕ × ℕ
next_ids r request =
    let next = (r.client_id + 1) % 2 ^ 32 in
    if same_bytes request.channel forge_channel_login_wrapper
    then (next, next)
    else (r.client_id, request.message_id)

-- The end of `relay`: the frame for the backend, or the error of the write.
abbrev pub delivered : Relay → List Bytes → Option Bytes → Relayed
delivered r sent none = refused r sent
delivered r sent (some frame) = record {
  relay = r;
  to_client = sent;
  to_backend = frame ∷ [];
  ok = true;
}

-- From `if response.MessageID != clientRequest.MessageID` on.
unfoldable pub relay_response :
    Zlib
    → Bool
    → Client
    → Relay
    → List Bytes
    → LoginPluginRequest
    → ℕ
    → Bytes
    → LoginPluginResponse
    → Relayed
relay_response zlib up backend r sent request client_message_id encoded response =
    if not (response.message_id == client_message_id)
    then refused r sent
    else if ltb max_packet_length (length response.body)
        || ltb max_forge_login_cache_bytes (r.cache_bytes + length encoded + length response.body)
    then refused r sent
    else (let exchange : ForgeLoginExchange = record {
      request = encoded;
      success = response.successful;
      body = response.body;
      no_response = false;
    } in
        let r₂ : Relay = record r {
          exchanges = r.exchanges ++ exchange ∷ [];
          cache_bytes = r.cache_bytes + (length encoded + length response.body);
        } in
        delivered r₂ sent (
          write_forge_login_response zlib up backend (record {
            message_id = request.message_id;
            successful = response.successful;
            body = response.body;
          })))

-- `response, err := proto.DecodeLoginPluginResponse(responsePacket.Data)`
abbrev pub relay_decoded :
    Zlib
    → Bool
    → Client
    → Relay
    → List Bytes
    → LoginPluginRequest
    → ℕ
    → Bytes
    → Option LoginPluginResponse
    → Relayed
relay_decoded zlib up backend r sent request id encoded none = refused r sent
relay_decoded zlib up backend r sent request id encoded (some response) =
    relay_response zlib up backend r sent request id encoded response

-- From the read of the answer on.
unfoldable pub relay_answer :
    Zlib → Bool → Client → Relay → List Bytes → LoginPluginRequest → ℕ → Bytes → Outcome → Relayed
unfolding relay_response
relay_answer zlib up backend r sent request id encoded ended = refused r sent
relay_answer zlib up backend r sent request id encoded (failed err) = refused r sent
relay_answer zlib up backend r sent request id encoded stuck = refused r sent
relay_answer zlib up backend r sent request id encoded (packet p raw) =
    if not (p.id == 2)
    then refused r sent
    else relay_decoded zlib up backend r sent request id encoded
        (decode_login_plugin_response p.body)

-- From the write to the client on.
abbrev pub relay_sent :
    Zlib → Peers → Client → Relay → LoginPluginRequest → ℕ → Bytes → Option Bytes → Relayed
relay_sent zlib peers backend r request id encoded none = refused r []
relay_sent zlib peers backend r request id encoded (some frame) =
    if is_one_way (inspect_forge_login_wrapper request)
    then record {
      relay = record r {
        exchanges =
            r.exchanges
            ++ record { request = encoded; success = false; body = []; no_response = true } ∷ [];
        cache_bytes = r.cache_bytes + length encoded;
      };
      to_client = frame ∷ [];
      to_backend = [];
      ok = true;
    }
    else relay_answer zlib peers.backend_up backend r (frame ∷ []) request id encoded peers.answer

-- `relay`
unfoldable pub relay : Zlib → Peers → Client → Client → Relay → LoginPluginRequest → Relayed
unfolding relay_answer inspect_forge_login_wrapper
relay zlib peers client backend r request =
    if leb max_forge_login_exchanges (length r.exchanges)
    then refused r []
    else (let (client_id, id) = next_ids r request in
        let r₂ : Relay = record r { client_id = client_id } in
        let encoded = encode_login_plugin_request (record request { message_id = id }) in
        if ltb max_packet_length (length encoded)
          || ltb max_forge_login_cache_bytes (r.cache_bytes + length encoded)
        then refused r₂ []
        else relay_sent zlib peers backend r₂ request id encoded
            (write_packet_to zlib peers.client_up client (new_raw_packet 4 encoded)))

-- `relayForgeLoginRequest`
unfoldable pub relay_forge_login_request :
    Zlib → Peers → Client → Client → Relay → LoginPluginRequest → Relayed
unfolding relay write_forge_login_response
relay_forge_login_request zlib peers client backend r request =
    if not (same_bytes request.channel forge_channel_login_wrapper)
    then delivered r [] (
        write_forge_login_response zlib peers.backend_up backend
          (record { message_id = request.message_id; successful = false; body = [] }))
    else relay zlib peers client backend r request
