-- ===== src/Forge/Examples.antt =====
-- The theorems on the Forge relay at a request of the login wrapper.
use lazygate.Prelude.{true, not, [], ◌∷◌, ◌++◌, codes, some, ◌==◌, ◌≡◌, refl, arith}
use lazygate.Proto.Client.{Client, login, minus_one}
use lazygate.Proto.Framing.{RawPacket}
use lazygate.Proto.Framing.Examples.{stored}
use lazygate.Proto.Packets.{
  LoginPluginRequest, LoginPluginResponse, decode_login_plugin_response, IsRequest,
}
use lazygate.Proto.Stream.{packet}
use lazygate.Server.{ForgeLoginExchange}
use lazygate.Forge.{Relay, new_forge_login_relay, Peers, relay, forge_channel_login_wrapper}
use lazygate.Forge.Bounds.{IsBounded, relay_all, relay_all-IsBounded}
use lazygate.Forge.ModList.{forge_mod_list_reply}
use lazygate.Forge.ModList.RoundTrip.{vec_bytes, pair_vec_bytes, unmarked, forge_mod_list_reply_lem}
use lazygate.Forge.Answer.{forge_login_packet, forge_login_packet-length}
use lazygate.Forge.Replay.{cached_forge_request_matches}
use lazygate.Forge.Replay.Recorded.{relay_records}

abbrev plain : Client
plain = record { state = login; compression = minus_one }

abbrev wrapped : LoginPluginRequest
wrapped = record { message_id = 77; channel = forge_channel_login_wrapper; body = 1 ∷ 2 ∷ [] }

abbrev asked_later : LoginPluginRequest
asked_later = record wrapped { message_id = 5 }

-- The client answers the id 1, which the relay gave.
abbrev willing : Peers
willing = record {
  client_up = true;
  backend_up = true;
  answer = packet (record { id = 2; body = 1 ∷ 1 ∷ 9 ∷ [] }) [];
}

relay_all-IsBounded_example : IsBounded (
    relay_all stored plain plain new_forge_login_relay
      ((willing, wrapped) ∷ (willing, wrapped) ∷ []))
relay_all-IsBounded_example =
    relay_all-IsBounded stored plain plain ((willing, wrapped) ∷ (willing, wrapped) ∷ [])

wrapped-IsRequest : IsRequest wrapped
wrapped-IsRequest = record { id = omega arith; channel_len = omega arith }

relay_accepts : (relay stored willing plain plain new_forge_login_relay wrapped).ok ≡ true
unfolding relay lazygate.Forge.write_forge_login_response
    lazygate.Proto.Packets.encode_login_plugin_request
    lazygate.Proto.Packets.decode_login_plugin_response lazygate.Proto.Reader.read_bool
    lazygate.Proto.Reader.read_str lazygate.Proto.VarInt.var_int
    lazygate.Proto.Framing.encode_with_len lazygate.Proto.Framing.encode_without_len
    lazygate.Proto.VarInt.encode_var_int
relay_accepts = refl

relay_records_example :
    (e : ForgeLoginExchange) × ((relay stored willing plain plain new_forge_login_relay
        wrapped).relay.exchanges
      ≡ [] ++ e ∷ [])
    × (cached_forge_request_matches e asked_later ≡ true)
relay_records_example =
    relay_records stored willing plain plain new_forge_login_relay wrapped asked_later
      wrapped-IsRequest refl refl relay_accepts

forge_mod_list_reply_lem_example :
    forge_mod_list_reply (
      vec_bytes (codes "forge" ∷ [])
      ++ (pair_vec_bytes ((codes "a:b", codes "1") ∷ []) ++ vec_bytes (codes "r" ∷ [])))
    ≡ some (
        vec_bytes (codes "forge" ∷ [])
        ++ (pair_vec_bytes ((codes "a:b", codes "1") ∷ [])
            ++ pair_vec_bytes (unmarked (codes "r" ∷ []))))
forge_mod_list_reply_lem_example =
    forge_mod_list_reply_lem (codes "forge" ∷ []) ((codes "a:b", codes "1") ∷ []) (codes "r" ∷ [])
      (omega arith, tt) ((omega arith, omega arith), tt) (omega arith, tt) (omega arith)
      (omega arith) (omega arith)

abbrev acknowledgement : RawPacket
acknowledgement = record { id = 2; body = 3 ∷ codes "fml" ++ 99 ∷ [] }

acknowledged : forge_login_packet stored plain 77 (codes "fml") 99 [] ≡ some acknowledgement
unfolding forge_login_packet lazygate.Proto.Framing.encode_without_len
    lazygate.Proto.VarInt.encode_var_int
acknowledged = refl

forge_login_packet-length_example :
    (r : LoginPluginResponse) × (decode_login_plugin_response acknowledgement.body ≡ some r)
    × (r.message_id ≡ 3)
    × (r.successful ≡ not (102 == 0))
forge_login_packet-length_example =
    forge_login_packet-length stored plain 77 102 (codes "ml") 99 [] acknowledgement (omega arith)
      acknowledged
