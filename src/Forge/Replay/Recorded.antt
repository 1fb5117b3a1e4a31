-- ===== src/Forge/Replay/Recorded.antt =====
-- forge.go: what `relay` records of a request, and which requests it matches later.
use lazygate.Prelude.{
  ℕ, ◌+◌, Bool, true, false, not, ◌||◌, List, [], ◌∷◌, ◌++◌, Bytes, Option, none, some,
  if◌then◌else◌, length, same_bytes_refl, ◌≡◌, refl, arith, ltb, leb, ◌==◌, ◌∙◌, ap,
}
use lazygate.Proto.Client.{Client}
use lazygate.Proto.Framing.{Zlib}
use lazygate.Proto.Packets.{
  LoginPluginRequest, LoginPluginResponse, encode_login_plugin_request, decode_login_plugin_request,
  decode_login_plugin_response, IsRequest,
}
use lazygate.Proto.Packets.RoundTrip.{decode_login_plugin_request-encode_login_plugin_request}
use lazygate.Proto.Stream.{Outcome, packet, ended, failed, stuck, max_packet_length}
use lazygate.Proto.VarInt.{IsInt32}
use lazygate.Server.{ForgeLoginExchange}
use lazygate.Forge.{
  Relay, Peers, Relayed, refused, next_ids, delivered, relay_response, relay_decoded, relay_answer,
  relay_sent, relay, is_one_way, inspect_forge_login_wrapper, max_forge_login_exchanges,
  max_forge_login_cache_bytes,
}
use lazygate.Forge.Replay.{is_same_request, cached_forge_request_matches}

-- One exchange is added for what was sent to the client, if there is no error.
Records : Relay → Bytes → Relayed → Type 0
Records r encoded x =
    x.ok ≡ true
    → (e : ForgeLoginExchange) × (x.relay.exchanges ≡ r.exchanges ++ e ∷ []) × (e.request ≡ encoded)

refused-Records :
    (r : Relay) (encoded : Bytes) (r₂ : Relay) (sent : List Bytes)
    → Records r encoded (refused r₂ sent)
unfolding Records
refused-Records r encoded r₂ sent = λ e. cc

module _ (r : Relay) (encoded : Bytes) where
  Records-if :
      (t : Bool) (x y : Relayed)
      → Records r encoded x
      → Records r encoded y
      → Records r encoded (if t then x else y)
  Records-if true x y b c = b
  Records-if false x y b c = c

  delivered-Records :
      (r₂ : Relay) (sent : List Bytes) (frame : Option Bytes) (e : ForgeLoginExchange)
      → r₂.exchanges ≡ r.exchanges ++ e ∷ []
      → e.request ≡ encoded
      → Records r encoded (delivered r₂ sent frame)
  unfolding Records
  delivered-Records r₂ sent none e added same = refused-Records r encoded r₂ sent
  delivered-Records r₂ sent (some frame) e added same = λ ok. (e, added, same)

module _ (zlib : Zlib) (up : Bool) (backend : Client) (r r₂ : Relay) (sent : List Bytes)
    (request : LoginPluginRequest) (id : ℕ) (encoded : Bytes)
    (same : r₂.exchanges ≡ r.exchanges) where
  relay_response-Records :
      (response : LoginPluginResponse)
      → Records r encoded (relay_response zlib up backend r₂ sent request id encoded response)
  unfolding relay_response
  relay_response-Records response =
      Records-if r encoded (not (response.message_id == id)) (refused r₂ sent) _
        (refused-Records r encoded r₂ sent)
        (Records-if r encoded
          (ltb max_packet_length (length response.body)
            || ltb max_forge_login_cache_bytes
                (r₂.cache_bytes + length encoded + length response.body))
          (refused r₂ sent) _ (refused-Records r encoded r₂ sent)
          (delivered-Records r encoded _ sent _ exchange (ap (λ xs. xs ++ exchange ∷ []) same)
            refl))
    where
      exchange : ForgeLoginExchange
      exchange = record {
        request = encoded;
        success = response.successful;
        body = response.body;
        no_response = false;
      }

  relay_answer-Records :
      (answer : Outcome)
      → Records r encoded (relay_answer zlib up backend r₂ sent request id encoded answer)
  unfolding relay_answer
  relay_answer-Records ended = refused-Records r encoded r₂ sent
  relay_answer-Records (failed err) = refused-Records r encoded r₂ sent
  relay_answer-Records stuck = refused-Records r encoded r₂ sent
  relay_answer-Records (packet p raw) =
      Records-if r encoded (not (p.id == 2)) (refused r₂ sent) _ (refused-Records r encoded r₂ sent)
        (decoded (decode_login_plugin_response p.body))
    where
      decoded :
          (o : Option LoginPluginResponse)
          → Records r encoded (relay_decoded zlib up backend r₂ sent request id encoded o)
      decoded none = refused-Records r encoded r₂ sent
      decoded (some response) = relay_response-Records response

relay_sent-Records :
    (zlib : Zlib) (peers : Peers) (backend : Client) (r r₂ : Relay) (request : LoginPluginRequest)
    (id : ℕ) (encoded : Bytes) (frame : Option Bytes)
    → r₂.exchanges ≡ r.exchanges
    → Records r encoded (relay_sent zlib peers backend r₂ request id encoded frame)
unfolding Records
relay_sent-Records zlib peers backend r r₂ request id encoded none same =
    refused-Records r encoded r₂ []
relay_sent-Records zlib peers backend r r₂ request id encoded (some frame) same =
    Records-if r encoded (is_one_way (inspect_forge_login_wrapper request)) _ _
      (λ ok. (exchange, ap (λ xs. xs ++ exchange ∷ []) same, refl))
      (relay_answer-Records zlib peers.backend_up backend r r₂ (frame ∷ []) request id encoded same
        peers.answer)
  where
    exchange : ForgeLoginExchange
    exchange = record { request = encoded; success = false; body = []; no_response = true }

relay-Records :
    (zlib : Zlib) (peers : Peers) (client backend : Client) (r : Relay)
    (request : LoginPluginRequest)
    → Records r
        (encode_login_plugin_request (record request { message_id = (next_ids r request).1 }))
        (relay zlib peers client backend r request)
unfolding relay
relay-Records zlib peers client backend r request =
    Records-if r encoded (leb max_forge_login_exchanges (length r.exchanges)) (refused r []) _
      (refused-Records r encoded r [])
      (Records-if r encoded
        (ltb max_packet_length (length encoded)
          || ltb max_forge_login_cache_bytes (r.cache_bytes + length encoded))
        (refused r₂ []) _ (refused-Records r encoded r₂ [])
        (relay_sent-Records zlib peers backend r r₂ request id encoded _ refl))
  where
    id : ℕ
    id = (next_ids r request).1

    encoded : Bytes
    encoded = encode_login_plugin_request (record request { message_id = id })

    r₂ : Relay
    r₂ = record r { client_id = (next_ids r request).0 }

next_ids-IsInt32 :
    (r : Relay) (request : LoginPluginRequest)
    → IsInt32 request.message_id
    → IsInt32 (next_ids r request).1
next_ids-IsInt32 r request int = ground arith

-- A request with an int32 id and a channel of at most 32767 bytes that the relay handles without an error
-- adds one exchange to those that are kept, behind the others, and that exchange matches every request with the
-- same channel and data.
pub relay_records :
    (zlib : Zlib) (peers : Peers) (client backend : Client) (r : Relay)
    (request later : LoginPluginRequest)
    → IsRequest request
    → later.channel ≡ request.channel
    → later.body ≡ request.body
    → (relay zlib peers client backend r request).ok ≡ true
    → (e : ForgeLoginExchange) × ((relay zlib peers client backend r request).relay.exchanges
        ≡ r.exchanges ++ e ∷ [])
      × (cached_forge_request_matches e later ≡ true)
unfolding Records cached_forge_request_matches
relay_records zlib peers client backend r request later is_request same_channel same_body ok =
    let (e, added, recorded) = relay-Records zlib peers client backend r request ok in
    let asked =
      decode_login_plugin_request-encode_login_plugin_request
        (record request { message_id = (next_ids r request).1 })
        (record {
          id = next_ids-IsInt32 r request is_request.id;
          channel_len = is_request.channel_len;
        }) in
    (
      e,
      added,
      ap (is_same_request later) (ap decode_login_plugin_request recorded ∙ asked)
          ∙ simp (same_channel, same_body, same_bytes_refl),
    )
