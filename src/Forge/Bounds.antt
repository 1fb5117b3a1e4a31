-- ===== src/Forge/Bounds.antt =====
-- forge.go: what `relay` keeps of the exchanges.
use lazygate.Prelude.{
  ℕ, ◌+◌, ◌≤◌, ◌<◌, Bool, true, false, not, ◌||◌, List, [], ◌∷◌, ◌++◌, Bytes, Option, none, some,
  if◌then◌else◌, ltb, leb, ◌==◌, length, length-append, same_bytes, ◌≡◌, refl, arith, Bool-cases,
  inl, inr,
}
use lazygate.Proto.Client.{Client}
use lazygate.Proto.Framing.{Zlib}
use lazygate.Proto.Packets.{
  LoginPluginRequest, LoginPluginResponse, encode_login_plugin_request,
  decode_login_plugin_response,
}
use lazygate.Proto.Stream.{Outcome, packet, ended, failed, stuck, max_packet_length}
use lazygate.Server.{ForgeLoginExchange}
use lazygate.Forge.{
  Relay, new_forge_login_relay, Peers, Relayed, refused, next_ids, delivered, relay_response,
  relay_decoded, relay_answer, relay_sent, relay, relay_forge_login_request, is_one_way,
  inspect_forge_login_wrapper, forge_channel_login_wrapper, max_forge_login_exchanges,
  max_forge_login_cache_bytes,
}

-- The bytes of the exchanges.
pub total : List ForgeLoginExchange → ℕ
total [] = 0
total (x ∷ xs) = length x.request + length x.body + total xs

total-append : (xs ys : List ForgeLoginExchange) → total (xs ++ ys) ≡ total xs + total ys
unfolding total
total-append [] ys = omega arith
total-append (x ∷ xs) ys = omega (arith, total-append xs ys)

-- The count of bytes is right, and both bounds are met.
pub record IsBounded (r : Relay) : Type 0 where
  pub counted : r.cache_bytes ≡ total r.exchanges
  pub few : length r.exchanges ≤ max_forge_login_exchanges
  pub small : r.cache_bytes ≤ max_forge_login_cache_bytes

-- One more exchange, when there is room.
add-IsBounded :
    (r : Relay) (x : ForgeLoginExchange) (n : ℕ)
    → IsBounded r
    → length r.exchanges < max_forge_login_exchanges
    → n ≡ length x.request + length x.body
    → r.cache_bytes + n ≤ max_forge_login_cache_bytes
    → IsBounded (record r { exchanges = r.exchanges ++ x ∷ []; cache_bytes = r.cache_bytes + n })
unfolding total
add-IsBounded r x n b room e fits = record {
  counted = omega (arith, b.counted, total-append r.exchanges (x ∷ []));
  few = omega (arith, length-append r.exchanges (x ∷ []));
  small = fits;
}

record Keeps (x : Relayed) : Type 0 where
  bounded : IsBounded x.relay

delivered-Keeps :
    (r : Relay) (sent : List Bytes) (frame : Option Bytes)
    → IsBounded r
    → Keeps (delivered r sent frame)
delivered-Keeps r sent none b = record { bounded = b }
delivered-Keeps r sent (some frame) b = record { bounded = b }

Keeps-if : (t : Bool) (x y : Relayed) → Keeps x → (t ≡ false → Keeps y) → Keeps (if t then x else y)
Keeps-if true x y b c = b
Keeps-if false x y b c = c refl

room_for :
    (t : Bool) (a b c : ℕ)
    → (t || ltb max_forge_login_cache_bytes (a + b + c)) ≡ false
    → a + (b + c) ≤ max_forge_login_cache_bytes
room_for t a b c e = ground arith

room_for_one :
    (t : Bool) (a b : ℕ)
    → (t || ltb max_forge_login_cache_bytes (a + b)) ≡ false
    → a + b ≤ max_forge_login_cache_bytes
room_for_one t a b e = ground arith

more_room : (a : ℕ) → leb max_forge_login_exchanges a ≡ false → a < max_forge_login_exchanges
more_room a e = ground arith

relay_response-Keeps :
    (zlib : Zlib) (up : Bool) (backend : Client) (r : Relay) (sent : List Bytes)
    (request : LoginPluginRequest) (id : ℕ) (encoded : Bytes) (response : LoginPluginResponse)
    → IsBounded r
    → length r.exchanges < max_forge_login_exchanges
    → Keeps (relay_response zlib up backend r sent request id encoded response)
unfolding relay_response
relay_response-Keeps zlib up backend r sent request id encoded response b room =
    Keeps-if (not (response.message_id == id)) (refused r sent) _ (record { bounded = b })
      (λ same.
        Keeps-if
          (ltb max_packet_length (length response.body)
            || ltb max_forge_login_cache_bytes
                (r.cache_bytes + length encoded + length response.body))
          (refused r sent) _ (record { bounded = b })
          (λ fits. delivered-Keeps _ sent _ (
            add-IsBounded r _ (length encoded + length response.body) b room refl (
              room_for (ltb max_packet_length (length response.body)) r.cache_bytes (length encoded)
                (length response.body) fits))))

relay_answer-Keeps :
    (zlib : Zlib) (up : Bool) (backend : Client) (r : Relay) (sent : List Bytes)
    (request : LoginPluginRequest) (id : ℕ) (encoded : Bytes) (answer : Outcome)
    → IsBounded r
    → length r.exchanges < max_forge_login_exchanges
    → Keeps (relay_answer zlib up backend r sent request id encoded answer)
unfolding relay_answer
relay_answer-Keeps zlib up backend r sent request id encoded ended b room = record { bounded = b }
relay_answer-Keeps zlib up backend r sent request id encoded (failed err) b room = record {
  bounded = b;
}
relay_answer-Keeps zlib up backend r sent request id encoded stuck b room = record { bounded = b }
relay_answer-Keeps zlib up backend r sent request id encoded (packet p raw) b room =
    Keeps-if (not (p.id == 2)) (refused r sent) _ (record { bounded = b })
      (λ e. decoded (decode_login_plugin_response p.body))
  where
    decoded :
        (o : Option LoginPluginResponse)
        → Keeps (relay_decoded zlib up backend r sent request id encoded o)
    decoded none = record { bounded = b }
    decoded (some response) =
        relay_response-Keeps zlib up backend r sent request id encoded response b room

relay_sent-Keeps :
    (zlib : Zlib) (peers : Peers) (backend : Client) (r : Relay) (request : LoginPluginRequest)
    (id : ℕ) (encoded : Bytes) (frame : Option Bytes)
    → IsBounded r
    → length r.exchanges < max_forge_login_exchanges
    → r.cache_bytes + length encoded ≤ max_forge_login_cache_bytes
    → Keeps (relay_sent zlib peers backend r request id encoded frame)
relay_sent-Keeps zlib peers backend r request id encoded none b room fits = record { bounded = b }
relay_sent-Keeps zlib peers backend r request id encoded (some frame) b room fits =
    elim (Bool-cases (is_one_way (inspect_forge_login_wrapper request))) [
      | inl one_way ↦
          rw one_way
            (record { bounded = add-IsBounded r _ (length encoded) b room (omega arith) fits })
      | inr answered ↦ rw answered (
          relay_answer-Keeps zlib peers.backend_up backend r _ request id encoded peers.answer b
            room)
    ]

relay-Keeps :
    (zlib : Zlib) (peers : Peers) (client backend : Client) (r : Relay)
    (request : LoginPluginRequest)
    → IsBounded r
    → Keeps (relay zlib peers client backend r request)
unfolding relay
relay-Keeps zlib peers client backend r request b =
    Keeps-if (leb max_forge_login_exchanges (length r.exchanges)) (refused r []) _
      (record { bounded = b })
      (λ room.
        Keeps-if
          (ltb max_packet_length (length encoded)
            || ltb max_forge_login_cache_bytes (r.cache_bytes + length encoded))
          (refused r₂ []) _ (record { bounded = same })
          (λ fits.
            relay_sent-Keeps zlib peers backend r₂ request id encoded _ same
              (more_room (length r.exchanges) room)
              (room_for_one (ltb max_packet_length (length encoded)) r.cache_bytes (length encoded)
                fits)))
  where
    id : ℕ
    id = (next_ids r request).1

    encoded : Bytes
    encoded = encode_login_plugin_request (record request { message_id = id })

    r₂ : Relay
    r₂ = record r { client_id = (next_ids r request).0 }

    same : IsBounded r₂
    same = record { counted = b.counted; few = b.few; small = b.small }

-- The relay after requests that come in turn, each with what the peers do.
unfoldable pub relay_all :
    Zlib → Client → Client → Relay → List (Peers × LoginPluginRequest) → Relay
relay_all zlib client backend r [] = r
relay_all zlib client backend r ((peers, request) ∷ rest) =
    relay_all zlib client backend
      (relay_forge_login_request zlib peers client backend r request).relay rest

relay_forge_login_request-IsBounded :
    (zlib : Zlib) (peers : Peers) (client backend : Client) (r : Relay)
    (request : LoginPluginRequest)
    → IsBounded r
    → IsBounded (relay_forge_login_request zlib peers client backend r request).relay
unfolding relay_forge_login_request
relay_forge_login_request-IsBounded zlib peers client backend r request b =
    (Keeps-if (not (same_bytes request.channel forge_channel_login_wrapper)) _ _
      (delivered-Keeps r [] _ b) (λ e. relay-Keeps zlib peers client backend r request b)).bounded

relay_all-kept :
    (zlib : Zlib) (client backend : Client) (r : Relay) (steps : List (Peers × LoginPluginRequest))
    → IsBounded r
    → IsBounded (relay_all zlib client backend r steps)
unfolding relay_all
relay_all-kept zlib client backend r [] b = b
relay_all-kept zlib client backend r ((peers, request) ∷ rest) b =
    relay_all-kept zlib client backend
      (relay_forge_login_request zlib peers client backend r request).relay rest
      (relay_forge_login_request-IsBounded zlib peers client backend r request b)

-- After any requests of the backend, whatever the client answers and whichever writes fail, a relay
-- holds at most 512 exchanges, its count of bytes is the sum of what the exchanges hold, and it is at
-- most 8 MiB.
pub relay_all-IsBounded :
    (zlib : Zlib) (client backend : Client) (steps : List (Peers × LoginPluginRequest))
    → IsBounded (relay_all zlib client backend new_forge_login_relay steps)
unfolding total
relay_all-IsBounded zlib client backend steps =
    relay_all-kept zlib client backend new_forge_login_relay steps
      (record { counted = refl; few = omega arith; small = omega arith })
