-- ===== src/Lobby/Connect/Hot.antt =====
-- lobby.go: the compression of the relay's client and of the backend,
use lazygate.Proto.Packets.{decode_login_plugin_request}
use lazygate.Prelude.{
  Bytes, ◌&&◌, inl, inr, ◌⊎◌, ℕ, not, List, Option, none, some, ◌==◌, ==_iff, get_elem?, ◌≡◌, refl,
}
use lazygate.Proto.Client.{Client, is_compressed, minus_one}
use lazygate.Proto.Framing.{RawPacket}
use lazygate.Proto.Packets.{LoginPluginRequest}
use lazygate.Forge.{Relay, write_packet_to, relay_forge_login_request}
use lazygate.Server.{ServerState}
use lazygate.Lobby.Connect.{
  Backend, BackendLogin, Round, leave, stay, answered, told_client, set_backend, compression_by,
  on_set_compression, forwarded, forwarding_frame, by_relay, success_told, success_by, on_packet,
  backend_login, start_login,
}
use lazygate.Lobby.Connect.Steps.{
  Leads, Leads-if, backend_login-Leads, replayed-Leads, unrelayed-Leads, on_plugin_request-Leads,
  on_packet-Leads,
}

-- Without a relay nothing is asked; with one, the backend has not set its compression yet, or the
-- client has the same.
abbrev pub InStep : Option Relay → ℕ → ℕ → Type 0
InStep none client backend = Unit
InStep (some r) client backend = (backend ≡ minus_one) ⊎ (client ≡ backend)

abbrev Steady : BackendLogin → Type 0
Steady s = InStep s.relay s.client.compression s.backend.compression

module _ (b : Backend) where
  answered-Steady :
      (s : BackendLogin) (o : Option Bytes) → Steady s → Leads Steady Steady (answered s o)
  answered-Steady s none h = tt
  answered-Steady s (some frame) h = h

  eq-InStep : (r : Option Relay) (client backend : ℕ) → client ≡ backend → InStep r client backend
  eq-InStep none client backend e = tt
  eq-InStep (some r) client backend e = inr e

  compression_by-Steady :
      (round : Round) (s : BackendLogin) (p : RawPacket) (threshold : ℕ) (r : Option Relay)
      → s.relay ≡ r
      → Steady s
      → Leads Steady Steady (compression_by b round s p threshold r)
  compression_by-Steady round s p threshold none same h = rw same tt
  compression_by-Steady round s p threshold (some r) same h =
      Leads-if Steady Steady (is_compressed s.client) _ _
        (λ _.
          Leads-if Steady Steady (s.client.compression == threshold)
            (stay (set_backend s threshold)) leave
            (λ e. eq-InStep s.relay s.client.compression threshold ((==_iff _ _).0 e)) (λ _. tt))
        (λ _. told (write_packet_to b.zlib round.peers.client_up s.client p))
    where
      told : (o : Option Bytes) → Leads Steady Steady (told_client s threshold o)
      told none = tt
      told (some frame) = eq-InStep s.relay threshold threshold refl

  on_set_compression-Steady :
      (round : Round) (s : BackendLogin) (p : RawPacket) (o : Option ℕ)
      → Steady s
      → Leads Steady Steady (on_set_compression b round s p o)
  on_set_compression-Steady round s p none h = tt
  on_set_compression-Steady round s p (some threshold) h =
      compression_by-Steady round s p threshold s.relay refl h

  forwarded-Steady :
      (s : BackendLogin) (o : Option Bytes) → Steady s → Leads Steady Steady (forwarded s o)
  forwarded-Steady s none h = tt
  forwarded-Steady s (some frame) h = h

  by_relay-Steady :
      (round : Round) (s : BackendLogin) (request : LoginPluginRequest) (r : Option Relay)
      → s.relay ≡ r
      → Steady s
      → Leads Steady Steady (by_relay b round s request r)
  by_relay-Steady round s request none same h =
      let cached = get_elem? s.server.forge_login_cache s.replay_index in
      unrelayed-Leads Steady Steady b round s request
        (replayed-Leads Steady Steady b round s request cached h (λ _. h) answered-Steady)
        (λ a. answered-Steady s a h)
  by_relay-Steady round s request (some r) same h =
      let out = relay_forge_login_request b.zlib round.peers s.client s.backend r request in
      Leads-if Steady Steady out.ok _ leave (λ _. rw same at h) (λ _. tt)

  success_by-Steady :
      (round : Round) (s : BackendLogin) (p : RawPacket) (r : Option Relay)
      → Steady s
      → Leads Steady Steady (success_by b round s p r)
  success_by-Steady round s p none h = h
  success_by-Steady round s p (some r) h =
      told (write_packet_to b.zlib round.peers.client_up s.client p)
    where
      told : (o : Option Bytes) → Leads Steady Steady (success_told s r o)
      told none = tt
      told (some frame) = h

  on_packet-Steady :
      (round : Round) (s : BackendLogin) (p : RawPacket)
      → Steady s
      → Leads Steady Steady (on_packet b round s p)
  on_packet-Steady round s p h =
      on_packet-Leads Steady Steady b round s p h (λ o. on_set_compression-Steady round s p o h)
        (λ is_four.
          on_plugin_request-Leads Steady Steady b round s (decode_login_plugin_request p.body)
            (λ request decoded same. forwarded-Steady s (forwarding_frame b round s request) h)
            (λ request. by_relay-Steady round s request s.relay refl h))
        (Leads-if Steady Steady (b.online_mode && not s.profile_forwarded) leave
          (success_by b round s p s.relay) (λ _. tt) (λ _. success_by-Steady round s p s.relay h))

-- When a login with a relay succeeds, the client of the relay has the compression that the backend has set last,
-- unless the backend has left its compression as it was at the start; whatever the
-- compression of the client was before.
pub backend_login-InStep :
    (b : Backend) (rounds : List Round) (client : Client) (relay : Option Relay)
    (server : ServerState) {t : BackendLogin}
    → backend_login b rounds (start_login client relay server) ≡ some t
    → InStep t.relay t.client.compression t.backend.compression
backend_login-InStep b rounds client relay server e =
    backend_login-Leads Steady Steady b (on_packet-Steady b) rounds
      (start_login client relay server) (fresh relay) e
  where
    fresh : (r : Option Relay) → InStep r client.compression minus_one
    fresh none = tt
    fresh (some r) = inl refl
