-- ===== src/Lobby/Connect/Steps.antt =====
-- lobby.go: what a round of `connectToServerNoTimeout` leads to.
use mathlib.Core.Path.{subst}
use mathlib.Core.Option.{some-injective}
use lazygate.Prelude.{
  ◌+◌, ◌≢◌, ℕ, Bool, true, false, not, ◌&&◌, List, [], ◌∷◌, Bytes, Option, none, some,
  if◌then◌else◌, ◌==◌, length, get_elem?, same_bytes, ◌≡◌, refl,
}
use lazygate.Proto.Client.{login}
use lazygate.Proto.Framing.{RawPacket}
use lazygate.Proto.Packets.{LoginPluginRequest, decode_login_plugin_request, decode_set_compression}
use lazygate.Proto.Stream.{Outcome, packet, ended, failed, stuck}
use lazygate.Forge.{is_forge_fml3, forge_channel_login_wrapper}
use lazygate.Forge.Answer.{respond_login_plugin_request}
use lazygate.Forge.Replay.{cached_forge_request_matches, replay_forge_login_response}
use lazygate.Serve.{same_client_state}
use lazygate.Server.{ForgeLoginExchange}
use lazygate.Velocity.{velocity_player_info_channel}
use lazygate.Lobby.Connect.{
  Backend, BackendLogin, Round, Next, leave, stay, finish, answered, on_set_compression, forwarded,
  forwarding_frame, rejection, replayed, unrelayed, by_relay, on_plugin_request, on_login_success,
  on_packet, on_outcome, then_go, backend_login,
}

-- What holds after a round that goes on, and at the end of the login.
abbrev pub Leads : (BackendLogin → Type 0) → (BackendLogin → Type 0) → Next → Type 0
Leads P Q leave = Unit
Leads P Q (stay s) = P s
Leads P Q (finish s) = Q s

pub Leads-if :
    (P Q : BackendLogin → Type 0) (t : Bool) (x y : Next)
    → (t ≡ true → Leads P Q x)
    → (t ≡ false → Leads P Q y)
    → Leads P Q (if t then x else y)
Leads-if P Q true x y h k = h refl
Leads-if P Q false x y h k = k refl

-- What each round keeps holds whenever the login succeeds.
pub backend_login-Leads :
    (P Q : BackendLogin → Type 0) (b : Backend)
    → ((round : Round) (s : BackendLogin) (p : RawPacket) → P s → Leads P Q (on_packet b round s p))
    → (rounds : List Round) (s : BackendLogin) {t : BackendLogin} → P s
    → backend_login b rounds s ≡ some t
    → Q t
unfolding backend_login
backend_login-Leads P Q b keep [] s h e = absurd (cc e)
backend_login-Leads P Q b keep (round ∷ rounds) s {t} h e =
    after (on_outcome b round s round.outcome) (outcome round.outcome)
      (λ u k. backend_login-Leads P Q b keep rounds u k) e
  where
    outcome : (o : Outcome) → Leads P Q (on_outcome b round s o)
    outcome (packet p raw) = keep round s p h
    outcome ended = tt
    outcome (failed err) = tt
    outcome stuck = tt

    after :
        (n : Next)
        → Leads P Q n
        → ((u : BackendLogin) → P u → backend_login b rounds u ≡ some t → Q t)
        → then_go n (backend_login b rounds) ≡ some t
        → Q t
    after leave k later f = absurd (cc f)
    after (stay u) k later f = later u k f
    after (finish u) k later f = subst Q (some-injective _ _ f) k

module _ (P Q : BackendLogin → Type 0) (b : Backend) (round : Round) (s : BackendLogin) where
  pub replayed-Leads :
      (request : LoginPluginRequest) (o : Option ForgeLoginExchange)
      → P s
      → (o ≢ none → P (record s { replay_index = s.replay_index + 1 }))
      → ((t : BackendLogin) (a : Option Bytes) → P t → Leads P Q (answered t a))
      → Leads P Q (replayed b round s request o)
  replayed-Leads request none here later answers = answers s (rejection b round s request) here
  replayed-Leads request (some x) here later answers =
      let next = later (λ e. cc e) in
      Leads-if P Q (not (cached_forge_request_matches x request)) leave _ (λ _. tt)
        (λ _.
          Leads-if P Q x.no_response _ _ (λ _. next)
            (λ _.
              answers (record s { replay_index = s.replay_index + 1 })
                (replay_forge_login_response b.zlib round.peers.backend_up s.backend x
                  request.message_id)
                next))

  pub unrelayed-Leads :
      (request : LoginPluginRequest)
      → Leads P Q (replayed b round s request (get_elem? s.server.forge_login_cache s.replay_index))
      → ((a : Option Bytes) → Leads P Q (answered s a))
      → Leads P Q (unrelayed b round s request)
  unfolding unrelayed
  unrelayed-Leads request cached answers =
      Leads-if P Q
        (b.has_server
          && (same_bytes request.channel forge_channel_login_wrapper
              && not (length s.server.forge_login_cache == 0)))
        (replayed b round s request (get_elem? s.server.forge_login_cache s.replay_index)) _
        (λ _. cached)
        (λ _.
          Leads-if P Q (b.forge && is_forge_fml3 b.info) (answered s (rejection b round s request))
            _ (λ _. answers (rejection b round s request))
            (λ _.
              Leads-if P Q b.forge
                (answered s
                  (respond_login_plugin_request b.zlib round.peers.backend_up s.backend request))
                (answered s (rejection b round s request)) (λ _. answers _)
                (λ _. answers (rejection b round s request))))

  pub on_plugin_request-Leads :
      (o : Option LoginPluginRequest)
      → ((request : LoginPluginRequest)
          → o ≡ some request
          → same_bytes request.channel velocity_player_info_channel ≡ true
          → Leads P Q (forwarded s (forwarding_frame b round s request)))
      → ((request : LoginPluginRequest) → Leads P Q (by_relay b round s request s.relay))
      → Leads P Q (on_plugin_request b round s o)
  on_plugin_request-Leads none forwards relays = tt
  on_plugin_request-Leads (some request) forwards relays =
      Leads-if P Q (same_bytes request.channel velocity_player_info_channel)
        (forwarded s (forwarding_frame b round s request)) (by_relay b round s request s.relay)
        (λ same. forwards request refl same) (λ _. relays request)

  -- A round, from its three kinds of packets.
  pub on_packet-Leads :
      (p : RawPacket)
      → P s
      → ((o : Option ℕ) → Leads P Q (on_set_compression b round s p o))
      → ((p.id == 4) ≡ true
          → Leads P Q (on_plugin_request b round s (decode_login_plugin_request p.body)))
      → Leads P Q (on_login_success b round s p)
      → Leads P Q (on_packet b round s p)
  unfolding on_packet
  on_packet-Leads p here compression plugin success =
      Leads-if P Q (not (same_client_state s.backend.state login)) (stay s) _ (λ _. here)
        (λ _.
          Leads-if P Q (p.id == 3) (on_set_compression b round s p (decode_set_compression p.body))
            _ (λ _. compression (decode_set_compression p.body))
            (λ _.
              Leads-if P Q (p.id == 1) leave _ (λ _. tt)
                (λ _.
                  Leads-if P Q (p.id == 4)
                    (on_plugin_request b round s (decode_login_plugin_request p.body)) _ plugin
                    (λ _.
                      Leads-if P Q (p.id == 2) (on_login_success b round s p) _ (λ _. success)
                        (λ _. Leads-if P Q (p.id == 0) leave (stay s) (λ _. tt) (λ _. here))))))
