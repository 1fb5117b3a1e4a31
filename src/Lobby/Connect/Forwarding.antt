-- ===== src/Lobby/Connect/Forwarding.antt =====
-- lobby.go: `connectToServerNoTimeout` in online mode, and the forwarding of the profile.
use mathlib.Core.Path.{subst}
use mathlib.Core.Option.{some-injective}
use lazygate.Proto.Packets.{decode_login_plugin_request}
use lazygate.Proto.Stream.{Outcome, packet, ended, failed, stuck}
use lazygate.Velocity.{velocity_player_info_channel}
use lazygate.Lobby.Connect.{Next, finish, on_outcome, then_go}
use lazygate.Prelude.{
  Bool-cases, ap, same_bytes, >>=-eq-some, inl, inr, ◌⊎◌, ℕ, Bool, true, false, not, ◌&&◌, List, [],
  ◌∷◌, ◌++◌, Bytes, Option, none, some, ◌==◌, get_elem?, ◌≡◌, refl, sym, ◌∙◌, arith,
}
use lazygate.Proto.Client.{is_compressed}
use lazygate.Proto.Framing.{RawPacket, new_raw_packet}
use lazygate.Proto.Packets.{LoginPluginRequest}
use lazygate.Forge.{Relay, Relayed, write_packet_to}
use lazygate.Velocity.{respond_velocity_forwarding}
use lazygate.Lobby.Connect.{
  Backend, BackendLogin, Round, leave, stay, answered, told_client, set_backend, compression_by,
  on_set_compression, forwarded, forwarding_frame, relayed, by_relay, success_told, success_by,
  on_login_success, on_packet, backend_login,
}
use lazygate.Lobby.Connect.Steps.{
  Leads, Leads-if, backend_login-Leads, replayed-Leads, unrelayed-Leads, on_plugin_request-Leads,
  on_packet-Leads,
}

abbrev pub Sent : Bytes → List Bytes → Type 0
Sent frame [] = ⊥
Sent frame (x ∷ xs) = (frame ≡ x) ⊎ Sent frame xs

Sent-append : (frame : Bytes) (xs ys : List Bytes) → Sent frame xs → Sent frame (xs ++ ys)
Sent-append frame [] ys never = elim never [ ]
Sent-append frame (x ∷ xs) ys (inl here) = inl here
Sent-append frame (x ∷ xs) ys (inr there) = inr (Sent-append frame xs ys there)

Sent-last : (frame : Bytes) (xs : List Bytes) → Sent frame (xs ++ frame ∷ [])
Sent-last frame [] = inl refl
Sent-last frame (x ∷ xs) = inr (Sent-last frame xs)

-- A login at the backend from a state on: in one of the rounds the backend asks for the forwarding, and
-- the answer to this request, for the authenticated profile and in the framing that the backend expects in
-- that round, is among the frames.
pub data ForwardingSent (b : Backend) (frames : List Bytes)
    : List Round → BackendLogin → Type 0 where
  forwarded_now :
      {round : Round} {rounds : List Round} {s : BackendLogin} (p : RawPacket) (raw : Bytes)
      (request : LoginPluginRequest) (body frame : Bytes)
      → round.outcome ≡ packet p raw
      → (p.id == 4) ≡ true
      → decode_login_plugin_request p.body ≡ some request
      → same_bytes request.channel velocity_player_info_channel ≡ true
      → respond_velocity_forwarding b.hmac b.secret b.is_blank b.address request b.info.profile
        ≡ some body
      → write_packet_to b.zlib round.peers.backend_up s.backend (new_raw_packet 2 body) ≡ some frame
      → Sent frame frames
      → ForwardingSent b frames (round ∷ rounds) s
  forwarded_later :
      {round : Round} {rounds : List Round} {s u : BackendLogin}
      → on_outcome b round s round.outcome ≡ stay u
      → ForwardingSent b frames rounds u
      → ForwardingSent b frames (round ∷ rounds) s

-- What holds of the frames once the flag of the profile is as D wants it; more frames keep it.
module _ (b : Backend) (D : Bool → Type 0) (G : List Bytes → Type 0)
    (risen : (f : Bool) → f ≡ true → D f)
    (G-append : (xs ys : List Bytes) → G xs → G (xs ++ ys)) where
  abbrev Tracked : Bool → List Bytes → Type 0
  Tracked is_forwarded frames = D is_forwarded → G frames

  Tracked-append : {f : Bool} (xs ys : List Bytes) → Tracked f xs → Tracked f (xs ++ ys)
  Tracked-append xs ys h e = G-append xs ys (h e)

  abbrev P : BackendLogin → Type 0
  P s = Tracked s.profile_forwarded s.to_backend

  abbrev Q : BackendLogin → Type 0
  Q s = b.online_mode ≡ true → G s.to_backend

  answered-P : (s : BackendLogin) (o : Option Bytes) → P s → Leads P Q (answered s o)
  answered-P s none h = tt
  answered-P s (some frame) h = Tracked-append s.to_backend (frame ∷ []) h

  compression_by-P :
      (round : Round) (s : BackendLogin) (p : RawPacket) (threshold : ℕ) (r : Option Relay)
      → P s
      → Leads P Q (compression_by b round s p threshold r)
  compression_by-P round s p threshold none h = h
  compression_by-P round s p threshold (some r) h =
      Leads-if P Q (is_compressed s.client) _ _
        (λ _.
          Leads-if P Q (s.client.compression == threshold) (stay (set_backend s threshold)) leave
            (λ _. h) (λ _. tt))
        (λ _. told (write_packet_to b.zlib round.peers.client_up s.client p))
    where
      told : (o : Option Bytes) → Leads P Q (told_client s threshold o)
      told none = tt
      told (some frame) = h

  on_set_compression-P :
      (round : Round) (s : BackendLogin) (p : RawPacket) (o : Option ℕ)
      → P s
      → Leads P Q (on_set_compression b round s p o)
  on_set_compression-P round s p none h = tt
  on_set_compression-P round s p (some threshold) h = compression_by-P round s p threshold s.relay h

  relayed-P : (s : BackendLogin) (out : Relayed) → P s → Leads P Q (relayed s out)
  relayed-P s out h =
      Leads-if P Q out.ok _ leave (λ _. Tracked-append s.to_backend out.to_backend h) (λ _. tt)

  by_relay-P :
      (round : Round) (s : BackendLogin) (request : LoginPluginRequest) (r : Option Relay)
      → P s
      → Leads P Q (by_relay b round s request r)
  by_relay-P round s request none h =
      let cached = get_elem? s.server.forge_login_cache s.replay_index in
      unrelayed-Leads P Q b round s request
        (replayed-Leads P Q b round s request cached h (λ _. h) answered-P) (λ a. answered-P s a h)
  by_relay-P round s request (some r) h = relayed-P s _ h

  success_by-Q :
      (round : Round) (s : BackendLogin) (p : RawPacket) (r : Option Relay)
      → Q s
      → Leads P Q (success_by b round s p r)
  success_by-Q round s p none h = h
  success_by-Q round s p (some r) h = told (write_packet_to b.zlib round.peers.client_up s.client p)
    where
      told : (o : Option Bytes) → Leads P Q (success_told s r o)
      told none = tt
      told (some frame) = h

  -- The guard of the login success: the flag is set, or the mode is offline.
  forwarded_of_guard :
      (online is_forwarded : Bool)
      → (online && not is_forwarded) ≡ false
      → online ≡ true
      → is_forwarded ≡ true
  forwarded_of_guard online is_forwarded h e = ground arith

  on_login_success-Q :
      (round : Round) (s : BackendLogin) (p : RawPacket)
      → P s
      → Leads P Q (on_login_success b round s p)
  on_login_success-Q round s p h =
      Leads-if P Q (b.online_mode && not s.profile_forwarded) leave (success_by b round s p s.relay)
        (λ _. tt)
        (λ passed. success_by-Q round s p s.relay (λ online.
          h (risen _ (forwarded_of_guard b.online_mode s.profile_forwarded passed online))))

  on_packet-P :
      (round : Round) (s : BackendLogin) (p : RawPacket)
      → P s
      → ((p.id == 4) ≡ true
          → (request : LoginPluginRequest) → decode_login_plugin_request p.body ≡ some request
          → same_bytes request.channel velocity_player_info_channel ≡ true
          → Leads P Q (forwarded s (forwarding_frame b round s request)))
      → Leads P Q (on_packet b round s p)
  on_packet-P round s p h forwards =
      on_packet-Leads P Q b round s p h (λ o. on_set_compression-P round s p o h)
        (λ is_four.
          on_plugin_request-Leads P Q b round s (decode_login_plugin_request p.body)
            (forwards is_four) (λ request. by_relay-P round s request s.relay h))
        (on_login_success-Q round s p h)

-- A frame that is sent stays sent until the end of the login.
stays_sent :
    (b : Backend) (frame : Bytes) (rounds : List Round) (s : BackendLogin) {t : BackendLogin}
    → b.online_mode ≡ true
    → Sent frame s.to_backend
    → backend_login b rounds s ≡ some t
    → Sent frame t.to_backend
stays_sent b frame rounds s online sent e =
    backend_login-Leads (P b D (Sent frame) (λ f h. tt) (Sent-append frame))
      (Q b D (Sent frame) (λ f h. tt) (Sent-append frame)) b
      (λ round u p h.
        on_packet-P b D (Sent frame) (λ f k. tt) (Sent-append frame) round u p h
          (λ is_four request decoded same. more u (forwarding_frame b round u request) (h tt)))
      rounds s (λ d. sent) e online
  where
    D : Bool → Type 0
    D f = Unit

    more :
        (u : BackendLogin) (o : Option Bytes)
        → Sent frame u.to_backend
        → Leads
            (P b D (Sent frame) (λ f h. tt) (Sent-append frame))
            (Q b D (Sent frame) (λ f h. tt) (Sent-append frame))
            (forwarded u o)
    more u none h = tt
    more u (some answer) h = λ d. Sent-append frame u.to_backend (answer ∷ []) h

-- The answer to a request in this very round, among the frames.
pub record AnsweredIn (b : Backend) (round : Round) (s : BackendLogin) (p : RawPacket)
    (frames : List Bytes) : Type 0 where
  pub is_request : (p.id == 4) ≡ true
  pub request : LoginPluginRequest
  pub decoded : decode_login_plugin_request p.body ≡ some request
  pub for_profile : same_bytes request.channel velocity_player_info_channel ≡ true
  pub body : Bytes
  pub frame : Bytes
  pub is_answer :
      respond_velocity_forwarding b.hmac b.secret b.is_blank b.address request b.info.profile
      ≡ some body
  pub is_frame :
      write_packet_to b.zlib round.peers.backend_up s.backend (new_raw_packet 2 body) ≡ some frame
  pub is_sent : Sent frame frames

module _ (b : Backend) (round : Round) (s : BackendLogin) (p : RawPacket) where
  AnsweredIn-Sent :
      (xs ys : List Bytes) (h : AnsweredIn b round s p xs)
      → Sent h.frame ys
      → AnsweredIn b round s p ys
  AnsweredIn-Sent xs ys h sent = record {
    is_request = h.is_request;
    request = h.request;
    decoded = h.decoded;
    for_profile = h.for_profile;
    body = h.body;
    frame = h.frame;
    is_answer = h.is_answer;
    is_frame = h.is_frame;
    is_sent = sent;
  }

  AnsweredIn-append :
      (xs ys : List Bytes) → AnsweredIn b round s p xs → AnsweredIn b round s p (xs ++ ys)
  AnsweredIn-append xs ys h = AnsweredIn-Sent xs (xs ++ ys) h (Sent-append h.frame xs ys h.is_sent)

  abbrev Risen : BackendLogin → Type 0
  Risen u = u.profile_forwarded ≡ true → AnsweredIn b round s p u.to_backend

  abbrev Ended : BackendLogin → Type 0
  Ended u = b.online_mode ≡ true → AnsweredIn b round s p u.to_backend

  -- The flag rises only in a round with a request, with the frame that carries the answer.
  round-Risen : s.profile_forwarded ≡ false → Leads Risen Ended (on_packet b round s p)
  round-Risen fresh =
      on_packet-P b (λ f. f ≡ true) (AnsweredIn b round s p) (λ f e. e) AnsweredIn-append round s p
        (λ raised. absurd (let bad : true ≡ false = sym raised ∙ fresh in cc)) rises
    where
      rises :
          (p.id == 4) ≡ true
          → (request : LoginPluginRequest) → decode_login_plugin_request p.body ≡ some request
          → same_bytes request.channel velocity_player_info_channel ≡ true
          → Leads Risen Ended (forwarded s (forwarding_frame b round s request))
      rises is_four request decoded same = split (forwarding_frame b round s request) refl
        where
          split :
              (o : Option Bytes)
              → forwarding_frame b round s request ≡ o
              → Leads Risen Ended (forwarded s o)
          split none e = tt
          split (some frame) e = λ _.
              (let (body, is_answer, is_frame) =
                  >>=-eq-some
                    (respond_velocity_forwarding b.hmac b.secret b.is_blank b.address request
                      b.info.profile)
                    _ e in
                record {
                  is_request = is_four;
                  request = request;
                  decoded = decoded;
                  for_profile = same;
                  body = body;
                  frame = frame;
                  is_answer = is_answer;
                  is_frame = is_frame;
                  is_sent = Sent-last frame s.to_backend;
                })

of_round :
    (b : Backend) (round : Round) (rounds : List Round) (s : BackendLogin) (p : RawPacket)
    (raw : Bytes) (frames : List Bytes)
    → round.outcome ≡ packet p raw
    → AnsweredIn b round s p frames
    → ForwardingSent b frames (round ∷ rounds) s
of_round b round rounds s p raw frames arrived a =
    forwarded_now p raw a.request a.body a.frame arrived a.is_request a.decoded a.for_profile
      a.is_answer a.is_frame a.is_sent

-- In online mode the login at the backend succeeds only if in one of the rounds the backend asked for the
-- forwarding, with a plugin request on its channel, and was sent what `respondVelocityForwarding` makes of this
-- request for the authenticated profile, in the framing of the connection in that round; whatever else
-- the backend sends, and whether a relay is there or not.
pub backend_login-ForwardingSent :
    (b : Backend) (rounds : List Round) (s : BackendLogin) {t : BackendLogin}
    → b.online_mode ≡ true
    → s.profile_forwarded ≡ false
    → backend_login b rounds s ≡ some t
    → ForwardingSent b t.to_backend rounds s
unfolding backend_login
backend_login-ForwardingSent b [] s online fresh e = absurd (cc e)
backend_login-ForwardingSent b (round ∷ rounds) s {t} online fresh e =
    by_outcome (λ u k f. backend_login-ForwardingSent b rounds u online k f) round.outcome refl e
  where
    Later : Type 0
    Later =
        (u : BackendLogin)
        → u.profile_forwarded ≡ false
        → backend_login b rounds u ≡ some t
        → ForwardingSent b t.to_backend rounds u

    goes_on :
        Later
        → (p : RawPacket) (raw : Bytes) (n : Next) → round.outcome ≡ packet p raw
        → on_outcome b round s round.outcome ≡ n
        → Leads (Risen b round s p) (Ended b round s p) n
        → then_go n (backend_login b rounds) ≡ some t
        → ForwardingSent b t.to_backend (round ∷ rounds) s
    goes_on later p raw leave arrived step leads f = absurd (cc f)
    goes_on later p raw (finish u) arrived step leads f =
        of_round b round rounds s p raw t.to_backend arrived
          (subst (λ v. AnsweredIn b round s p v.to_backend) (some-injective _ _ f) (leads online))
    goes_on later p raw (stay u) arrived step leads f = elim (Bool-cases u.profile_forwarded) [
      | inl raised ↦
          let a = leads raised in
          of_round b round rounds s p raw t.to_backend arrived (
            AnsweredIn-Sent b round s p u.to_backend t.to_backend a
              (stays_sent b a.frame rounds u online a.is_sent f))
      | inr fresh_yet ↦ forwarded_later step (later u fresh_yet f)
    ]

    by_outcome :
        Later
        → (o : Outcome) → round.outcome ≡ o
        → then_go (on_outcome b round s o) (backend_login b rounds) ≡ some t
        → ForwardingSent b t.to_backend (round ∷ rounds) s
    by_outcome later (packet p raw) arrived f =
        goes_on later p raw (on_packet b round s p) arrived (ap (on_outcome b round s) arrived)
          (round-Risen b round s p fresh) f
    by_outcome later ended arrived f = absurd (cc f)
    by_outcome later (failed err) arrived f = absurd (cc f)
    by_outcome later stuck arrived f = absurd (cc f)
