-- ===== src/Join/Fates.antt =====
-- join.go: the methods against what they are for.
use lazygate.Prelude.{
  ℕ, ◌+◌, Bool, true, false, not, List, [], ◌∷◌, ◌++◌, Bytes, none, if◌then◌else◌, All, ◌≡◌, ◌≢◌,
  ◌⊎◌, refl, sym, ap, arith, Bool-cases, inl, inr,
}
use lazygate.Forge.{is_forge_fml3}
use lazygate.Proto.Client.{ClientInfo}
use lazygate.Route.{
  Method, kick, hold, forward, lobby, RouteConfig, validate_online_mode_config, is_lobby_first,
  should_route_direct_proxy,
}
use lazygate.Server.{State, stopped, starting, started, stopping}
use lazygate.Join.{
  JoinConfig, World, Fate, kicked, proxied, forwarded, in_lobby, disconnected, hold_client,
  hold_occupy, must_still_probe, kick_message, occupy,
}

-- The first state other than starting is started.
pub StartsFirst : List State → Type 0
StartsFirst states =
    (before : List State) × (after : List State) × (states ≡ before ++ started ∷ after)
    × All (λ (s : State). s ≡ starting) before

hold_client-StartsFirst : (states : List State) → hold_client states ≡ true → StartsFirst states
unfolding hold_client StartsFirst
hold_client-StartsFirst [] e = ground arith
hold_client-StartsFirst (starting ∷ rest) e =
    let (before, after, split, all) = hold_client-StartsFirst rest e in
    (starting ∷ before, after, ap (◌∷◌ starting) split, (refl, all))
hold_client-StartsFirst (started ∷ rest) e = ([], rest, refl, tt)
hold_client-StartsFirst (stopping ∷ rest) e = ground arith
hold_client-StartsFirst (stopped ∷ rest) e = ground arith

-- A hold that proxies: the server was starting, and the first other state that arrived in time was started.
pub IsHeld : World → Type 0
IsHeld w = (w.state ≡ starting) × StartsFirst w.received

hold_occupy-IsHeld : (w : World) → hold_occupy w ≡ true → IsHeld w
unfolding hold_occupy IsHeld
hold_occupy-IsHeld w e = by_state w.state refl e
  where
    by_state :
        (s : State)
        → s ≡ w.state
        → (if not (elim s as (λ x. Bool) [
          | starting ↦ true
          | stopped ↦ false
          | started ↦ false
          | stopping ↦ false
        ])
            then false
            else hold_client w.received)
          ≡ true
        → (w.state ≡ starting) × StartsFirst w.received
    by_state starting same held = (sym same, hold_client-StartsFirst w.received held)
    by_state stopped same held = ground arith
    by_state started same held = ground arith
    by_state stopping same held = ground arith

hold_client-of_StartsFirst :
    (before after : List State)
    → All (λ (s : State). s ≡ starting) before
    → hold_client (before ++ started ∷ after) ≡ true
unfolding hold_client
hold_client-of_StartsFirst [] after all = refl
hold_client-of_StartsFirst (s ∷ before) after (same, all) =
    rw same (hold_client-of_StartsFirst before after all)

hold_occupy-of_IsHeld : (w : World) → IsHeld w → hold_occupy w ≡ true
unfolding hold_occupy IsHeld StartsFirst
hold_occupy-of_IsHeld w (at_start, (before, after, split, all)) =
    rw (at_start, split) (hold_client-of_StartsFirst before after all)

-- The lobby passes on a client of a Forge pack that is older than FML3, while the probe has no data.
pub record NeedsProbe (config : JoinConfig) (w : World) (info : ClientInfo) : Type 0 where
  pub for_forge : config.forge ≡ true
  pub is_legacy : is_forge_fml3 info ≡ false
  pub no_data : w.has_probe ≡ false

must_still_probe-NeedsProbe :
    (config : JoinConfig) (w : World) (info : ClientInfo)
    → must_still_probe config w info ≡ true
    → NeedsProbe config w info
unfolding must_still_probe
must_still_probe-NeedsProbe config w info e = record {
  for_forge = ground arith;
  is_legacy = ground arith;
  no_data = ground arith;
}

must_still_probe-of_NeedsProbe :
    (config : JoinConfig) (w : World) (info : ClientInfo)
    → NeedsProbe config w info
    → must_still_probe config w info ≡ true
unfolding must_still_probe
must_still_probe-of_NeedsProbe config w info needs =
    rw (needs.for_forge, needs.is_legacy, needs.no_data) refl

-- The message that a kick shows in a state.
abbrev pub IsMessage : JoinConfig → State → Bytes → Type 0
IsMessage config state message =
    ((state ≡ stopping) × (message ≡ config.kick_stopping))
    ⊎ ((state ≢ stopping) × (message ≡ config.kick_starting))

kick_message-IsMessage :
    (config : JoinConfig) (s : State) → IsMessage config s (kick_message config s)
unfolding kick_message
kick_message-IsMessage config starting = inr (λ e. ground arith, refl)
kick_message-IsMessage config stopped = inr (λ e. ground arith, refl)
kick_message-IsMessage config started = inr (λ e. ground arith, refl)
kick_message-IsMessage config stopping = inl (refl, refl)

module _ (config : JoinConfig) (worlds : ℕ → World) (info : ClientInfo) where
  -- A method that leaves the client to the next one: a hold that does not proxy, or a lobby that waits for the
  -- probe.
  pub data Passes (n : ℕ) : Method → Type 0 where
    hold_passes : ¬ IsHeld (worlds n) → Passes n hold
    lobby_passes : NeedsProbe config (worlds n) info → Passes n lobby

  -- The method of the number k comes to turn: all methods before it leave the client to the next one. `n` is the
  -- number of the first.
  pub data Reaches : ℕ → List Method → ℕ → Method → Type 0 where
    reached_here : {n : ℕ} {m : Method} {rest : List Method} → Reaches n (m ∷ rest) n m
    reached_later :
        {n k : ℕ} {m last : Method} {rest : List Method}
        → Passes n m
        → Reaches (n + 1) rest k last
        → Reaches n (m ∷ rest) k last

  -- All methods leave the client to the next one.
  pub data PassAll : ℕ → List Method → Type 0 where
    none_left : {n : ℕ} → PassAll n []
    one_passes :
        {n : ℕ} {m : Method} {rest : List Method}
        → Passes n m
        → PassAll (n + 1) rest
        → PassAll n (m ∷ rest)

  module _ (history queue : Bytes) where
    -- Which method came to turn, what it saw, and with which message or bytes the client leaves.
    pub AsMeant : ℕ → List Method → Fate → Type 0
    AsMeant n methods (kicked message) =
        (k : ℕ) × Reaches n methods k kick × IsMessage config (worlds k).state message
    AsMeant n methods (proxied bytes) =
        (k : ℕ) × Reaches n methods k hold × IsHeld (worlds k) × (bytes ≡ history)
    AsMeant n methods (forwarded bytes) = (k : ℕ) × Reaches n methods k forward × (bytes ≡ history)
    AsMeant n methods (in_lobby bytes) =
        (k : ℕ) × Reaches n methods k lobby
        × (¬ NeedsProbe config (worlds k) info)
        × (bytes ≡ queue)
    AsMeant n methods disconnected = PassAll n methods

    later-AsMeant :
        (n : ℕ) (m : Method) (rest : List Method) (fate : Fate)
        → Passes n m
        → AsMeant (n + 1) rest fate
        → AsMeant n (m ∷ rest) fate
    unfolding AsMeant
    later-AsMeant n m rest (kicked message) passes (k, r, h) = (k, reached_later passes r, h)
    later-AsMeant n m rest (proxied bytes) passes (k, r, h, e) = (k, reached_later passes r, h, e)
    later-AsMeant n m rest (forwarded bytes) passes (k, r, h) = (k, reached_later passes r, h)
    later-AsMeant n m rest (in_lobby bytes) passes (k, r, h, e) = (k, reached_later passes r, h, e)
    later-AsMeant n m rest disconnected passes meant = one_passes passes meant

    hold-Passes : (n : ℕ) → hold_occupy (worlds n) ≡ false → Passes n hold
    hold-Passes n fails =
        hold_passes (λ held. ground (arith, hold_occupy-of_IsHeld (worlds n) held, fails))

    ready :
        (n : ℕ)
        → must_still_probe config (worlds n) info ≡ false
        → ¬ NeedsProbe config (worlds n) info
    ready n e needs = ground (arith, must_still_probe-of_NeedsProbe config (worlds n) info needs, e)

    -- Whatever the methods are and whatever they see, the fate of a client is that of the first method that does
    -- not leave it to the next one. A hold proxies it with its whole history if it saw the server starting and
    -- then, as the first other state in time, started, and else leaves it; a lobby leaves it as long as a
    -- Forge client older than FML3 lacks the probe's data, and else takes it with its login queue. A forward
    -- forwards it with its history, and a kick shows the message for stopping if the server is
    -- stopping and else the one for starting. If all methods leave it, it is disconnected.
    pub occupy-AsMeant :
        (n : ℕ) (methods : List Method)
        → AsMeant n methods (occupy config worlds info history queue n methods)
    unfolding AsMeant occupy
    occupy-AsMeant n [] = none_left
    occupy-AsMeant n (kick ∷ rest) =
        (n, reached_here, kick_message-IsMessage config (worlds n).state)
    occupy-AsMeant n (hold ∷ rest) = elim (Bool-cases (hold_occupy (worlds n))) [
      | inl held ↦ simp (held) (n, reached_here, hold_occupy-IsHeld (worlds n) held, refl)
      | inr fails ↦
          simp (fails)
            (later-AsMeant n hold rest _ (hold-Passes n fails) (occupy-AsMeant (n + 1) rest))
    ]
    occupy-AsMeant n (forward ∷ rest) = (n, reached_here, refl)
    occupy-AsMeant n (lobby ∷ rest) = elim (Bool-cases (must_still_probe config (worlds n) info)) [
      | inl unready ↦ simp (unready) (
          later-AsMeant n lobby rest _
            (lobby_passes (must_still_probe-NeedsProbe config (worlds n) info unready))
            (occupy-AsMeant (n + 1) rest))
      | inr free ↦ simp (free) (n, reached_here, ready n free, refl)
    ]

-- The methods of a configuration that is accepted with online mode begin with the lobby.
lobby_first :
    (is_loopback has_secret : Bool) (route_config : RouteConfig)
    → validate_online_mode_config is_loopback has_secret route_config ≡ none
    → route_config.online_mode ≡ true
    → is_lobby_first route_config.methods ≡ true
unfolding validate_online_mode_config
lobby_first is_loopback has_secret route_config accepted online = ground arith

-- With a configuration that is accepted and has online mode on, no connection is proxied past `Serve`, and a
-- client for which no probe is needed any more is in the lobby.
pub occupy_online_ready :
    (is_loopback has_secret : Bool) (route_config : RouteConfig) (config : JoinConfig)
    (worlds : ℕ → World) (info : ClientInfo) (history queue : Bytes) (n : ℕ) (state : State)
    (banned : Bool)
    → validate_online_mode_config is_loopback has_secret route_config ≡ none
    → route_config.online_mode ≡ true
    → must_still_probe config (worlds n) info ≡ false
    → (should_route_direct_proxy route_config state banned ≡ false)
      × (occupy config worlds info history queue n route_config.methods ≡ in_lobby queue)
unfolding should_route_direct_proxy occupy
occupy_online_ready is_loopback has_secret route_config config worlds info history queue n state
      banned accepted online ready =
    (
      ground arith,
      by_first route_config.methods ready
          (lobby_first is_loopback has_secret route_config accepted online),
    )
  where
    by_first :
        (methods : List Method)
        → must_still_probe config (worlds n) info ≡ false
        → is_lobby_first methods ≡ true
        → occupy config worlds info history queue n methods ≡ in_lobby queue
    by_first [] ready e = ground arith
    by_first (lobby ∷ rest) ready e = simp (ready)
    by_first (kick ∷ rest) ready e = ground arith
    by_first (hold ∷ rest) ready e = ground arith
    by_first (forward ∷ rest) ready e = ground arith

-- A configuration with online mode on, a loopback backend, a forwarding secret, and a hold behind the lobby is
-- accepted; and with it a client for which a probe is still needed, and whose hold sees the server start, is
-- proxied to the backend with its history, past the lobby.
pub occupy_online_unready :
    (route_config : RouteConfig) (config : JoinConfig) (worlds : ℕ → World) (info : ClientInfo)
    (history queue : Bytes) (n : ℕ) (rest : List Method)
    → route_config.online_mode ≡ true
    → route_config.methods ≡ lobby ∷ hold ∷ rest
    → must_still_probe config (worlds n) info ≡ true
    → hold_occupy (worlds (n + 1)) ≡ true
    → (validate_online_mode_config true true route_config ≡ none)
      × (occupy config worlds info history queue n route_config.methods ≡ proxied history)
unfolding occupy validate_online_mode_config
occupy_online_unready route_config config worlds info history queue n rest online methods unready
      held =
    (simp (online, methods), rw methods (simp (unready, held)))
