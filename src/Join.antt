-- ===== src/Join.antt =====
-- join.go and its methods: what becomes of a client that logs in.
--
-- What a method sees of the world is a parameter for each: the server's state, the states that its subscription
-- delivers before the hold's timeout, and whether the probe has its data. The lobby and the proxy are not
-- modelled: a client ends in one of them, with the bytes that it is handed on with.
pub mod Fates
mod Examples
use lazygate.Prelude.{
  ℕ, zero, suc, ◌+◌, Bool, true, false, not, ◌&&◌, List, [], ◌∷◌, Bytes, Option, none, some,
  if◌then◌else◌,
}
use lazygate.Forge.{is_forge_fml3}
use lazygate.Proto.Client.{ClientInfo}
use lazygate.Proto.Framing.{Zlib}
use lazygate.Route.{Method, kick, hold, forward, lobby}
use lazygate.Server.{State, stopped, starting, started, stopping}

pub record JoinConfig : Type 0 where
  pub forge : Bool  -- Server.Forge
  pub kick_starting : Bytes  -- Join.Kick.Starting
  pub kick_stopping : Bytes  -- Join.Kick.Stopping

-- What a method sees.
pub record World : Type 0 where
  pub state : State
  pub received : List State
  pub has_probe : Bool

-- What becomes of the client: kicked with a message, proxied to the server or forwarded with its history,
-- left to the lobby with its login queue, or disconnected when no method is left.
pub data Fate : Type 0 where
  kicked : Bytes → Fate
  proxied forwarded in_lobby : Bytes → Fate
  disconnected : Fate

-- `kickOccupy`: the message
unfoldable pub kick_message : JoinConfig → State → Bytes
kick_message config starting = config.kick_starting
kick_message config stopped = config.kick_starting
kick_message config started = config.kick_starting
kick_message config stopping = config.kick_stopping

-- `holdClient` on the states that arrive before the timeout
unfoldable pub hold_client : List State → Bool
hold_client [] = false
hold_client (starting ∷ rest) = hold_client rest
hold_client (started ∷ rest) = true
hold_client (stopping ∷ rest) = false
hold_client (stopped ∷ rest) = false

abbrev pub is_starting : State → Bool
is_starting starting = true
is_starting _ = false

-- `holdOccupy`: whether the client is consumed
unfoldable pub hold_occupy : World → Bool
unfolding hold_client
hold_occupy w = if not (is_starting w.state) then false else hold_client w.received

-- `mustStillProbe`, with `mustProbe`
unfoldable pub must_still_probe : JoinConfig → World → ClientInfo → Bool
must_still_probe config w info =
    if config.forge && is_forge_fml3 info then false else config.forge && not w.has_probe

-- `Occupy`, on the methods that are left and the number of the next one
unfoldable pub occupy :
    JoinConfig → (ℕ → World) → ClientInfo → Bytes → Bytes → ℕ → List Method → Fate
unfolding kick_message hold_occupy must_still_probe
occupy config worlds info history queue n [] = disconnected
occupy config worlds info history queue n (kick ∷ rest) =
    kicked (kick_message config (worlds n).state)
occupy config worlds info history queue n (hold ∷ rest) =
    let next = occupy config worlds info history queue (n + 1) rest in
    if hold_occupy (worlds n) then proxied history else next
occupy config worlds info history queue n (forward ∷ rest) = forwarded history
occupy config worlds info history queue n (lobby ∷ rest) =
    let next = occupy config worlds info history queue (n + 1) rest in
    if must_still_probe config (worlds n) info then next else in_lobby queue
