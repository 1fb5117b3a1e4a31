-- ===== src/Server/Managed.antt =====
-- server.go and monitor.go: the operations on a server that a controller manages.
use lazygate.Prelude.{
  ℕ, Bool, true, false, not, ◌&&◌, List, [], ◌∷◌, ◌++◌, All, All-append, some, ◌≡◌, refl, ap,
  if◌then◌else◌, arith,
}
use lazygate.Server.{stopped, starting, Config, ServerState, update_state_from}
use lazygate.Server.Status.{should_sleep, should_kill}
use lazygate.Server.Helper.{begin_controller_helper}
use lazygate.Server.Lifecycle.{
  Os, RconAttempt, Done, Poll, Action, launch, or_else, unfreeze_server_signal, spawn_server, start,
  stop, force_kill, monitor_round, child_settled, update_polled,
}

-- The action starts the helper that owns a generation.
pub data IsLaunch : Action → Type 0 where
  is_launch : {g : ℕ} → IsLaunch (launch g)

abbrev pub OnlyLaunches : List Action → Type 0
OnlyLaunches acts = All IsLaunch acts

either-OnlyLaunches :
    (b : Bool) (d e : Done)
    → OnlyLaunches d.1
    → OnlyLaunches e.1
    → OnlyLaunches (if b then d else e).1
either-OnlyLaunches true d e h k = h
either-OnlyLaunches false d e h k = k

first-OnlyLaunches :
    (b : Bool) (d e : Done) → b ≡ true → OnlyLaunches d.1 → OnlyLaunches (if b then d else e).1
first-OnlyLaunches true d e r h = h
first-OnlyLaunches false d e r h = ground arith

chain-OnlyLaunches :
    (b : Bool) (d : Done) (next : ServerState → Done) (s : ServerState)
    → OnlyLaunches d.1
    → ((t : ServerState) → OnlyLaunches (next t).1)
    → OnlyLaunches (or_else b d next s).1
chain-OnlyLaunches false d next s h n = n s
chain-OnlyLaunches true (t, acts, true) next s h n = h
chain-OnlyLaunches true (t, acts, false) next s h n = All-append IsLaunch acts (next t).1 h (n t)

spawn-managed : (config : Config) (s : ServerState) → OnlyLaunches (spawn_server config s).1
spawn-managed config s =
    let b = begin_controller_helper s in
    either-OnlyLaunches config.controller_managed
      (if not b.2 then (b.0, [], true) else (b.0, launch b.1 ∷ [], true)) (s, launch 0 ∷ [], true)
      (either-OnlyLaunches (not b.2) (b.0, [], true) (b.0, launch b.1 ∷ [], true) tt
        (is_launch, tt))
      (is_launch, tt)

start-managed :
    (config : Config) (now : ℕ) (s : ServerState)
    → config.controller_managed ≡ true
    → OnlyLaunches (start config now s).1
unfolding start unfreeze_server_signal
start-managed config now s m =
    let u = update_state_from (some stopped) starting config now s in
    either-OnlyLaunches _ (s, [], false) _ tt
      (either-OnlyLaunches (not u.1) (u.0, [], false) _ tt
        (chain-OnlyLaunches config.freeze_process (unfreeze_server_signal config now u.0)
          (spawn_server config) u.0
          (first-OnlyLaunches config.controller_managed (u.0, [], false) _ m tt)
          (spawn-managed config)))

stop-managed :
    (os : Os) (attempt : RconAttempt) (config : Config) (now : ℕ) (s : ServerState)
    → config.controller_managed ≡ true
    → stop os attempt config now s ≡ (s, [], false)
unfolding stop
stop-managed os attempt config now s m = ground arith

force_kill-managed :
    (os : Os) (config : Config) (s : ServerState)
    → config.controller_managed ≡ true
    → force_kill os (some config) s ≡ (s, [], false)
unfolding force_kill
force_kill-managed os config s m = ground arith

pub slept-managed :
    (os : Os) (attempt : RconAttempt) (config : Config) (now : ℕ) (b : Bool) (s : ServerState)
    → config.controller_managed ≡ true
    → (if b then stop os attempt config now s else (s, [], false)) ≡ (s, [], false)
slept-managed os attempt config now true s m = stop-managed os attempt config now s m
slept-managed os attempt config now false s m = refl

round_acts :
    (due managed : Bool) (expired : ServerState) (killed : ServerState × List Action) (rest : Done)
    → managed ≡ true
    → rest.1 ≡ []
    → (if due then if managed then (expired, rest.1) else killed else (rest.0, rest.1)).1 ≡ []
round_acts true true expired killed rest m e = e
round_acts true false expired killed rest m e = ground arith
round_acts false managed expired killed rest m e = e

monitor_round-managed :
    (os : Os) (attempt : RconAttempt) (config : Config) (poll : Poll) (now : ℕ) (s : ServerState)
    → config.controller_managed ≡ true
    → (monitor_round os attempt config poll now s).1 ≡ []
unfolding monitor_round
monitor_round-managed os attempt config poll now s m =
    let s₂ = update_polled config poll now s in
    let d = if should_sleep config now s₂ then stop os attempt config now s₂ else (s₂, [], false) in
    let f = force_kill os (some config) d.0 in
    round_acts (should_kill now d.0) config.controller_managed _ (f.0, d.1 ++ f.1) d m
      (ap (λ (d : Done). d.1)
        (slept-managed os attempt config now (should_sleep config now s₂) s₂ m))

child_settled-managed :
    (config : Config) (crashed : Bool) (now : ℕ) (s : ServerState)
    → config.controller_managed ≡ true
    → OnlyLaunches (child_settled config crashed now s).1
unfolding child_settled
child_settled-managed config crashed now s m =
    either (crashed && config.wake_on_crash) _ _ (start-managed config now _ m) tt
  where
    either :
        (b : Bool) (d e : ServerState × List Action)
        → OnlyLaunches d.1
        → OnlyLaunches e.1
        → OnlyLaunches (if b then d else e).1
    either true d e h k = h
    either false d e h k = k

-- If a controller manages the server, lazygate leaves the process alone: stopping it and killing it
-- change nothing and do nothing, a round of the monitor does nothing to the outside, whatever the
-- poll answers, and a start, and a start after a crash, do nothing to it but launch the helper.
pub managed_server_left_alone :
    (os : Os) (attempt : RconAttempt) (config : Config) (poll : Poll) (crashed : Bool) (now : ℕ)
    (s : ServerState)
    → config.controller_managed ≡ true
    → (stop os attempt config now s ≡ (s, [], false))
      × (force_kill os (some config) s ≡ (s, [], false))
      × ((monitor_round os attempt config poll now s).1 ≡ [])
      × OnlyLaunches (start config now s).1
      × OnlyLaunches (child_settled config crashed now s).1
managed_server_left_alone os attempt config poll crashed now s m = (
  stop-managed os attempt config now s m,
  force_kill-managed os config s m,
  monitor_round-managed os attempt config poll now s m,
  start-managed config now s m,
  child_settled-managed config crashed now s m,
)
