-- ===== src/Server/Lifecycle.antt =====
-- server.go and os.go: starting, stopping and killing the server process, and monitor.go: one round
-- of the monitor. What is done to the outside is a list of actions; its answers are parameters.
use lazygate.Prelude.{
  ℕ, ◌+◌, ◌*◌, Bool, true, false, not, ◌&&◌, ◌||◌, List, [], ◌∷◌, ◌++◌, leb, ◌==◌, if◌then◌else◌,
  Option, none, some,
}
use lazygate.Server.{
  State, stopped, starting, started, stopping, same_state, ServerStatus, Config, ServerState,
  second, update_state, update_state_from,
}
use lazygate.Server.Status.{
  update_status, should_sleep, should_kill, expire_controller_managed_transition,
}
use lazygate.Server.Helper.{begin_controller_helper, finish_controller_helper}

pub data Signal : Type 0 where
  kill term stop_process continue_process : Signal

-- `launch` is `go s.invokeServerCmd(config, generation)`.
pub data Action : Type 0 where
  send : Signal → ℕ → Action
  launch : ℕ → Action
  rcon_stop : Action

-- `unixSignal`: whether the signal reached the process.
abbrev pub Os : Type 0
Os = Signal → ℕ → Bool

-- How an attempt to stop the server through RCON goes: `ConnectRconConfig` fails, `Cmd("stop")`
-- fails, or it is accepted.
pub data RconAttempt : Type 0 where
  connect_failed cmd_failed accepted : RconAttempt

abbrev pub rcon_cooldown : ℕ
rcon_cooldown = 15 * second

-- The new state, the actions in order, and the Boolean result.
abbrev pub Done : Type 0
Done = ServerState × List Action × Bool

-- Two conditional updates in a row, as the signal functions end.
abbrev pub update_from_two : State → State → State → Config → ℕ → ServerState → ServerState
update_from_two from₁ from₂ new config now s =
    (update_state_from (some from₂) new config now
      (update_state_from (some from₁) new config now s).0).0

unfoldable pub unfreeze_server_signal : Config → ℕ → ServerState → Done
unfreeze_server_signal config now s =
    if config.controller_managed then (s, [], false) else if s.pid == 0 then (s, [], false) else (
      update_from_two stopping stopped starting config now s,
      send continue_process s.pid ∷ [],
      true,
    )

unfoldable pub freeze_server_signal : Config → ℕ → ServerState → Done
freeze_server_signal config now s =
    if s.pid == 0
    then (s, [], false)
    else (update_from_two starting started stopped config now s, send stop_process s.pid ∷ [], true)

unfoldable pub stop_server_signal : Os → Config → ℕ → ServerState → Done
stop_server_signal os config now s =
    if s.pid == 0
    then (s, [], false)
    else if not (os term s.pid)
    then (s, send term s.pid ∷ [], false)
    else (update_from_two starting started stopping config now s, send term s.pid ∷ [], true)

-- `rconLastStop == nil || time.Since(*rconLastStop) >= rconCooldown`
abbrev pub cooled_down : Option ℕ → ℕ → Bool
cooled_down none now = true
cooled_down (some t) now = leb (t + rcon_cooldown) now

abbrev pub after_rcon : RconAttempt → Config → ℕ → ServerState → Done
after_rcon connect_failed config now s = (s, [], false)
after_rcon cmd_failed config now s = (s, rcon_stop ∷ [], false)
after_rcon accepted config now s = (
  (update_state stopping config now (record s { rcon_last_stop = some now })).0,
  rcon_stop ∷ [],
  true,
)

unfoldable pub stop_server_rcon : RconAttempt → Config → ℕ → ServerState → Done
stop_server_rcon attempt config now s =
    if not config.rcon_enabled
    then (s, [], false)
    else if not (cooled_down s.rcon_last_stop now)
    then (s, [], false)
    else after_rcon attempt config now s

-- `if test && method() { return true }`, and else go on, after the actions of the method.
abbrev pub or_else : Bool → Done → (ServerState → Done) → (ServerState → Done)
or_else false d next s = next s
or_else true (s₂, acts, true) next s = (s₂, acts, true)
or_else true (s₂, acts, false) next s = let (s₃, acts₂, ok) = next s₂ in (s₃, acts ++ acts₂, ok)

-- From `if config.Server.ControllerManaged` to the end of `Start`.
abbrev pub spawn_server : Config → ServerState → Done
spawn_server config s =
    if config.controller_managed
    then (let (s₂, generation, fresh) = begin_controller_helper s in
        if not fresh then (s₂, [], true) else (s₂, launch generation ∷ [], true))
    else (s, launch 0 ∷ [], true)

unfoldable pub start : Config → ℕ → ServerState → Done
start config now s =
    if config.controller_managed && config.freeze_process
    then (s, [], false)
    else (let (s₂, changed) = update_state_from (some stopped) starting config now s in
        if not changed
        then (s₂, [], false)
        else or_else config.freeze_process (unfreeze_server_signal config now s₂)
            (spawn_server config) s₂)

unfoldable pub stop : Os → RconAttempt → Config → ℕ → ServerState → Done
stop os attempt config now s =
    if config.controller_managed
    then (s, [], false)
    else or_else config.freeze_process (freeze_server_signal config now s)
        (λ s₂.
          or_else (same_state s₂.state started) (stop_server_rcon attempt config now s₂)
            (stop_server_signal os config now) s₂)
        s

unfoldable pub force_kill : Os → Option Config → ServerState → Done
force_kill os none s = (s, [], false)
force_kill os (some config) s =
    if config.controller_managed
    then (s, [], false)
    else if not (s.pid == 0)
    then (s, send kill s.pid ∷ [], os kill s.pid)
    else (s, [], false)

-- What `invokeServerCmd` finds when it starts the command.
pub data Spawn : Type 0 where
  no_command spawn_failed : Spawn
  spawned : ℕ → Spawn

-- `invokeServerCmd` up to `child.Wait()`.
unfoldable pub invoke_server_cmd : Config → ℕ → Spawn → ServerState → ServerState
invoke_server_cmd config generation (spawned pid) s = record s {
  pid = pid;
  pid_generation = generation;
}
invoke_server_cmd config generation _ s =
    if config.controller_managed then finish_controller_helper generation s else s

-- How the child ends: without an error, with an exit code, by a signal, or unknown to `Wait`.
pub data Exit : Type 0 where
  clean signalled wait_failed : Exit
  code : ℕ → Exit

abbrev pub exit_code_allowed : ℕ → Bool
exit_code_allowed n = n == 130 || n == 143

abbrev pub is_crash : Exit → ServerState → Bool
is_crash clean s = false
is_crash wait_failed s = false
is_crash signalled s = same_state s.state started
is_crash (code n) s = if exit_code_allowed n then false else same_state s.state started

-- `invokeServerCmd` from the child's end to the cooldown: the new state, and whether the server
-- crashed. A controller's helper ends here.
unfoldable pub child_exited : Config → ℕ → Exit → ServerState → ServerState × Bool
child_exited config generation exit s =
    if config.controller_managed
    then (finish_controller_helper generation s, false)
    else (record s { pid = 0 }, is_crash exit s)

-- `invokeServerCmd` after the cooldown, without a controller.
unfoldable pub child_settled : Config → Bool → ℕ → ServerState → ServerState × List Action
child_settled config crashed now s =
    let s₂ = (update_state stopped config now s).0 in
    if crashed && config.wake_on_crash
    then (let (s₃, acts, _) = start config now s₂ in (s₃, acts))
    else (s₂, [])

-- `pollServer`: a status, only an answer to a ping, or an error.
pub data Poll : Type 0 where
  polled : ServerStatus → Poll
  ping_only poll_failed : Poll

abbrev pub update_polled : Config → Poll → ℕ → ServerState → ServerState
update_polled config (polled st) now s = update_status config (some st) now s
update_polled config ping_only now s = s
update_polled config poll_failed now s = update_status config none now s

-- One round of `MonitorServer`. The file that a Forge status is written to is left out.
unfoldable pub monitor_round :
    Os → RconAttempt → Config → Poll → ℕ → ServerState → ServerState × List Action
monitor_round os attempt config poll now s =
    let s₂ = update_polled config poll now s in
    let (s₃, acts, _) =
      if should_sleep config now s₂ then stop os attempt config now s₂ else (s₂, [], false) in
    if should_kill now s₃
    then if config.controller_managed
      then ((expire_controller_managed_transition config now s₃).0, acts)
      else (let (s₄, acts₂, _) = force_kill os (some config) s₃ in (s₄, acts ++ acts₂))
    else (s₃, acts)

-- The loop of `MonitorServer`: one round for each poll, at its time.
unfoldable pub monitor_server :
    Os → RconAttempt → Config → List (Poll × ℕ) → ServerState → ServerState
unfolding monitor_round
monitor_server os attempt config [] s = s
monitor_server os attempt config ((poll, now) ∷ polls) s =
    monitor_server os attempt config polls (monitor_round os attempt config poll now s).0
