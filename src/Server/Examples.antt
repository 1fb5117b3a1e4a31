-- ===== src/Server/Examples.antt =====
-- The theorems on the server at concrete states.
use lazygate.Prelude.{
  ℕ, ◌*◌, ◌^◌, ◌≤◌, true, false, List, [], ◌∷◌, length, none, some, ◌≡◌, ◌≢◌, ◌⊎◌, ◌↔◌, inl, inr,
  refl, arith,
}
use lazygate.Server.{
  State, stopped, started, stopping, Config, ServerState, ServerStatus, new_server_state,
  update_state_from,
}
use lazygate.Server.Status.{update_status, should_sleep}
use lazygate.Server.Lifecycle.{
  Os, accepted, connect_failed, polled, poll_failed, spawned, start, stop, force_kill,
  monitor_round, monitor_server, child_settled, invoke_server_cmd,
}
use lazygate.Server.Helper.{begin_controller_helper}
use lazygate.Server.Update.{Changed, update_state_from_lem}
use lazygate.Server.Interleaving.{
  Shared, Run, stays, goes, changes, broadcasts, receives, subscribes, Told, Run-Told,
}
use lazygate.Server.Sleep.{IsIdle, should_sleep-IsIdle}
use lazygate.Server.Polling.{Polled, update_status_lem}
use lazygate.Server.Starting.{Starts, start_lem}
use lazygate.Server.Managed.{OnlyLaunches, managed_server_left_alone}
use lazygate.Server.Slot.{launched}
use lazygate.Server.Flight.{begun, start_called, invoked, Run-single_flight}
use lazygate.Server.Stuck.{transition_without_process_stays}

abbrev pub direct : Config
direct = record {
  controller_managed = false;
  freeze_process = false;
  wake_on_crash = true;
  start_timeout = 300;
  stop_timeout = 150;
  sleep_after = 60;
  min_online_time = 60;
  rcon_enabled = true;
}

abbrev managed : Config
managed = record direct { controller_managed = true }

abbrev reachable : Os
reachable signal pid = true

abbrev answer : ServerStatus
answer = record {
  version = record { name = []; protocol = 763 };
  players = record { max = 20; online = 2; sample = [] };
  description = [];
  favicon = none;
  forge_data = [];
}

abbrev running : ServerState
running = record new_server_state {
  state = started;
  subs = none ∷ some started ∷ [];
  pid = 42;
  last_active = some 0;
}

-- Stopped through RCON, with no process of lazygate's own.
abbrev leaving : ServerState
leaving = record new_server_state { state = stopping; kill_at = some 150 }

update_state_from_lem_example :
    let (t, changed) = update_state_from (some started) stopping direct 5 running in
    ((changed ≡ false) × (t ≡ running) × ((started ≢ started) ⊎ (started ≡ stopping)))
    ⊎ ((changed ≡ true)
        × ((f : State) → some started ≡ some f → started ≡ f)
        × Changed stopping direct 5 running t)
update_state_from_lem_example = update_state_from_lem (some started) stopping direct 5 running

-- One subscriber that has received the state and one that holds it.
abbrev quiet_start : Shared
quiet_start = record { server = running; waiting = []; received = some started ∷ none ∷ [] }

-- The server begins to stop, a subscriber receives what it has, another one subscribes, the stop is
-- broadcast.
abbrev stopping_run : (y : Shared) × Run quiet_start y × (y.waiting ≡ [])
stopping_run = (
  _,
  goes (changes none stopping refl)
      (goes (receives 1) (goes subscribes (goes (broadcasts [] stopping [] refl) stays))),
  refl,
)

Run-Told_example : let y = stopping_run.0 in Told y.server.state y.server.subs y.received
Run-Told_example =
    Run-Told (stopping_run.1) (tt, (tt, (tt, (refl, tt)))) refl tt
      (inr (refl, refl), (inl refl, tt)) (stopping_run.2)

should_sleep-IsIdle_example :
    (should_sleep direct (60 * 10 ^ 9) running ≡ true) ↔ IsIdle direct (60 * 10 ^ 9) running
should_sleep-IsIdle_example = should_sleep-IsIdle direct (60 * 10 ^ 9) running

update_status_lem_example :
    Polled (some answer) 7 new_server_state (update_status direct (some answer) 7 new_server_state)
update_status_lem_example = update_status_lem direct (some answer) 7 new_server_state

start_lem_example :
    (stopped ≡ stopped
      → false ≡ false
      → Starts direct new_server_state (start direct 5 new_server_state))
    × (stopped ≢ stopped → start direct 5 new_server_state ≡ (new_server_state, [], false))
    × (false ≡ true → start direct 5 new_server_state ≡ (new_server_state, [], false))
start_lem_example = start_lem direct 5 new_server_state

managed_server_left_alone_example :
    (stop reachable accepted managed 5 running ≡ (running, [], false))
    × (force_kill reachable (some managed) running ≡ (running, [], false))
    × ((monitor_round reachable accepted managed (polled answer) 5 running).1 ≡ [])
    × OnlyLaunches (start managed 5 running).1
    × OnlyLaunches (child_settled managed true 5 running).1
managed_server_left_alone_example =
    managed_server_left_alone reachable accepted managed (polled answer) true 5 running refl

transition_without_process_stays_example :
    let t =
      monitor_server reachable connect_failed direct
        ((polled answer, 100) ∷ (poll_failed, 200) ∷ (poll_failed, 10 ^ 15) ∷ [])
        leaving in
    (t.state ≡ stopping)
    × (t.pid ≡ 0)
    × (start direct 9 t ≡ (t, [], false))
    × (stop reachable connect_failed direct 9 t ≡ (t, [], false))
    × (force_kill reachable (some direct) t ≡ (t, [], false))
transition_without_process_stays_example =
    transition_without_process_stays reachable connect_failed direct
      ((polled answer, 100) ∷ (poll_failed, 200) ∷ (poll_failed, 10 ^ 15) ∷ []) 9 leaving refl
      (inl refl, refl)

Run-single_flight_example :
    let t = invoke_server_cmd managed 1 (spawned 77) (start managed 5 new_server_state).0 in
    let live : List ℕ = 1 ∷ [] in
    (length live ≤ 1)
    × ((t.helper_active ≡ true) ↔ (length live ≡ 1))
    × (length live ≡ 0 → t.pid ≡ 0)
unfolding launched start update_state_from begin_controller_helper
Run-single_flight_example =
    Run-single_flight managed refl {n = 1} (invoked [] [] 1 (spawned 77) (start_called 5 begun))
      (omega arith)
