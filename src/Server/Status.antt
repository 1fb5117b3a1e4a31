-- ===== src/Server/Status.antt =====
-- server.go: what the monitor asks of and tells to the server state.
use lazygate.Prelude.{
  ℕ, ◌+◌, ◌*◌, Bool, true, false, not, ◌&&◌, ◌||◌, ltb, leb, if◌then◌else◌, Option, none, some,
}
use lazygate.Server.{
  stopped, starting, started, same_state, ServerStatus, Config, ServerState, second, update_state,
  update_state_from, update_last_active,
}

abbrev pub is_known : Option ServerStatus → Bool
is_known (some st) = true
is_known none = false

-- The last part of `UpdateStatus`, for a status that is known.
abbrev pub record_status : Option ServerStatus → ℕ → ServerState → ServerState
record_status none now s = s
record_status (some st) now s =
    let s₂ = if ltb 0 st.players.online then update_last_active now s else s in
    record s₂ { status = some st }

unfoldable pub update_status : Config → Option ServerStatus → ℕ → ServerState → ServerState
unfolding update_state update_last_active
update_status config st now s =
    let s₂ =
      if (same_state s.state stopped || same_state s.state starting) && is_known st
      then (update_state started config now s).0
      else if same_state s.state started && not (is_known st)
      then (update_state stopped config now s).0
      else s in
    record_status st now s₂

-- `SeedStatus`: only the first known status.
unfoldable pub seed_status : Option ServerStatus → ServerState → ServerState
seed_status none s = s
seed_status (some st) s = if is_known s.status then s else record s { status = some st }

abbrev pub players_online : Option ServerStatus → Bool
players_online none = false
players_online (some st) = ltb 0 st.players.online

-- `t != nil && !t.Before(now)`
abbrev pub not_before : Option ℕ → ℕ → Bool
not_before none now = false
not_before (some t) now = leb now t

-- `time.Since(t) >= limit`
abbrev pub since_at_least : Option ℕ → ℕ → ℕ → Bool
since_at_least none limit now = false
since_at_least (some t) limit now = leb (t + limit) now

unfoldable pub should_sleep : Config → ℕ → ServerState → Bool
should_sleep config now s =
    if config.controller_managed
    then false
    else if not (same_state s.state started)
    then false
    else if players_online s.status
    then false
    else if not_before s.keep_online now
    then false
    else since_at_least s.last_active (config.sleep_after * second) now

-- `killAt != nil && !killAt.After(now)`
unfoldable pub should_kill : ℕ → ServerState → Bool
should_kill now s = elim s.kill_at [ none ↦ false | some t ↦ leb t now ]

unfoldable pub expire_controller_managed_transition : Config → ℕ → ServerState → ServerState × Bool
unfolding update_state_from should_kill
expire_controller_managed_transition config now s =
    if not config.controller_managed || not (should_kill now s)
    then (s, false)
    else update_state_from (some starting) stopped config now s
