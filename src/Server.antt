-- ===== src/Server.antt =====
-- server.go: the shared server state, its subscribers and the one function that changes its state.
--
-- A mutex section is one step; an operation is a function from the state to the state, its sections in
-- their order, as it goes when no other operation comes in between. A `time.Time`
-- is a number of nanoseconds, and the reads of the clock in one operation give the same time `now`.
-- Logging is left out. A subscriber's channel has room for one state: `none` is an empty channel.
pub mod Status
pub mod Helper
pub mod Lifecycle
pub mod Update
mod Kept
mod Slot
pub mod Channels
pub mod Interleaving
pub mod Managed
pub mod Sleep
pub mod Polling
pub mod Starting
pub mod Flight
pub mod Stuck
pub mod Examples
use lazygate.Prelude.{
  ℕ, ◌+◌, ◌*◌, ◌^◌, Bool, true, false, not, List, [], ◌∷◌, ◌++◌, map, ltb, ◌==◌, if◌then◌else◌,
  Bytes, Option, none, some,
}
pub use lazygate.Proto.Status.{ServerVersion, OnlinePlayer, OnlinePlayers, ServerStatus}

pub data State : Type 0 where
  stopped starting started stopping : State

-- `==` on states
abbrev pub same_state : State → State → Bool
same_state stopped stopped = true
same_state starting starting = true
same_state started started = true
same_state stopping stopping = true
same_state _ _ = false

-- The settings of config.go that server.go reads; a timeout counts seconds in a uint32.
pub record Config : Type 0 where
  pub controller_managed : Bool  -- Server.ControllerManaged
  pub freeze_process : Bool  -- Server.FreezeProcess
  pub wake_on_crash : Bool  -- Server.WakeOnCrash
  pub start_timeout : ℕ  -- Server.StartTimeout
  pub stop_timeout : ℕ  -- Server.StopTimeout
  pub sleep_after : ℕ  -- Time.SleepAfter
  pub min_online_time : ℕ  -- Time.MinOnlineTime
  pub rcon_enabled : Bool  -- Rcon.Enabled

pub record ForgeLoginExchange : Type 0 where
  pub request : Bytes
  pub success : Bool
  pub body : Bytes
  pub no_response : Bool

-- `ServerState` without its locks. The ban list and the whitelist stand with the files that they are
-- read from, and the join data that a probe finds is only passed on.
pub record ServerState : Type 0 where
  pub state : State
  pub subs : List (Option State)
  pub pid : ℕ
  pub pid_generation : ℕ  -- uint64
  pub helper_generation : ℕ  -- uint64
  pub helper_active : Bool
  pub status : Option ServerStatus
  pub last_active : Option ℕ
  pub keep_online : Option ℕ
  pub kill_at : Option ℕ
  pub rcon_last_stop : Option ℕ
  pub forge : List Bytes
  pub forge_login_cache : List ForgeLoginExchange

abbrev pub new_server_state : ServerState
new_server_state = record {
  state = stopped;
  subs = [];
  pid = 0;
  pid_generation = 0;
  helper_generation = 0;
  helper_active = false;
  status = none;
  last_active = none;
  keep_online = none;
  kill_at = none;
  rcon_last_stop = none;
  forge = [];
  forge_login_cache = [];
}

-- `time.Second`
abbrev pub second : ℕ
second = 10 ^ 9

-- `Subscribe`: a new channel that holds the current state.
unfoldable pub subscribe : ServerState → ServerState
subscribe s = record s { subs = s.subs ++ some s.state ∷ [] }

-- One round of the loop of `broadcastState`: send if there is room; else take the stale value out
-- and send.
abbrev pub offer : State → Option State → Option State
offer state none = some state
offer state (some stale) = some state

unfoldable pub broadcast_state : State → ServerState → ServerState
broadcast_state state s = record s { subs = map (offer state) s.subs }

-- The time limit of a starting or stopping server.
abbrev pub kill_time : State → Config → ℕ → Option ℕ
kill_time starting config now =
    if ltb 0 config.start_timeout then some (now + config.start_timeout * second) else none
kill_time stopping config now =
    if ltb 0 config.stop_timeout then some (now + config.stop_timeout * second) else none
kill_time _ config now = none

unfoldable pub update_last_active : ℕ → ServerState → ServerState
update_last_active now s = record s { last_active = some now }

unfoldable pub keep_online_for : ℕ → ℕ → ServerState → ServerState
keep_online_for duration now s =
    if ltb 0 duration
    then record s { keep_online = some (now + duration * second) }
    else record s { keep_online = none }

-- `from != nil && old != *from`
abbrev pub mismatch : Option State → State → Bool
mismatch none old = false
mismatch (some from) old = not (same_state old from)

-- `updateStateFrom` takes its locks one after the other; what it does under each of them follows. Under
-- `stateMu`:
abbrev pub change_state : Option State → State → ServerState → ServerState × Bool
change_state from new s =
    if mismatch from s.state
    then (s, false)
    else if same_state s.state new
    then (s, false)
    else (record s { state = new }, true)

-- Under `subsMu` it is `broadcast_state`. Under `killAtMu`:
abbrev pub set_kill_at : State → Config → ℕ → ServerState → ServerState
set_kill_at new config now s = record s { kill_at = kill_time new config now }

-- Under the locks of the activity:
abbrev pub note_started : State → Config → ℕ → ServerState → ServerState
note_started new config now s =
    if same_state new started
    then keep_online_for config.min_online_time now (update_last_active now s)
    else s

-- The sections behind the first one.
abbrev pub after_update : State → Config → ℕ → ServerState → ServerState
after_update new config now s =
    note_started new config now (set_kill_at new config now (broadcast_state new s))

-- The whole call, when no other goroutine takes one of the locks in between. Server/Interleaving runs the
-- sections of several calls in between each other.
unfoldable pub update_state_from :
    Option State → State → Config → ℕ → ServerState → ServerState × Bool
unfolding broadcast_state update_last_active keep_online_for
update_state_from from new config now s =
    let (s₂, changed) = change_state from new s in
    if changed then (after_update new config now s₂, true) else (s₂, false)

unfoldable pub update_state : State → Config → ℕ → ServerState → ServerState × Bool
unfolding update_state_from
update_state state config now s = update_state_from none state config now s
