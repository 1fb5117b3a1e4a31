-- ===== src/Route.antt =====
-- service_server.go: the checks of the configuration, the admission of connections and their routing.
--
-- A connection is admitted by a buffered channel; its state is the number of tokens in it. A task ends by
-- giving its token back. What a task does is `Serve`, or the proxy, which is not modelled.
pub mod Limits
pub mod Choice
mod Examples
use lazygate.Prelude.{
  ℕ, zero, suc, ◌+◌, ◌-◌, Bool, true, false, not, ◌&&◌, ◌||◌, List, [], ◌∷◌, Option, none, some,
  if◌then◌else◌, ltb, ◌==◌,
}
use lazygate.Server.{State, stopped, starting, started, stopping}

abbrev pub max_status_clients : ℕ
max_status_clients = 128

abbrev pub max_proxy_clients : ℕ
max_proxy_clients = 256

-- `connectionAdmission`: the tokens in each channel
pub record Admission : Type 0 where
  pub status : ℕ
  pub proxy : ℕ

abbrev pub new_connection_admission : Admission
new_connection_admission = record { status = 0; proxy = 0 }

unfoldable pub acquire_status : Admission → Bool × Admission
acquire_status a =
    if ltb a.status max_status_clients
    then (true, record a { status = a.status + 1 })
    else (false, a)

-- An empty channel stays empty, as subtraction ends at 0.
unfoldable pub release_status : Admission → Admission
release_status a = record a { status = a.status - 1 }

unfoldable pub acquire_proxy : Admission → Bool × Admission
acquire_proxy a =
    if ltb a.proxy max_proxy_clients then (true, record a { proxy = a.proxy + 1 }) else (false, a)

unfoldable pub release_proxy : Admission → Admission
release_proxy a = record a { proxy = a.proxy - 1 }

pub data Method : Type 0 where
  kick hold forward lobby : Method

-- The settings that are checked and those that the routing reads.
pub record RouteConfig : Type 0 where
  pub controller_managed : Bool  -- Server.ControllerManaged
  pub freeze_process : Bool  -- Server.FreezeProcess
  pub wake_on_crash : Bool  -- Server.WakeOnCrash
  pub rcon_enabled : Bool  -- Rcon.Enabled
  pub rewrite_server_properties : Bool  -- Advanced.RewriteServerProperties
  pub online_mode : Bool  -- Auth.OnlineMode
  pub methods : List Method  -- Join.Methods
  pub lockout_enabled : Bool  -- Lockout.Enabled
  pub drop_banned_ips : Bool  -- Server.DropBannedIps

-- The errors of both checks, in their order.
pub data ConfigError : Type 0 where
  process_freezing crash_restarts rcon_ownership property_rewrites : ConfigError
  open_backend lobby_not_first no_secret : ConfigError

unfoldable pub validate_controller_managed_config : RouteConfig → Option ConfigError
validate_controller_managed_config config =
    if not config.controller_managed
    then none
    else if config.freeze_process
    then some process_freezing
    else if config.wake_on_crash
    then some crash_restarts
    else if config.rcon_enabled
    then some rcon_ownership
    else if config.rewrite_server_properties
    then some property_rewrites
    else none

-- `len(config.Join.Methods) == 0 || config.Join.Methods[0] != MethodLobby`
abbrev pub is_lobby_first : List Method → Bool
is_lobby_first (lobby ∷ rest) = true
is_lobby_first _ = false

-- Whether the backend's address is a loopback and whether there is a forwarding secret are arguments.
unfoldable pub validate_online_mode_config : Bool → Bool → RouteConfig → Option ConfigError
validate_online_mode_config is_loopback has_secret config =
    if not config.online_mode
    then none
    else if not is_loopback
    then some open_backend
    else if not (is_lobby_first config.methods)
    then some lobby_not_first
    else if not has_secret
    then some no_secret
    else none

abbrev pub is_started : State → Bool
is_started started = true
is_started _ = false

unfoldable pub should_route_direct_proxy : RouteConfig → State → Bool → Bool
should_route_direct_proxy config state banned =
    not banned && is_started state && not config.lockout_enabled && not config.online_mode

-- Where a connection goes: closed, to `Serve`, or to the proxy.
pub data Target : Type 0 where
  closed to_status to_proxy : Target

unfoldable pub route_status : Admission → Target × Admission
unfolding acquire_status
route_status a = let (ok, b) = acquire_status a in if ok then (to_status, b) else (closed, b)

unfoldable pub route_proxy : Admission → Target × Admission
unfolding acquire_proxy
route_proxy a = let (ok, b) = acquire_proxy a in if ok then (to_proxy, b) else (closed, b)

-- `route`, for a peer whose address is known
unfoldable pub route : RouteConfig → State → Bool → Admission → Target × Admission
unfolding should_route_direct_proxy route_proxy route_status
route config state banned a =
    if banned && config.drop_banned_ips
    then (closed, a)
    else if should_route_direct_proxy config state banned
    then route_proxy a
    else route_status a
