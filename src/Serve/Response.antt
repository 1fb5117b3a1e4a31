-- ===== src/Serve/Response.antt =====
-- status.go, `serverStatusResponse`, and mc/favicon.go: the status that `Serve` answers with.
use lazygate.Prelude.{ℕ, Bool, true, false, [], Bytes, Option, none, some, if◌then◌else◌, leb}
use lazygate.Proto.Client.{ClientInfo, get_protocol}
use lazygate.Proto.Status.{ServerStatus}
use lazygate.Server
use lazygate.Server.{State, stopped, starting, started, stopping, ServerState}

-- The settings of config.go that status.go reads, beside those of the server state.
pub record ServeConfig : Type 0 where
  pub lifecycle : Server.Config
  pub lockout_enabled : Bool  -- Lockout.Enabled
  pub lockout_message : Bytes  -- Lockout.Message
  pub online_mode : Bool  -- Auth.OnlineMode
  pub from_server : Bool  -- Motd.FromServer
  pub motd_sleeping : Bytes  -- Motd.Sleeping
  pub motd_starting : Bytes  -- Motd.Starting
  pub motd_stopping : Bytes  -- Motd.Stopping
  pub version : Bytes  -- Public.Version
  pub protocol : ℕ  -- Public.Protocol

-- mc/favicon.go
abbrev pub supports_favicon : Option ℕ → Bool
supports_favicon none = true
supports_favicon (some protocol) = leb 4 protocol

abbrev pub motd : ServeConfig → State → Bytes
motd config stopped = config.motd_sleeping
motd config started = config.motd_sleeping
motd config starting = config.motd_starting
motd config stopping = config.motd_stopping

-- The favicon of the last status, if the server's is to be shown.
abbrev pub known_favicon : Bool → ServerStatus → Bytes → Bytes
known_favicon false st default_icon = default_icon
known_favicon true st default_icon = elim st.favicon as (λ o. Bytes) [
  | none ↦ default_icon
  | some icon ↦ icon
]

-- The response while the server is not started, from the last status and without one.
abbrev pub sleeping_response :
    ServeConfig → Bytes → Option ℕ → State → Option ServerStatus → ServerStatus
sleeping_response config icon protocol state none = record {
  version = record { name = config.version; protocol = config.protocol };
  players = record { max = 0; online = 0; sample = [] };
  description = motd config state;
  favicon = if supports_favicon protocol then some icon else none;
  forge_data = [];
}
sleeping_response config icon protocol state (some st) = record {
  version = st.version;
  players = record { max = st.players.max; online = 0; sample = [] };
  description = if config.from_server then st.description else motd config state;
  favicon =
      if supports_favicon protocol then some (known_favicon config.from_server st icon) else none;
  forge_data = st.forge_data;
}

unfoldable pub server_status_response :
    ServeConfig → Bytes → ClientInfo → ServerState → ServerStatus
unfolding get_protocol
server_status_response config icon info server =
    let sleeping = sleeping_response config icon (get_protocol info) server.state server.status in
    elim server.state [
      | started ↦ elim server.status [ none ↦ sleeping | some st ↦ st ]
      | stopped ↦ sleeping
      | starting ↦ sleeping
      | stopping ↦ sleeping
    ]
