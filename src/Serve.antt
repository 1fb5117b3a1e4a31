-- ===== src/Serve.antt =====
-- status.go: `Serve`, which answers the handshake, the status and the login start of a client.
--
-- The state that the other goroutines share is a parameter for each packet, a `Moment`. What is written
-- to the client is a list; a failed write closes. `json.Valid`, the parsers of the ban list, and the
-- favicon that `serverFavicon` reads from disk are parameters.
mod Response
mod Cases
pub mod Wake
pub mod Loop
pub mod Session
mod Examples
pub use Response.{ServeConfig, supports_favicon, motd, known_favicon, sleeping_response}
unfoldable pub use Response.{server_status_response}
use lazygate.Prelude.{
  ℕ, zero, suc, ◌+◌, Bool, true, false, not, ◌&&◌, ◌||◌, List, [], ◌∷◌, ◌++◌, Bytes, codes, Option,
  none, some, if◌then◌else◌, leb, ◌==◌,
}
use lazygate.Access.{Access, Parsers, BannedIp, ban_entry, is_entry_banned, is_user_whitelisted}
use lazygate.Proto.Client.{
  ClientState, handshake, status, login, play, Client, set_state, from_id, ClientInfo, get_protocol,
}
use lazygate.Proto.Framing.{Zlib, RawPacket, new_raw_packet, encode_with_len}
use lazygate.Proto.Json.{status_response_json, kick}
use lazygate.Proto.Packets.{Handshake, decode_handshake, decode_login_start}
use lazygate.Proto.Status.{ServerStatus, ServerVersion}
use lazygate.Proto.Stream.{Connection, Outcome, packet, ended, failed, stuck, read_packet}
use lazygate.Proto.Writer.{string_bytes}
use lazygate.Server
use lazygate.Server.{State, stopped, starting, started, stopping, ServerState}
use lazygate.Server.Lifecycle.{Action, start}

-- What is outside of the program, and the client's address.
pub record Outside : Type 0 where
  pub zlib : Zlib
  pub valid : Bytes → Bool
  pub parsers : Parsers
  pub server_favicon : Bytes
  pub peer_ip : Bytes

-- The shared state as it is when a packet is handled, and whether a write reaches the client.
pub record Moment : Type 0 where
  pub server : ServerState
  pub access : Access
  pub now : ℕ
  pub can_write : Bool

-- `client`, `clientInfo` and `inboundHistory`
pub record ClientSession : Type 0 where
  pub client : Client
  pub info : ClientInfo
  pub history : Bytes

-- `==` on client states
abbrev pub same_client_state : ClientState → ClientState → Bool
same_client_state handshake handshake = true
same_client_state status status = true
same_client_state login login = true
same_client_state play play = true
same_client_state _ _ = false

-- What the loop does after a packet: read on, close, or leave the client to `Occupy`.
pub data Next : Type 0 where
  read_on : ClientSession → Next
  close : Next
  occupy : ClientSession → Bytes → Next

-- The handling of one packet: what is written, what comes next, and what it does to the server.
pub record Served : Type 0 where
  pub written : List Bytes
  pub next : Next
  pub server : ServerState
  pub actions : List Action

abbrev pub quiet : Moment → Next → Served
quiet m next = record { written = []; next = next; server = m.server; actions = [] }

-- A kick with a message, whose own errors are ignored, and the connection is closed.
abbrev pub kicked : Outside → Moment → Client → Bytes → Served
kicked o m client msg = record {
  written = elim (kick o.zlib client msg) as (λ x. List Bytes) [
    | none ↦ []
    | some bytes ↦ bytes ∷ []
  ];
  next = close;
  server = m.server;
  actions = [];
}

-- Write to the client and read on.
abbrev pub respond : Moment → ClientSession → Bytes → Served
respond m s bytes = record (quiet m (if m.can_write then read_on s else close)) {
  written = bytes ∷ [];
}

-- The client once its handshake switches it into `new`: `raw` is remembered for a login.
abbrev pub switched : ClientSession → Bytes → Handshake → ClientState → ClientSession
switched s raw h new = record {
  client = set_state new s.client;
  info = record s.info { protocol = some h.protocol_version; handshake_packet = some h };
  history = if same_client_state new login then s.history ++ raw else s.history;
}

abbrev pub switch : Moment → ClientSession → Bytes → Handshake → Option ClientState → Served
switch m s raw h none = quiet m close
switch m s raw h (some new) = quiet m (read_on (switched s raw h new))

abbrev pub greet : Moment → ClientSession → Bytes → Option Handshake → Served
greet m s raw none = quiet m close
greet m s raw (some h) = switch m s raw h (from_id h.next_state)

unfoldable pub serve_handshake : Moment → ClientSession → RawPacket → Bytes → Served
serve_handshake m s p raw = greet m s raw (decode_handshake p.body)

abbrev pub write_or_close : Moment → ClientSession → Option Bytes → Served
write_or_close m s none = quiet m close
write_or_close m s (some bytes) = respond m s bytes

unfoldable pub serve_status : Outside → ServeConfig → Moment → ClientSession → Served
unfolding server_status_response
serve_status o config m s =
    let json =
      status_response_json o.valid
        (server_status_response config o.server_favicon s.info m.server) in
    write_or_close m s (encode_with_len o.zlib (new_raw_packet 0 (string_bytes json)) s.client)

abbrev pub ban_message_prefix : Bytes
ban_message_prefix = codes "Your IP address is banned from this server.\nReason: "

abbrev pub default_ban_reason : Bytes
default_ban_reason = codes "Banned by an operator."

abbrev pub whitelist_message : Bytes
whitelist_message = codes "You are not white-listed on this server!"

-- `if ban, ok := server.BanEntry(peerIP); ok && ban.IsBanned()`
unfoldable pub active_ban : Outside → Moment → Option BannedIp
active_ban o m = elim (ban_entry o.parsers o.peer_ip m.access.banned) [
  | none ↦ none
  | some ban ↦ if is_entry_banned o.parsers m.now ban then some ban else none
]

abbrev pub ban_reason : BannedIp → Bytes
ban_reason ban = elim ban.reason as (λ o. Bytes) [
  | none ↦ default_ban_reason
  | some reason ↦ reason
]

-- `if clientInfo.Username != nil` and not whitelisted
unfoldable pub is_shut_out : Access → Option Bytes → Bool
is_shut_out a none = false
is_shut_out a (some username) = not (is_user_whitelisted a username)

abbrev pub with_name : ClientInfo → Option Bytes → ClientInfo
with_name info none = info
with_name info (some name) = record info { username = some name }

-- `if loginStart, err := proto.DecodeLoginStart(packet.Data); err == nil`
unfoldable pub with_username : RawPacket → ClientInfo → ClientInfo
with_username p info = with_name info (decode_login_start p.body)

-- From the check of the mode to the call of `Occupy`.
unfoldable pub let_in : ServeConfig → Moment → ClientSession → Bytes → Bytes → Served
let_in config m s raw buf =
    let occupied = occupy (record s { history = s.history ++ (raw ++ buf) }) (raw ++ buf) in
    if config.online_mode
    then quiet m occupied
    else (let (server, actions, _) = start config.lifecycle m.now m.server in
        record { written = []; next = occupied; server = server; actions = actions })

-- From the check of the ban on.
abbrev pub admit :
    Outside → ServeConfig → Moment → ClientSession → Bytes → Bytes → Option BannedIp → Served
admit o config m s raw buf (some ban) = kicked o m s.client (ban_message_prefix ++ ban_reason ban)
admit o config m s raw buf none =
    if is_shut_out m.access s.info.username
    then kicked o m s.client whitelist_message
    else let_in config m s raw buf

unfoldable pub serve_login :
    Outside → ServeConfig → Moment → ClientSession → RawPacket → Bytes → Bytes → Served
unfolding active_ban is_shut_out with_username let_in
serve_login o config m s p raw buf =
    if config.lockout_enabled
    then kicked o m s.client config.lockout_message
    else admit o config m (record s { info = with_username p s.info }) raw buf (active_ban o m)

-- The body of the loop, on the packet, its bytes and what is buffered behind it.
unfoldable pub serve_packet :
    Outside → ServeConfig → Moment → ClientSession → RawPacket → Bytes → Bytes → Served
unfolding serve_handshake serve_status serve_login
serve_packet o config m s p raw buf =
    if same_client_state s.client.state handshake && (p.id == 0)
    then serve_handshake m s p raw
    else if same_client_state s.client.state status && (p.id == 0)
    then serve_status o config m s
    else if same_client_state s.client.state status && (p.id == 1)
    then respond m s raw
    else if same_client_state s.client.state login && (p.id == 0)
    then serve_login o config m s p raw buf
    else quiet m (read_on s)

-- How the loop ends; `unfinished` is fuel that ran out.
pub data End : Type 0 where
  closed unfinished : End
  occupied : ClientSession → Bytes → ServerState → List Action → End

-- What is written, how it ends, the connection.
abbrev pub Run : Type 0 → Type 0
Run S = List Bytes × End × S

-- After a packet: `again` is the rest of the loop.
abbrev pub after : {S : Type 0} → Served → Next → S → (ClientSession → Run S) → Run S
after served close c again = (served.written, closed, c)
after served (occupy s queue) c again =
    (served.written, occupied s queue served.server served.actions, c)
after served (read_on s) c again =
    let (written, end, c₂) = again s in (served.written ++ written, end, c₂)

-- After a call of `ReadPacket`
unfoldable pub serve_outcome :
    {S : Type 0}
    → Outside
    → ServeConfig
    → Moment
    → ClientSession
    → Outcome
    → Bytes
    → S
    → (ClientSession → Run S)
    → Run S
serve_outcome o config m s ended buf c again = ([], closed, c)
serve_outcome o config m s (failed err) buf c again = ([], closed, c)
serve_outcome o config m s stuck buf c again = ([], unfinished, c)
serve_outcome o config m s (packet p raw) buf c again =
    let served = serve_packet o config m s p raw buf in after served served.next c again

module _ (o : Outside) (conn : Connection) (config : ServeConfig) (moments : ℕ → Moment) where
  open conn use {State as ConnState}

  -- The loop, on the number of the packet. A packet takes a byte at least.
  unfoldable pub serve_loop : ℕ → ℕ → ClientSession → Bytes → ConnState → Run ConnState
  serve_loop zero n s buf c = ([], unfinished, c)
  serve_loop (suc fuel) n s buf c =
      let (out, buf₂, c₂) = read_packet o.zlib conn s.client buf c in
      serve_outcome o config (moments n) s out buf₂ c₂ (λ s₂. serve_loop fuel (n + 1) s₂ buf₂ c₂)
