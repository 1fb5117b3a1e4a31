-- ===== src/Lib.antt =====
-- LazyGate: a gateway that answers for a sleeping Minecraft server, wakes it when a player joins,
-- and puts it to sleep when it is idle.
--
-- The parts and how they interact. Clients, the probe and the monitor talk to the gateway in
-- packets: a connection's bytes are cut into frames by the packet stream, a frame is decompressed
-- and split into an id and data by the framing, and the data is read by the packet codecs, all on
-- var-ints. What the monitor polls and what the operating system tells of the server process changes
-- the one shared server state, whose subscribers (held clients, the lobby) are told of each change.
--
-- Which file models which part:
--   Prelude and its children: names of the libraries, Boolean tests, lists, bytes, bits.
--   Proto/VarInt: proto/varint.go and the var-int reader of proto/packets.go. `read_loop`,
--     `encode_loop`, `var_int_loop` are the loops of ReadVarInt, EncodeVarInt and
--     packetReader.varInt.
--   Proto/Writer, Proto/Reader: proto/encode.go and packetReader of proto/packets.go.
--   Proto/Client: proto/client.go. Proto/Packets: the handshake and login packets of
--     proto/packets.go.
--   Proto/Framing: proto/packet.go and proto/zlib.go. Proto/Stream: ReadPacket and readMore of
--     proto/stream.go, over any connection.
--   Server: the state of server.go, its subscribers and updateStateFrom; Server/Status:
--     UpdateStatus, SeedStatus, ShouldSleep, ShouldKill, ExpireControllerManagedTransition;
--     Server/Helper: the slot of the controller's helper; Server/Lifecycle: Start, Stop, ForceKill,
--     invokeServerCmd, the signals of os.go, and the loop of MonitorServer in monitor.go;
--     Server/Interleaving: the sections of several updates in between each other.
--   Nbt: the tags of nbt/nbt.go; Nbt/Entries, Nbt/Typed: compounds; Nbt/Writer: WriteCompoundTag and
--     what it calls; Nbt/Reader: nbt/read.go; Nbt/Encodable: the tags that can be written down;
--     Nbt/Float: the conversions between float32 and float64; Nbt/Stored: what writing keeps;
--     Nbt/Leaves, Nbt/RoundTrip, Nbt/Keeping: about both; Nbt/Snbt: ParseSNBT.
--   Play: the packets of proto/packets/play. Play/JoinGame: the decoders of join_game.go;
--     Play/Lobby: the join game that the lobby sends; Play/Packets, Play/Title: the other packets.
--   Lobby: lobby.go. Lobby/Dimension, Lobby/World: mc/dimension.go; Lobby/Params: what the packets
--     are built from; Lobby/Login: LobbyServe on a login start, to which Join hands on;
--     Lobby/Connect: the login at the backend, with the relay of Forge and the forwarding of
--     Velocity; Lobby/JoinWait: the wait for the backend's join game of probe.go.
--   Velocity: velocity_forwarding.go, the identity that a backend asks for in a login plugin
--     request.
--   Access: mc/ban.go, mc/whitelist.go, and reloadBans and reloadWhitelist of service_tasks.go.
--   Proto/Json: the JSON of proto/packets.go, and Kick of proto/action.go. Proto/Status: its
--     records.
--   Serve: Serve of status.go; Serve/Response: the status that it answers with. `serve_packet` is
--     the body of the loop, `serve_loop` the loop; a client that logs in is handed on to Occupy
--     (Join).
--   Route: service_server.go, by which a connection comes to Serve or to the proxy, with the
--     admission limits and the checks of the configuration. Join: Occupy of join.go and the join
--     methods, to which Serve hands on.
--   Forge: the relay of forge.go between a backend's login queries and a client; Forge/ModList,
--     Forge/Answer: the answers that the program gives by itself; Forge/Replay: the cache of
--     exchanges and the drain.
--   Rcon: mc/rcon.go, by which the server is told to stop.
--   ProxyHeader: proxyv2/proxyv2.go, the header in front of a proxied connection.
--   ServerProperties: mc/server_properties.go, the rewriting of the contents of server.properties and
--     the reading of a property.
--   Process: shlexSplit of process.go, which cuts the configured command for invokeServerCmd.
--
-- How the code is modelled. A 32-bit or 64-bit integer is a natural number below 2 ^ 32 or 2 ^ 64 in
-- two's complement, with its wrap-around written out. Bytes and strings are lists of naturals. A
-- cursor or a writer is passed explicitly; a packet reader holds the bytes behind its cursor. Errors
-- are `none` or a case of an outcome. Mutex sections are single steps, and an operation is its
-- sections in a row, but for Server/Interleaving. A time is a number of
-- nanoseconds, and the clock reads of one operation give the same time. Log lines are left out.
--
-- Fuel. A var-int loop runs at most five times, which is its fuel and the bound in the code. `fill`
-- gets one round more than the bytes it waits for: each round reads a byte or ends the call, so the
-- fuel is not used up. A nested tag stands behind a byte at least, so the number of bytes is enough
-- for the depth of `read_tag` and one more than it for the rounds of `read_entries`. So it is with
-- the depth and the loops of SNBT: each round but the last of a loop takes a character.
--
-- Serve reads a packet of a byte at least in each round, and so does the drain of Forge's responses:
-- a round for each byte that the client sends and one more are enough. A packet of RCON takes twelve
-- bytes and more, so the loops of `auth` and `cmd` get a round for each byte that the server sends
-- and one more.
--
-- Parameters. zlib is a record of two functions with the laws that its documentation gives. A
-- connection is a record of a read function and of what it still has to deliver. The operating
-- system's answers to signals, the course of an RCON attempt, the answers to polls, HMAC-SHA256,
-- json.Valid, the parsers of addresses and times, the icon, and whether a write succeeds are
-- arguments. What a join method sees (the server's state, the states that arrive before its timeout,
-- the probe's data) is an argument for each. What Serve shares with other goroutines is an argument
-- for each packet. The lobby is given which of its sends arrive, how the authentication ends, the
-- states of the server, and the reads from the backend; the embedded dimension and codec, MD5 and
-- strconv.ParseFloat are arguments. strings.TrimSpace and ToLower are modelled on ASCII.
--
-- Not modelled: sockets, timers and goroutines, the keep-alive loop of the lobby among them; the
-- proxy and the rest of the probe; reading and writing files; TOML, the command line; the
-- authentication in online mode, which is RSA, AES and HTTP; terminal output.
pub mod Prelude
pub mod Proto
pub mod ProxyHeader
pub mod Rcon
pub mod Route
pub mod Server
pub mod Process
pub mod Access
pub mod Forge
pub mod Serve
pub mod Velocity
pub mod Join
pub mod Nbt
pub mod Play
pub mod Lobby
pub mod ServerProperties
