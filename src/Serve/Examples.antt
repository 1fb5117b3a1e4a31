-- ===== src/Serve/Examples.antt =====
-- The theorems on `Serve` for a client that logs in.
use lazygate.Prelude.{true, false, [], ◌∷◌, codes, none, some, ◌≡◌, ◌≢◌, refl, arith}
use lazygate.Access.{Access, Parsers}
use lazygate.Proto.Client.{handshake, login, new_client, empty_client_info, set_state}
use lazygate.Proto.Framing.{RawPacket}
use lazygate.Proto.Framing.Examples.{stored}
use lazygate.Proto.Packets.{Handshake, decode_login_start}
use lazygate.Proto.Stream.Examples.{trickle}
use lazygate.Server.{new_server_state}
use lazygate.Server.Examples.{direct}
use lazygate.Server.Lifecycle.{start}
use lazygate.Serve.{
  ServeConfig, Outside, Moment, ClientSession, unfinished, serve_packet, serve_login, serve_loop,
}
use lazygate.Serve.Wake.{Guarded, serve_packet_guard, serve_login_undecoded}
use lazygate.Serve.Loop.{serve_loop-ne-unfinished}

abbrev settings : ServeConfig
settings = record {
  lifecycle = direct;
  lockout_enabled = false;
  lockout_message = codes "closed";
  online_mode = false;
  from_server = false;
  motd_sleeping = codes "asleep";
  motd_starting = codes "starting";
  motd_stopping = codes "stopping";
  version = codes "1.20.1";
  protocol = 763;
}

abbrev outside : Outside
outside = record {
  zlib = stored;
  valid = λ b. true;
  parsers = record { ip_string = λ ip. ip; parse_time = λ t. none };
  server_favicon = codes "icon";
  peer_ip = codes "10.0.0.1";
}

abbrev quiet_night : Moment
quiet_night = record {
  server = new_server_state;
  access = record {
    banned = [];
    whitelist = some (record { whitelist = codes "steve" ∷ []; ops = [] });
  };
  now = 1000;
  can_write = true;
}

abbrev asks_login : Handshake
asks_login = record {
  protocol_version = 763;
  server_addr = codes "host";
  server_port = 25565;
  next_state = 2;
}

abbrev logging_in : ClientSession
logging_in = record {
  client = set_state login new_client;
  info = record empty_client_info { handshake_packet = some asks_login };
  history = 1 ∷ 0 ∷ [];
}

-- A login start with a name of no character and a byte too few.
abbrev no_name : RawPacket
no_name = record { id = 0; body = 9 ∷ [] }

serve_packet_guard_example :
    Guarded outside settings quiet_night logging_in no_name
      (serve_packet outside settings quiet_night logging_in no_name (2 ∷ 0 ∷ 9 ∷ []) [])
serve_packet_guard_example =
    serve_packet_guard outside settings quiet_night logging_in no_name (2 ∷ 0 ∷ 9 ∷ []) []

serve_login_undecoded_example :
    (serve_login outside settings quiet_night logging_in no_name (2 ∷ 0 ∷ 9 ∷ []) []).server
    ≡ (start direct 1000 new_server_state).0
unfolding lazygate.Serve.active_ban lazygate.Access.ban_entry
serve_login_undecoded_example =
    serve_login_undecoded outside settings quiet_night logging_in no_name (2 ∷ 0 ∷ 9 ∷ []) []
      (unfold decode_login_start lazygate.Proto.Reader.read_str lazygate.Proto.VarInt.var_int in
        refl)
      refl refl refl refl

serve_loop-ne-unfinished_example :
    (serve_loop outside trickle settings (λ n. quiet_night) 5 0 logging_in [] (2 ∷ 0 ∷ 9 ∷ [])).1
    ≢ unfinished
serve_loop-ne-unfinished_example =
    serve_loop-ne-unfinished outside trickle settings (λ n. quiet_night) 5 0 logging_in []
      (2 ∷ 0 ∷ 9 ∷ []) (omega arith) (omega arith)
