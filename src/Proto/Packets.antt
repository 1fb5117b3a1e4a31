-- ===== src/Proto/Packets.antt =====
-- proto/packets.go: the handshake, login and status packets, without their packet ids. An error of a
-- decoder is `none`: each decoder has one error text, and no caller reads the partial result.
pub mod RoundTrip
pub mod Bounds
mod Examples
use lazygate.Prelude.{ℕ, ◌<◌, ◌≤◌, ◌^◌, Bool, [], Bytes, Option, none, some, ◌>>=◌, length}
use lazygate.Proto.VarInt.{var_int, IsInt32}
use lazygate.Proto.Writer.{
  write, write_var_int, write_string, write_uint16, write_uint64, write_bool,
}
use lazygate.Proto.Reader.{read_bool, read_u16, read_u64, read_str}

pub record Handshake : Type 0 where
  pub protocol_version : ℕ  -- int32
  pub server_addr : Bytes
  pub server_port : ℕ  -- uint16
  pub next_state : ℕ  -- int32

pub encode_handshake : Handshake → Bytes → Bytes
encode_handshake h w =
    write_var_int
      (write_uint16 (write_string (write_var_int w h.protocol_version) h.server_addr) h.server_port)
      h.next_state

pub decode_handshake : Bytes → Option Handshake
decode_handshake payload = do
  (version, r) ← var_int payload
  (addr, r₂) ← read_str 255 r
  (port, r₃) ← read_u16 r₂
  (next, r₄) ← var_int r₃
  some (record {
    protocol_version = version;
    server_addr = addr;
    server_port = port;
    next_state = next;
  })

-- `LoginStart` has the one field `Name`.
pub encode_login_start : Bytes → Bytes → Bytes
encode_login_start name w = write_string w name

unfoldable pub decode_login_start : Bytes → Option Bytes
decode_login_start payload = do (name, r) ← read_str 16 payload; some name

pub record LoginPluginResponse : Type 0 where
  pub message_id : ℕ  -- int32
  pub successful : Bool
  pub body : Bytes

unfoldable pub encode_login_plugin_response : LoginPluginResponse → Bytes → Bytes
encode_login_plugin_response l w =
    write (write_bool (write_var_int w l.message_id) l.successful) l.body

unfoldable pub decode_login_plugin_response : Bytes → Option LoginPluginResponse
decode_login_plugin_response payload = do
  (id, r) ← var_int payload
  (ok, r₂) ← read_bool r
  some (record { message_id = id; successful = ok; body = r₂ })

pub record LoginPluginRequest : Type 0 where
  pub message_id : ℕ  -- int32
  pub channel : Bytes
  pub body : Bytes

-- `encodeLoginPluginRequest` of forge.go
unfoldable pub encode_login_plugin_request : LoginPluginRequest → Bytes
encode_login_plugin_request request =
    write (write_string (write_var_int [] request.message_id) request.channel) request.body

unfoldable pub decode_login_plugin_request : Bytes → Option LoginPluginRequest
decode_login_plugin_request payload = do
  (id, r) ← var_int payload
  (channel, r₂) ← read_str 32767 r
  some (record { message_id = id; channel = channel; body = r₂ })

-- `SetCompression` has the one field `Threshold`, `PingRequest` and `PingResponse` have `Time`.
unfoldable pub decode_set_compression : Bytes → Option ℕ
decode_set_compression payload = do (threshold, r) ← var_int payload; some threshold

pub decode_ping_request : Bytes → Option ℕ
decode_ping_request payload = do (time, r) ← read_u64 payload; some time

pub decode_ping_response : Bytes → Option ℕ
decode_ping_response payload = do (time, r) ← read_u64 payload; some time

-- The values that the fields hold in Go, and the limits that the decoders set.
pub record IsHandshake (h : Handshake) : Type 0 where
  pub version : IsInt32 h.protocol_version
  pub addr : length h.server_addr ≤ 255
  pub port : h.server_port < 2 ^ 16
  pub next : IsInt32 h.next_state

pub record IsRequest (request : LoginPluginRequest) : Type 0 where
  pub id : IsInt32 request.message_id
  pub channel_len : length request.channel ≤ 32767
