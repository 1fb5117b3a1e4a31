-- ===== src/Proto/Packets/RoundTrip.antt =====
-- proto/packets.go: the decoders on what the encoders write.
use lazygate.Prelude.{
  ◌≤◌, Bool, true, false, [], ◌++◌, Bytes, some, length, ◌≡◌, refl, append_assoc, arith,
}
use lazygate.Proto.VarInt.{IsInt32, encode_var_int}
use lazygate.Proto.VarInt.RoundTrip.{var_int-encode_var_int}
use lazygate.Proto.Writer.{write_bool, big_endian16, string_bytes}
use lazygate.Proto.Reader.RoundTrip.{
  read_u16-big_endian16, read_bool-write_bool, read_str-string_bytes,
}
use lazygate.Proto.Packets.{
  Handshake, encode_handshake, decode_handshake, IsHandshake, encode_login_start,
  decode_login_start, LoginPluginRequest, encode_login_plugin_request, decode_login_plugin_request,
  IsRequest, LoginPluginResponse, encode_login_plugin_response, decode_login_plugin_response,
}

-- Behind whatever was written before, a packet's fields stand in order.
handshake_layout :
    (h : Handshake) (rest : Bytes)
    → encode_handshake h [] ++ rest
      ≡ encode_var_int h.protocol_version
        ++ (string_bytes h.server_addr
            ++ (big_endian16 h.server_port ++ (encode_var_int h.next_state ++ rest)))
unfolding encode_handshake
handshake_layout h rest = simp append_assoc

-- A handshake whose address has at most 255 bytes is read back from its encoding, whatever follows.
pub decode_handshake-encode_handshake :
    (h : Handshake) (rest : Bytes)
    → IsHandshake h
    → decode_handshake (encode_handshake h [] ++ rest) ≡ some h
unfolding decode_handshake
decode_handshake-encode_handshake h rest k =
    let read_version =
      var_int-encode_var_int h.protocol_version
        (string_bytes h.server_addr
          ++ (big_endian16 h.server_port ++ (encode_var_int h.next_state ++ rest)))
        k.version in
    let read_addr =
      read_str-string_bytes 255 h.server_addr
        (big_endian16 h.server_port ++ (encode_var_int h.next_state ++ rest)) k.addr
        (omega arith) in
    let read_port =
      read_u16-big_endian16 h.server_port (encode_var_int h.next_state ++ rest) k.port in
    let read_next = var_int-encode_var_int h.next_state rest k.next in
    rw (handshake_layout h rest, read_version, read_addr, read_port, read_next)

-- A login start with a name of at most 16 bytes is read back.
pub decode_login_start-encode_login_start :
    (name rest : Bytes)
    → length name ≤ 16
    → decode_login_start (encode_login_start name [] ++ rest) ≡ some name
unfolding decode_login_start encode_login_start
decode_login_start-encode_login_start name rest h =
    rw (read_str-string_bytes 16 name rest h (omega arith))

request_layout :
    (request : LoginPluginRequest)
    → encode_login_plugin_request request
      ≡ encode_var_int request.message_id ++ (string_bytes request.channel ++ request.body)
unfolding encode_login_plugin_request
request_layout request = simp append_assoc

-- A plugin request is read back, its data taken to the end of the packet.
pub decode_login_plugin_request-encode_login_plugin_request :
    (request : LoginPluginRequest)
    → IsRequest request
    → decode_login_plugin_request (encode_login_plugin_request request) ≡ some request
unfolding decode_login_plugin_request
decode_login_plugin_request-encode_login_plugin_request request k =
    let read_id =
      var_int-encode_var_int request.message_id (string_bytes request.channel ++ request.body)
        k.id in
    let read_channel =
      read_str-string_bytes 32767 request.channel request.body k.channel_len (omega arith) in
    rw (request_layout request, read_id, read_channel)

write_bool-append : (w : Bytes) (b : Bool) → write_bool w b ≡ w ++ write_bool [] b
write_bool-append w true = refl
write_bool-append w false = refl

response_layout :
    (response : LoginPluginResponse)
    → encode_login_plugin_response response []
      ≡ encode_var_int response.message_id ++ (write_bool [] response.successful ++ response.body)
unfolding encode_login_plugin_response
response_layout response =
    rw (write_bool-append (encode_var_int response.message_id) response.successful)
      (simp append_assoc)

-- A plugin response is read back, with its success flag and its data.
pub decode_login_plugin_response-encode_login_plugin_response :
    (response : LoginPluginResponse)
    → IsInt32 response.message_id
    → decode_login_plugin_response (encode_login_plugin_response response []) ≡ some response
unfolding decode_login_plugin_response
decode_login_plugin_response-encode_login_plugin_response response k =
    let read_id =
      var_int-encode_var_int response.message_id
        (write_bool [] response.successful ++ response.body) k in
    rw (response_layout response, read_id, read_bool-write_bool response.successful response.body)

-- Each login packet is read back from what is written of it: a handshake whose fields are within their
-- bounds and a login start with a name of at most 16 bytes, whatever follows them, a plugin request with an
-- int32 id and a channel of at most 32767 bytes, and a plugin response with an int32 id.
pub packets_read_back :
    (h : Handshake) (name rest : Bytes) (request : LoginPluginRequest)
    (response : LoginPluginResponse)
    → IsHandshake h
    → length name ≤ 16
    → IsRequest request
    → IsInt32 response.message_id
    → (decode_handshake (encode_handshake h [] ++ rest) ≡ some h)
      × (decode_login_start (encode_login_start name [] ++ rest) ≡ some name)
      × (decode_login_plugin_request (encode_login_plugin_request request) ≡ some request)
      × (decode_login_plugin_response (encode_login_plugin_response response []) ≡ some response)
packets_read_back h name rest request response is_handshake short is_request is_id = (
  decode_handshake-encode_handshake h rest is_handshake,
  decode_login_start-encode_login_start name rest short,
  decode_login_plugin_request-encode_login_plugin_request request is_request,
  decode_login_plugin_response-encode_login_plugin_response response is_id,
)
