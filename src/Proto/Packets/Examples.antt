-- ===== src/Proto/Packets/Examples.antt =====
-- Tests of the packet codecs and instances of their theorems.
use lazygate.Prelude.{◌^◌, true, [], ◌∷◌, ◌++◌, ◌≡◌, refl, arith, Bytes, codes, some, none}
use lazygate.Proto.Packets.{
  Handshake, encode_handshake, decode_handshake, LoginPluginRequest, LoginPluginResponse,
  encode_login_plugin_request, decode_login_plugin_request, encode_login_plugin_response,
  decode_login_plugin_response, decode_login_start, encode_login_start,
}
use lazygate.Proto.Packets.RoundTrip.{packets_read_back}

abbrev sample : Handshake
sample = record {
  protocol_version = 763;
  server_addr = codes "mc";
  server_port = 25565;
  next_state = 2;
}

abbrev sample_bytes : Bytes
sample_bytes = 0xfb ∷ 5 ∷ 2 ∷ 109 ∷ 99 ∷ 99 ∷ 221 ∷ 2 ∷ []

encode_sample : encode_handshake sample [] ≡ sample_bytes
unfolding encode_handshake lazygate.Proto.VarInt.encode_var_int
encode_sample = refl

decode_sample : decode_handshake sample_bytes ≡ some sample
unfolding decode_handshake lazygate.Proto.VarInt.var_int lazygate.Proto.Reader.read_str
    lazygate.Proto.Reader.read_fixed
decode_sample = refl

-- A name of 17 bytes is refused.
long_name : decode_login_start (17 ∷ codes "abcdefghijklmnopq") ≡ none
unfolding decode_login_start lazygate.Proto.VarInt.var_int lazygate.Proto.Reader.read_str
long_name = refl

abbrev query : LoginPluginRequest
query = record { message_id = 2 ^ 31; channel = codes "fml:loginwrapper"; body = 1 ∷ 2 ∷ [] }

abbrev answer : LoginPluginResponse
answer = record { message_id = 7; successful = true; body = 9 ∷ [] }

packets_read_back_example :
    (decode_handshake (encode_handshake sample [] ++ 7 ∷ []) ≡ some sample)
    × (decode_login_start (encode_login_start (codes "Steve") [] ++ 7 ∷ []) ≡ some (codes "Steve"))
    × (decode_login_plugin_request (encode_login_plugin_request query) ≡ some query)
    × (decode_login_plugin_response (encode_login_plugin_response answer []) ≡ some answer)
packets_read_back_example =
    packets_read_back sample (codes "Steve") (7 ∷ []) query answer (omega arith) (omega arith)
      (omega arith) (omega arith)
