-- ===== src/Forge/Answer.antt =====
-- forge.go: `respondLoginPluginRequest`, which answers a request of Forge by itself.
use mathlib.Core.Path.{subst}
use mathlib.Core.Option.{some-injective}
use lazygate.Prelude.{
  ℕ, ◌<◌, ◌^◌, ◌%◌, Bool, not, ◌&&◌, [], ◌∷◌, ◌++◌, Bytes, Option, none, some, ◌>>=◌, >>=-eq-some,
  if◌then◌else◌, ◌==◌, length, same_bytes, ◌≡◌, refl, arith, append_assoc,
}
use lazygate.Proto.Client.{Client}
use lazygate.Proto.Framing.{Zlib, RawPacket, new_raw_packet, encode_without_len, decode_without_len}
use lazygate.Proto.Packets.{LoginPluginRequest, LoginPluginResponse, decode_login_plugin_response}
use lazygate.Proto.Reader.{read_str, read_bool}
use lazygate.Proto.VarInt.{encode_var_int}
use lazygate.Proto.VarInt.RoundTrip.{var_int-encode_var_int}
use lazygate.Proto.Writer.{write, write_string}
use lazygate.Forge.{forge_channel_login_wrapper, forge_channel_handshake, write_packet_to}
use lazygate.Forge.ModList.{forge_mod_list_reply}

-- play.ForgeModList, play.ForgeModListReply and play.ForgeAcknowledgement
abbrev pub forge_mod_list : ℕ
forge_mod_list = 1

abbrev pub forge_mod_list_reply_id : ℕ
forge_mod_list_reply_id = 2

abbrev pub forge_acknowledgement : ℕ
forge_acknowledgement = 99

-- The packet that `respondForgeLoginPacket` writes. The message id is an argument that it does not use.
unfoldable pub forge_login_packet : Zlib → Client → ℕ → Bytes → ℕ → Bytes → Option RawPacket
forge_login_packet zlib client message_id forge_channel forge_packet_id forge_data = do
  forge_payload ← encode_without_len zlib (new_raw_packet forge_packet_id forge_data) client
  some (new_raw_packet 2 (write (write_string [] forge_channel) forge_payload))

-- `respondForgeLoginPacket`: the frame that is written, or the error.
unfoldable pub respond_forge_login_packet :
    Zlib → Bool → Client → ℕ → Bytes → ℕ → Bytes → Option Bytes
unfolding forge_login_packet
respond_forge_login_packet zlib up client message_id forge_channel forge_packet_id forge_data = do
  response ← forge_login_packet zlib client message_id forge_channel forge_packet_id forge_data
  write_packet_to zlib up client response

pub record ForgeLoginWrapper : Type 0 where
  pub message_id : ℕ  -- int32
  pub channel : Bytes
  pub packet_id : ℕ  -- byte
  pub body : Bytes

unfoldable pub decode_forge_login_packet :
    Zlib → Client → LoginPluginRequest → Option ForgeLoginWrapper
decode_forge_login_packet zlib client request =
    if not (same_bytes request.channel forge_channel_login_wrapper) then none else do
      (channel, r) ← read_str 32767 request.body
      inner ← decode_without_len zlib client r
      some (record {
        message_id = request.message_id;
        channel = channel;
        packet_id = inner.id;
        body = inner.body;
      })

-- `respondLoginPluginRequest`: the frame that is written, or the error.
unfoldable pub respond_login_plugin_request :
    Zlib → Bool → Client → LoginPluginRequest → Option Bytes
unfolding respond_forge_login_packet decode_forge_login_packet
respond_login_plugin_request zlib up client request = do
  wrapper ← decode_forge_login_packet zlib client request
  if same_bytes wrapper.channel forge_channel_handshake && (wrapper.packet_id == forge_mod_list)
      then (do
        reply ← forge_mod_list_reply wrapper.body
        respond_forge_login_packet zlib up client wrapper.message_id wrapper.channel
            forge_mod_list_reply_id reply)
      else respond_forge_login_packet zlib up client wrapper.message_id wrapper.channel
          forge_acknowledgement []

read_bool-first : (c : ℕ) (rest : Bytes) → read_bool (c ∷ rest) ≡ some (not (c == 0), rest)
unfolding read_bool
read_bool-first c rest = ground arith

-- A string in the place of a response's fields.
decode_string :
    (c : ℕ) (cs rest : Bytes)
    → length (c ∷ cs) < 2 ^ 31
    → decode_login_plugin_response (write_string [] (c ∷ cs) ++ rest)
      ≡ some (record { message_id = length (c ∷ cs); successful = not (c == 0); body = cs ++ rest })
unfolding decode_login_plugin_response
decode_string c cs rest short =
    let n : length (c ∷ cs) % 2 ^ 32 ≡ length (c ∷ cs) = omega arith in
    rw
      (
        n,
        append_assoc (encode_var_int (length (c ∷ cs))) (c ∷ cs) rest,
        var_int-encode_var_int (length (c ∷ cs)) (c ∷ cs ++ rest) (omega arith),
        read_bool-first c (cs ++ rest),
      )
      refl

-- Who decodes the body of the packet that `respondForgeLoginPacket` writes as a login plugin response
-- takes, for a channel that is not empty and shorter than 2^31 bytes, the length of the channel's name
-- for the message id and the test of its first byte for the success flag, whatever the message id is
-- that the packet is to answer.
pub forge_login_packet-length :
    (zlib : Zlib) (client : Client) (message_id c : ℕ) (cs : Bytes) (packet_id : ℕ) (body : Bytes)
    (p : RawPacket)
    → length (c ∷ cs) < 2 ^ 31
    → forge_login_packet zlib client message_id (c ∷ cs) packet_id body ≡ some p
    → (r : LoginPluginResponse) × (decode_login_plugin_response p.body ≡ some r)
      × (r.message_id ≡ length (c ∷ cs))
      × (r.successful ≡ not (c == 0))
unfolding forge_login_packet
forge_login_packet-length zlib client message_id c cs packet_id body p short e =
    let (payload, _, made) =
      >>=-eq-some (encode_without_len zlib (new_raw_packet packet_id body) client) _ e in
    subst
      (λ (q : RawPacket).
        (r : LoginPluginResponse) × (decode_login_plugin_response q.body ≡ some r)
        × (r.message_id ≡ length (c ∷ cs))
        × (r.successful ≡ not (c == 0)))
      (some-injective _ _ made)
      (
        record { message_id = length (c ∷ cs); successful = not (c == 0); body = cs ++ payload },
        decode_string c cs payload short,
        refl,
        refl,
      )
