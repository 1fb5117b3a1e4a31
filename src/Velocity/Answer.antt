-- ===== src/Velocity/Answer.antt =====
-- velocity_forwarding.go: the answer to a request, from end to end.
use lazygate.Prelude.{
  same_bytes, ℕ, zero, suc, min, ◌≤◌, Bool, true, false, [], ◌∷◌, ◌++◌, ap, ◌∙◌, Bytes, some,
  length, take, drop, ◌≡◌, refl, sym, arith, take-append, drop-append,
}
use lazygate.Proto.VarInt.{IsInt32}
use lazygate.Proto.Client.{GameProfile}
use lazygate.Proto.Packets.{
  LoginPluginRequest, LoginPluginResponse, encode_login_plugin_response,
  decode_login_plugin_response,
}
use lazygate.Proto.Packets.RoundTrip.{decode_login_plugin_response-encode_login_plugin_response}
use lazygate.Velocity.{
  velocity_player_info_channel, forwarding_version, forwarding_payload, respond_velocity_forwarding,
}
use lazygate.Velocity.RoundTrip.{
  IsString, IsProfile, read_forwarding, read_forwarding-forwarding_payload,
}

-- The version that a request asks for: its one byte, cut to the range from 1 to 4, and 1 if the request has
-- no byte or more than one.
abbrev pub asked_version : Bytes → ℕ
asked_version [] = 1
asked_version (zero ∷ []) = 1
asked_version (suc v ∷ []) = min 4 (suc v)
asked_version (v ∷ w ∷ rest) = 1

forwarding_version-asked_version : (asked : Bytes) → forwarding_version asked ≡ asked_version asked
unfolding forwarding_version
forwarding_version-asked_version [] = refl
forwarding_version-asked_version (zero ∷ []) = refl
forwarding_version-asked_version (suc v ∷ []) = ground arith
forwarding_version-asked_version (v ∷ w ∷ rest) = ground arith

asked_version-le : (asked : Bytes) → asked_version asked ≤ 4
asked_version-le [] = omega arith
asked_version-le (zero ∷ []) = omega arith
asked_version-le (suc v ∷ []) = omega arith
asked_version-le (v ∷ w ∷ rest) = omega arith

-- What the backend finds in an answer: the id, success, and a signature of 32 bytes before the payload that it signs.
abbrev pub Answers :
    (Bytes → Bytes → Bytes)
    → Bytes
    → Bytes
    → LoginPluginRequest
    → GameProfile
    → LoginPluginResponse
    → Type 0
Answers hmac key address request player answer =
    (answer.message_id ≡ request.message_id)
    × (answer.successful ≡ true)
    × (take 32 answer.body ≡ hmac key (drop 32 answer.body))
    × (read_forwarding (drop 32 answer.body)
        ≡ some ((asked_version request.body, address, player), []))

-- A request on the right channel, for a player with a profile within the limits, with a secret and an address that is not blank, is
-- answered, if the HMAC has 32 bytes: the answer is read back as a plugin response with the request's id and with success,
-- its first 32 bytes are the HMAC of the rest under the secret, and the rest is read back as the asked version, the
-- address and the profile; the version is the request's one byte cut to the range from 1 to 4, or 1 if
-- its body is not one byte long.
pub respond_velocity_forwarding-Answers :
    (hmac : Bytes → Bytes → Bytes)
    → ((key m : Bytes) → length (hmac key m) ≡ 32)
    → (is_blank : Bytes → Bool)
    → (key address : Bytes) (request : LoginPluginRequest) (player : GameProfile)
    → same_bytes request.channel velocity_player_info_channel ≡ true
    → is_blank address ≡ false
    → IsInt32 request.message_id
    → IsString address
    → IsProfile player
    → (body : Bytes) × (answer : LoginPluginResponse) × (respond_velocity_forwarding hmac
          (some key)
          is_blank
          address
          request
          (some player)
        ≡ some body)
      × (decode_login_plugin_response body ≡ some answer)
      × Answers hmac key address request player answer
unfolding respond_velocity_forwarding encode_login_plugin_response
respond_velocity_forwarding-Answers hmac size is_blank key address request player channel blank id a
      p =
    let version = forwarding_version request.body in
    let payload = forwarding_payload version address player in
    let same = forwarding_version-asked_version request.body in
    let high : version ≤ 4 = omega (arith, same, asked_version-le request.body) in
    let answer : LoginPluginResponse = record {
      message_id = request.message_id;
      successful = true;
      body = hmac key payload ++ payload;
    } in
    let signed = take-append (hmac key payload) payload 32 (sym (size key payload)) in
    let behind = drop-append (hmac key payload) payload 32 (sym (size key payload)) in
    (
      encode_login_plugin_response answer [],
      answer,
      simp (channel, blank) refl,
      decode_login_plugin_response-encode_login_plugin_response answer id,
      (
        refl,
        refl,
        rw (behind, signed) refl,
        rw behind (
            read_forwarding-forwarding_payload version address player (omega (arith, high)) a p
            ∙ ap (λ v. some ((v, address, player), [])) same),
      ),
    )
