-- ===== src/Velocity/Examples.antt =====
-- The theorems on forwarding for a concrete player.
use lazygate.Prelude.{false, [], ◌∷◌, ◌++◌, Bytes, some, none, ◌≡◌, refl, arith}
use lazygate.Proto.Client.{GameProfile}
use lazygate.Proto.Packets.{LoginPluginRequest, LoginPluginResponse, decode_login_plugin_response}
use lazygate.Velocity.{velocity_player_info_channel, respond_velocity_forwarding}
use lazygate.Velocity.Answer.{Answers, respond_velocity_forwarding-Answers}

abbrev sixteen : Bytes
sixteen = 1 ∷ 2 ∷ 3 ∷ 4 ∷ 5 ∷ 6 ∷ 7 ∷ 8 ∷ 9 ∷ 10 ∷ 11 ∷ 12 ∷ 13 ∷ 14 ∷ 15 ∷ 16 ∷ []

abbrev steve : GameProfile
steve = record {
  uuid = sixteen;
  name = 83 ∷ 116 ∷ [];
  properties =
      record { name = 116 ∷ []; value = 101 ∷ []; signature = some (115 ∷ []) }
      ∷ record { name = 117 ∷ []; value = []; signature = none }
      ∷ [];
}

abbrev local_host : Bytes
local_host = 58 ∷ 58 ∷ 49 ∷ []

abbrev asked : LoginPluginRequest
asked = record { message_id = 7; channel = velocity_player_info_channel; body = 9 ∷ [] }

-- An HMAC of 32 bytes
abbrev constant : Bytes → Bytes → Bytes
constant key m = sixteen ++ sixteen

respond_velocity_forwarding-Answers_example :
    (body : Bytes) × (answer : LoginPluginResponse) × (respond_velocity_forwarding constant
        (some sixteen)
        (λ address. false)
        local_host
        asked
        (some steve)
      ≡ some body)
    × (decode_login_plugin_response body ≡ some answer)
    × Answers constant sixteen local_host asked steve answer
respond_velocity_forwarding-Answers_example =
    respond_velocity_forwarding-Answers constant (λ key m. refl) (λ address. false) sixteen
      local_host asked steve refl refl (omega arith) (omega arith)
      (
        refl,
        omega arith,
        omega arith,
        ((omega arith, omega arith, omega arith), ((omega arith, omega arith, tt), tt)),
      )
