-- ===== src/Velocity.antt =====
-- velocity_forwarding.go: the answer to a backend's request for the player's identity.
--
-- HMAC-SHA256 is a parameter, and so is the host that `net.SplitHostPort` and `peer.String` give, with
-- the test that `strings.TrimSpace` leaves nothing of it. The secret file is its mode and its bytes.
pub mod RoundTrip
pub mod Answer
mod Examples
use lazygate.Prelude.{
  same_bytes, ℕ, ◌^◌, ◌%◌, zero, suc, Bool, true, false, not, ◌&&◌, ◌||◌, List, [], ◌∷◌, ◌++◌,
  Bytes, Option, none, some, ◌>>=◌, ◌>>◌, guard, if◌then◌else◌, ltb, leb, ◌==◌, length, get_or,
}
use lazygate.Proto.Writer.{write, write_bool, write_var_int, write_string}
use lazygate.Proto.Client.{ProfileProperty, GameProfile}
use lazygate.Proto.Packets.{LoginPluginRequest}

-- "velocity:player_info"
abbrev pub velocity_player_info_channel : Bytes
velocity_player_info_channel =
    118 ∷ 101 ∷ 108 ∷ 111 ∷ 99 ∷ 105 ∷ 116 ∷ 121 ∷ 58 ∷ 112 ∷ 108 ∷ 97 ∷ 121 ∷ 101 ∷ 114 ∷ 95 ∷ 105
    ∷ 110 ∷ 102 ∷ 111 ∷ []

abbrev pub velocity_modern_default : ℕ
velocity_modern_default = 1

abbrev pub velocity_modern_lazy_session : ℕ
velocity_modern_lazy_session = 4

abbrev pub minimum_forwarding_secret : ℕ
minimum_forwarding_secret = 16

abbrev pub maximum_forwarding_secret : ℕ
maximum_forwarding_secret = 4096

-- `bytes.TrimRight(data, "\r\n")`: what is left is empty, or ends in another character.
abbrev pub trim_right : Bytes → Bytes
trim_right [] = []
trim_right (b ∷ bs) = trim_cons b (trim_right bs)
  where
    trim_cons : ℕ → Bytes → Bytes
    trim_cons b [] = if b == 13 || b == 10 then [] else b ∷ []
    trim_cons b (c ∷ cs) = b ∷ c ∷ cs

-- `forwardingSecret` on a file that could be read.
unfoldable pub forwarding_secret : Bool → Bytes → Option Bytes
forwarding_secret private_regular content = do
  guard private_regular
  guard (not (ltb maximum_forwarding_secret (length content)))
  guard (not (ltb (length (trim_right content)) minimum_forwarding_secret))
  some (trim_right content)

unfoldable pub forwarding_version : Bytes → ℕ
forwarding_version asked =
    if (length asked == 1) && leb velocity_modern_default (get_or asked 0 0)
    then if ltb velocity_modern_lazy_session (get_or asked 0 0)
      then velocity_modern_lazy_session
      else get_or asked 0 0
    else velocity_modern_default

unfoldable pub write_signature : Bytes → Option Bytes → Bytes
write_signature w none = write_bool w false
write_signature w (some signature) = write_string (write_bool w true) signature

unfoldable pub write_properties : Bytes → List ProfileProperty → Bytes
unfolding write_signature
write_properties w [] = w
write_properties w (p ∷ ps) =
    write_properties (write_signature (write_string (write_string w p.name) p.value) p.signature) ps

unfoldable pub forwarding_payload : ℕ → Bytes → GameProfile → Bytes
unfolding write_properties
forwarding_payload version address profile =
    let w =
      write_string (write (write_string (write_var_int [] version) address) profile.uuid)
        profile.name in
    write_properties (write_var_int w (length profile.properties % 2 ^ 32)) profile.properties

-- The data of the response packet, or the error.
unfoldable pub respond_velocity_forwarding :
    (Bytes → Bytes → Bytes)
    → Option Bytes
    → (Bytes → Bool)
    → Bytes
    → LoginPluginRequest
    → Option GameProfile
    → Option Bytes
unfolding forwarding_version forwarding_payload
respond_velocity_forwarding hmac secret is_blank address request profile = do
  guard (same_bytes request.channel velocity_player_info_channel)
  player ← profile
  key ← secret
  guard (not (is_blank address))
  let payload = forwarding_payload (forwarding_version request.body) address player
  some (write (write_bool (write_var_int [] request.message_id) true) (hmac key payload ++ payload))
