-- ===== src/Proto/Client.antt =====
-- proto/client.go: the protocol state of a connection and its compression threshold. The peer
-- address and the mutex are left out: no operation of proto/ reads the first, and each method is one
-- step under the second. Also `ClientInfo` and the profile types.
use lazygate.Prelude.{
  ℕ, ◌-◌, ◌^◌, ◌%◌, Bool, not, List, Bytes, Option, none, some, ◌==◌, if◌then◌else◌, ◌≡◌, ◌≢◌,
  arith,
}
use lazygate.Proto.VarInt.{is_negative}
use lazygate.Proto.Packets.{Handshake}

pub data ClientState : Type 0 where
  handshake status login play : ClientState

pub ClientState-discrete : Discrete ClientState
ClientState-discrete = hlevel

-- `FromID`; the receiver is only returned with `ok = false`.
unfoldable pub from_id : ℕ → Option ClientState
from_id id =
    if id == 0
    then some handshake
    else if id == 1
    then some status
    else if id == 2
    then some login
    else none

-- -1 as an int32
abbrev pub minus_one : ℕ
minus_one = 2 ^ 32 - 1

pub to_id : ClientState → ℕ
to_id handshake = 0
to_id status = 1
to_id login = 2
to_id play = minus_one

pub record Client : Type 0 where
  pub state : ClientState
  pub compression : ℕ  -- int32

abbrev pub new_client : Client
new_client = record { state = handshake; compression = minus_one }

abbrev pub set_state : ClientState → Client → Client
set_state s c = record c { state = s }

abbrev pub compressed : Client → ℕ
compressed c = c.compression

abbrev pub is_compressed : Client → Bool
is_compressed c = not (is_negative c.compression)

abbrev pub set_compression : ℕ → Client → Client
set_compression threshold c = record c { compression = threshold }

pub record ProfileProperty : Type 0 where
  pub name : Bytes
  pub value : Bytes
  pub signature : Option Bytes

pub record GameProfile : Type 0 where
  pub uuid : Bytes  -- [16]byte
  pub name : Bytes
  pub properties : List ProfileProperty

pub record ClientInfo : Type 0 where
  pub protocol : Option ℕ  -- uint32
  pub handshake_packet : Option Handshake
  pub username : Option Bytes
  pub profile : Option GameProfile

abbrev pub empty_client_info : ClientInfo
empty_client_info = record {
  protocol = none;
  handshake_packet = none;
  username = none;
  profile = none;
}

-- `GetProtocol`: the announced version, or that of the handshake.
unfoldable pub get_protocol : ClientInfo → Option ℕ
get_protocol i = elim i.protocol [
  | some p ↦ some p
  | none ↦ elim i.handshake_packet [ some h ↦ some (h.protocol_version % 2 ^ 32) | none ↦ none ]
]

-- The ids are those that a handshake can ask for, and no id leads to the play state.
pub from_id-to_id : (id : ℕ) (s : ClientState) → from_id id ≡ some s → to_id s ≡ id
unfolding from_id to_id
from_id-to_id id s h = ground arith

pub from_id-ne-play : (id : ℕ) → from_id id ≢ some play
unfolding from_id
from_id-ne-play id h = ground arith
