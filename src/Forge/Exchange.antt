-- ===== src/Forge/Exchange.antt =====
-- forge.go: what `relay` answers the backend.
use lazygate.Prelude.{ℕ, Bool, List, [], ◌∷◌, Bytes, some, ◌≡◌}
use lazygate.Proto.Client.{Client}
use lazygate.Proto.Framing.{Zlib, RawPacket}
use lazygate.Proto.Packets.{LoginPluginRequest, LoginPluginResponse, decode_login_plugin_response}
use lazygate.Proto.Stream.{Outcome, packet}
use lazygate.Forge.{write_forge_login_response}

-- The frame that is written to the backend is the client's answer under the id of the request, and the
-- client's answer is to the id that it was asked under.
pub record IsAnswer (zlib : Zlib) (up : Bool) (backend : Client) (request : LoginPluginRequest)
    (id : ℕ) (answer : Outcome) (frame : Bytes) : Type 0 where
  pub p : RawPacket
  pub raw : Bytes
  pub response : LoginPluginResponse
  pub is_read : answer ≡ packet p raw
  pub is_response : p.id ≡ 2
  pub is_decoded : decode_login_plugin_response p.body ≡ some response
  pub same_id : response.message_id ≡ id
  pub is_written :
      write_forge_login_response zlib up backend (record {
        message_id = request.message_id;
        successful = response.successful;
        body = response.body;
      })
      ≡ some frame

-- Nothing is written to the backend, or one frame that answers it.
pub data Answers (zlib : Zlib) (up : Bool) (backend : Client) (request : LoginPluginRequest)
    (id : ℕ) (answer : Outcome) : List Bytes → Type 0 where
  silent : Answers zlib up backend request id answer []
  answers :
      (frame : Bytes)
      → IsAnswer zlib up backend request id answer frame
      → Answers zlib up backend request id answer (frame ∷ [])
