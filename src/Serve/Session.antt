-- ===== src/Serve/Session.antt =====
-- status.go: what `Serve` knows of a client as it reads its packets.
use lazygate.Prelude.{[], ◌++◌, Bytes, none, some, ◌≡◌, ◌⊎◌}
use lazygate.Proto.Client.{ClientState, handshake, status, login, play, from_id}
use lazygate.Proto.Packets.{Handshake}
use lazygate.Serve.{ClientSession, Next, read_on, close, occupy}

-- In the handshake and the status nothing is remembered of the client's bytes; in the login a
-- handshake is known that asks for it. A username is known in neither, and play is never reached.
unfoldable pub Knows : ClientState → ClientSession → Type 0
Knows handshake s = (s.info.username ≡ none) × (s.history ≡ [])
Knows status s = (s.info.username ≡ none) × (s.history ≡ [])
Knows login s =
    (s.info.username ≡ none)
    × ((h : Handshake) × ((s.info.handshake_packet ≡ some h) × (from_id h.next_state ≡ some login)))
Knows play s = login ≡ play

abbrev pub IsSound : ClientSession → Type 0
IsSound s = Knows s.client.state s

-- What is remembered of the bytes, before and after a packet that is read on from: the handshake's bytes and
-- no others when the login begins, nothing when it brings another state, and the same as before in every
-- state that stays.
abbrev pub Remembers : Bytes → ClientSession → ClientSession → Type 0
Remembers raw s s₂ =
    ((s₂.client.state ≡ s.client.state) × (s₂.history ≡ s.history))
    ⊎ ((s.client.state ≡ handshake)
        × (((s₂.client.state ≡ status) × (s₂.history ≡ []))
            ⊎ ((s₂.client.state ≡ login) × (s₂.history ≡ raw))))

-- What is read on with is sound and remembers what it is to; a client that is handed on is in the login,
-- has a handshake that asks for it, and what is remembered of it ends in the queue.
pub Follows : Bytes → ClientSession → Next → Type 0
Follows raw s close = s ≡ s
Follows raw s (read_on s₂) = IsSound s₂ × Remembers raw s s₂
Follows raw s (occupy s₂ queue) =
    (s₂.client.state ≡ login)
    × (((h : Handshake) × ((s₂.info.handshake_packet ≡ some h)
            × (from_id h.next_state ≡ some login)))
        × (s₂.history ≡ s.history ++ queue))
