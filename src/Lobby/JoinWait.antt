-- ===== src/Lobby/JoinWait.antt =====
-- probe.go: `waitForServerJoinGameNoTimeout`, on the reads from the backend, and what it leaves for the
-- client. The buffer of the reads is the bytes behind the last packet.
use mathlib.Core.Option.{some-injective}
use lazygate.Prelude.{
  Bool-cases, inl, inr, ◌+◌, true, false, List, [], ◌∷◌, ◌++◌, Bytes, Option, none, some,
  if◌then◌else◌, ltb, length, ◌≡◌, refl, sym, ap, ◌∙◌, append_assoc,
}
use lazygate.Nbt.Reader.{Result, failed, panicked, stuck, ok}
use lazygate.Proto.Client.{ClientInfo, get_protocol}
use lazygate.Proto.Framing.{RawPacket}
use lazygate.Play.Ids.{join_game_is_packet}
use lazygate.Play.JoinGame.{JoinGameData, join_game_data_from_packet}
use lazygate.Proto.Stream.{max_buffered_bytes}

-- A packet, its bytes as they were read, and the buffer behind it.
pub record Read : Type 0 where
  pub packet : RawPacket
  pub raw : Bytes
  pub buf : Bytes

-- The data, and the buffer with what was queued before it. An error, and a panic, give none.
abbrev pub with_queue : Bytes → Bytes → Result JoinGameData → Option (JoinGameData × Bytes)
with_queue queued buf (ok data_left rest) = some (data_left, queued ++ buf)
with_queue queued buf failed = none
with_queue queued buf panicked = none
with_queue queued buf stuck = none

unfoldable pub wait_loop : ClientInfo → Bytes → List Read → Option (JoinGameData × Bytes)
wait_loop info queued [] = none
wait_loop info queued (r ∷ rs) =
    let later = wait_loop info (queued ++ r.raw) rs in
    if join_game_is_packet (get_protocol info) r.packet.id
    then with_queue queued r.buf (join_game_data_from_packet info r.packet)
    else if ltb max_buffered_bytes (length queued + length r.raw)
    then none
    else later

unfoldable pub wait_for_server_join_game : ClientInfo → List Read → Option (JoinGameData × Bytes)
unfolding wait_loop
wait_for_server_join_game info reads = wait_loop info [] reads

abbrev pub raws : List Read → Bytes
raws [] = []
raws (r ∷ rs) = r.raw ++ raws rs

abbrev pub NoneJoins : ClientInfo → List Read → Type 0
NoneJoins info [] = Unit
NoneJoins info (r ∷ rs) =
    (join_game_is_packet (get_protocol info) r.packet.id ≡ false) × NoneJoins info rs

-- The reads split at the first join game, whose data is given, and what was read before
-- it stands in front of the buffer.
pub record Joined (info : ClientInfo) (queued : Bytes) (reads : List Read) (d : JoinGameData)
    (buf : Bytes) : Type 0 where
  pub before : List Read
  pub join : Read
  pub after : List Read
  pub unread : Bytes
  pub splits : reads ≡ before ++ join ∷ after
  pub none_before : NoneJoins info before
  pub is_join : join_game_is_packet (get_protocol info) join.packet.id ≡ true
  pub decodes : join_game_data_from_packet info join.packet ≡ ok d unread
  pub keeps : buf ≡ queued ++ (raws before ++ join.buf)

with_queue-Joined :
    (info : ClientInfo) (queued : Bytes) (r : Read) (rs : List Read) {d : JoinGameData}
    {buf : Bytes} (m : Result JoinGameData)
    → join_game_is_packet (get_protocol info) r.packet.id ≡ true
    → join_game_data_from_packet info r.packet ≡ m
    → with_queue queued r.buf m ≡ some (d, buf)
    → Joined info queued (r ∷ rs) d buf
with_queue-Joined info queued r rs {d} {buf} (ok d' rest) j e h =
    let pair = some-injective _ _ h in
    record {
      before = [];
      join = r;
      after = rs;
      unread = rest;
      splits = refl;
      none_before = tt;
      is_join = j;
      decodes = e ∙ ap (λ d. ok d rest) (ap (λ p. p.0) pair);
      keeps = sym (ap (λ p. p.1) pair);
    }
with_queue-Joined info queued r rs failed j e h = absurd (cc h)
with_queue-Joined info queued r rs panicked j e h = absurd (cc h)
with_queue-Joined info queued r rs stuck j e h = absurd (cc h)

Joined-cons :
    (info : ClientInfo) (queued : Bytes) (r : Read) (rs : List Read) {d : JoinGameData}
    {buf : Bytes}
    → join_game_is_packet (get_protocol info) r.packet.id ≡ false
    → Joined info (queued ++ r.raw) rs d buf
    → Joined info queued (r ∷ rs) d buf
Joined-cons info queued r rs other k = record {
  before = r ∷ k.before;
  join = k.join;
  after = k.after;
  unread = k.unread;
  splits = ap (λ l. r ∷ l) k.splits;
  none_before = (other, k.none_before);
  is_join = k.is_join;
  decodes = k.decodes;
  keeps =
      k.keeps
      ∙ append_assoc queued r.raw (raws k.before ++ k.join.buf)
      ∙ ap (λ b. queued ++ b) (sym (append_assoc r.raw (raws k.before) k.join.buf));
}

wait_loop-Joined :
    (info : ClientInfo) (reads : List Read) (queued : Bytes) {d : JoinGameData} {buf : Bytes}
    → wait_loop info queued reads ≡ some (d, buf)
    → Joined info queued reads d buf
unfolding wait_loop
wait_loop-Joined info [] queued h = absurd (cc h)
wait_loop-Joined info (r ∷ rs) queued h =
    elim (Bool-cases (join_game_is_packet (get_protocol info) r.packet.id)) [
      | inl this ↦
          with_queue-Joined info queued r rs (join_game_data_from_packet info r.packet) this refl
            (sym (rw this refl) ∙ h)
      | inr other ↦ elim (Bool-cases (ltb max_buffered_bytes (length queued + length r.raw))) [
        | inl full ↦ absurd (let bad : none ≡ some _ = sym (rw (other, full) refl) ∙ h in cc)
        | inr room ↦
            Joined-cons info queued r rs other
              (wait_loop-Joined info rs (queued ++ r.raw) (sym (rw (other, room) refl) ∙ h))
      ]
    ]

-- A join game that is waited for is the first that the backend sends, it decodes to the data that is
-- given, and the buffer that is left holds, in order and whole, what was read before it and then what is unread behind it.
pub wait_for_server_join_game-Joined :
    (info : ClientInfo) (reads : List Read) {d : JoinGameData} {buf : Bytes}
    → wait_for_server_join_game info reads ≡ some (d, buf)
    → Joined info [] reads d buf
unfolding wait_for_server_join_game
wait_for_server_join_game-Joined info reads h = wait_loop-Joined info reads [] h
