-- ===== src/Proto/Stream/Examples.antt =====
-- A connection that delivers three bytes at a time, and instances of the stream theorems on it.
use lazygate.Prelude.{
  ℕ, ◌≤◌, min, [], ◌∷◌, ◌++◌, ◌≡◌, ◌≢◌, refl, sym, arith, Bytes, Option, some, none, length, take,
  drop, length-take, take-append-drop, inl,
}
use lazygate.Proto.VarInt.{encode_var_int}
use lazygate.Proto.Framing.Examples.{stored, small_packet, small_frame, encode_small, client_4}
use lazygate.Proto.Stream.{
  Connection, Failure, eof, packet, failed, malformed_packet, stuck, read_packet,
  max_buffered_bytes,
}
use lazygate.Proto.Stream.Filling.{taken}
use lazygate.Proto.Stream.Conservation.{read_packet_conserves}
use lazygate.Proto.Stream.Delivery.{read_packet_delivers}
use lazygate.Proto.Stream.Flow.{Flows}
use lazygate.Proto.Stream.Retry.{read_packet_split_length, read_packet_malformed_stays}

abbrev at_end : Bytes → Option Failure
at_end [] = some eof
at_end (b ∷ bs) = none

pub trickle_fits : (n : ℕ) (c : Bytes) → length (take (min n 3) c) ≤ n
trickle_fits n c = omega (arith, length-take (min n 3) c)

pub trickle_order : (n : ℕ) (c : Bytes) → c ≡ take (min n 3) c ++ drop (min n 3) c
trickle_order n c = sym (take-append-drop (min n 3) c)

abbrev pub trickle : Connection
trickle = record {
  State = Bytes;
  read = λ n c. (take (min n 3) c, at_end c, drop (min n 3) c);
  pending = λ c. c;
  read_fits = trickle_fits;
  read_order = trickle_order;
}

trickle-Flows : Flows trickle
trickle-Flows n [] h k = absurd (omega arith)
trickle-Flows n (b ∷ bs) h k = (refl, omega (arith, length-take (min n 3) (b ∷ bs)))

read_packet_conserves_example :
    let (out, buf', c') = read_packet stored trickle client_4 (9 ∷ []) (7 ∷ 1 ∷ []) in
    (out ≢ stuck)
    × (length buf' ≤ max_buffered_bytes)
    × ((9 ∷ []) ++ (7 ∷ 1 ∷ []) ≡ taken out ++ (buf' ++ c'))
read_packet_conserves_example =
    read_packet_conserves stored trickle client_4 (9 ∷ []) (7 ∷ 1 ∷ []) (omega arith)

read_packet_delivers_example :
    let (out, buf', c') = read_packet stored trickle client_4 [] (small_frame ++ (7 ∷ 8 ∷ [])) in
    (out ≡ packet small_packet small_frame) × (buf' ++ c' ≡ 7 ∷ 8 ∷ [])
read_packet_delivers_example =
    read_packet_delivers stored trickle client_4 small_packet (omega arith) []
      (small_frame ++ (7 ∷ 8 ∷ [])) small_frame (7 ∷ 8 ∷ []) trickle-Flows (omega arith)
      encode_small (unfold lazygate.Proto.VarInt.encode_var_int in omega arith) (omega arith)
      (inl (omega arith)) refl

-- The length 20000 after two of its three bytes.
twenty_thousand : encode_var_int 20000 ≡ (0xa0 ∷ 0x9c ∷ []) ++ 1 ∷ []
unfolding encode_var_int
twenty_thousand = refl

read_packet_split_length_example :
    read_packet stored trickle client_4 (0xa0 ∷ 0x9c ∷ []) (1 ∷ 5 ∷ [])
    ≡ (failed malformed_packet, 0xa0 ∷ 0x9c ∷ [], 1 ∷ 5 ∷ [])
read_packet_split_length_example =
    read_packet_split_length stored trickle client_4 20000 1 (0xa0 ∷ 0x9c ∷ []) [] (1 ∷ 5 ∷ [])
      (omega arith) twenty_thousand (omega arith) (omega arith)

read_packet_malformed_stays_example :
    read_packet stored trickle client_4 (0xa0 ∷ 0x9c ∷ []) (1 ∷ 5 ∷ [])
    ≡ (failed malformed_packet, 0xa0 ∷ 0x9c ∷ [], 1 ∷ 5 ∷ [])
read_packet_malformed_stays_example =
    read_packet_malformed_stays stored trickle client_4 (0xa0 ∷ 0x9c ∷ []) (1 ∷ 5 ∷ [])
      (omega arith) read_packet_split_length_example
