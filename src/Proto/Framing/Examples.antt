-- ===== src/Proto/Framing/Examples.antt =====
-- A zlib that meets the assumption, and instances of the framing theorem.
use lazygate.Prelude.{
  ℕ, zero, suc, ◌≤◌, [], ◌∷◌, ◌++◌, ◌≡◌, refl, ap, ◌∙◌, arith, Bytes, Option, some, none, length,
  take,
}
use lazygate.Proto.Client.{Client, login}
use lazygate.Proto.Framing.{Zlib, RawPacket, encode_with_len, decode_with_len}
use lazygate.Proto.Framing.RoundTrip.{decode_with_len-encode_with_len}

take_all : (n : ℕ) (xs : Bytes) → length xs ≤ n → take n xs ≡ xs
take_all zero [] h = refl
take_all zero (x ∷ xs) h = absurd (omega arith)
take_all (suc n) [] h = refl
take_all (suc n) (x ∷ xs) h = ap (◌∷◌ x) (take_all n xs (omega arith))

-- A marker byte in front of the bytes as they are.
abbrev stored_inflate : ℕ → Bytes → Option Bytes
stored_inflate limit [] = none
stored_inflate limit (b ∷ bs) = some (take limit bs)

pub stored-inflate-compress :
    (limit : ℕ) (p c : Bytes)
    → some (120 ∷ p) ≡ some c
    → length p ≤ limit
    → stored_inflate limit c ≡ some p
stored-inflate-compress limit p [] e h = cc
stored-inflate-compress limit p (b ∷ bs) e h =
    let q : bs ≡ p = cc in ap some (ap (take limit) q ∙ take_all limit p h)

abbrev pub stored : Zlib
stored = record {
  compress = λ p. some (120 ∷ p);
  inflate = stored_inflate;
  inflate-compress = stored-inflate-compress;
}

abbrev pub client_4 : Client
client_4 = record { state = login; compression = 4 }

abbrev pub small_packet : RawPacket
small_packet = record { id = 200; body = 1 ∷ 2 ∷ 3 ∷ 4 ∷ 5 ∷ [] }

abbrev pub small_frame : Bytes
small_frame = 9 ∷ 7 ∷ 120 ∷ 200 ∷ 1 ∷ 1 ∷ 2 ∷ 3 ∷ 4 ∷ 5 ∷ []

pub encode_small : encode_with_len stored small_packet client_4 ≡ some small_frame
unfolding encode_with_len lazygate.Proto.Framing.encode_without_len
    lazygate.Proto.Framing.encode_compressed lazygate.Proto.VarInt.encode_var_int
encode_small = refl

-- A compressed packet with the id 200, which takes two bytes.
decode_with_len-encode_with_len_example :
    decode_with_len stored client_4 (small_frame ++ 7 ∷ []) ≡ some small_packet
decode_with_len-encode_with_len_example =
    decode_with_len-encode_with_len stored small_packet (omega arith) client_4 small_frame (7 ∷ [])
      encode_small (omega arith)
