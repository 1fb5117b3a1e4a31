-- ===== src/Rcon/RoundTrip.antt =====
-- mc/rcon.go: `receivePacket` on what `send` writes, and on a length that is out of range.
use lazygate.Prelude.{
  ℕ, ◌+◌, ◌%◌, ◌^◌, ◌<◌, ◌≤◌, true, false, [], ◌∷◌, ◌++◌, Bytes, if◌then◌else◌, length, take, drop,
  length-append, take-append, drop-append, append_assoc, ◌≡◌, ◌≢◌, ◌⊎◌, ◌↔◌, inl, inr, refl, sym,
  ◌∙◌, ap, arith, Bool-cases,
}
use lazygate.Proto.VarInt.{is_negative, IsInt32}
use lazygate.Rcon.{
  RconPacket, little_endian32, little_endian_value, packet_bytes, bad_length, Got, ok, failed,
  and_then, read_full, body_len, receive_packet,
}

pub little_endian_value-little_endian32 :
    (v : ℕ) → IsInt32 v → little_endian_value (little_endian32 v) ≡ v
little_endian_value-little_endian32 v h = omega arith

pub read_full-append : (a b : Bytes) → read_full (length a) (a ++ b) ≡ ok a b
unfolding read_full
read_full-append a b =
    ground
      (arith, length-append a b, take-append a b (length a) refl, drop-append a b (length a) refl)

-- The fields that fit.
pub record IsPacket (p : RconPacket) : Type 0 where
  pub id : IsInt32 p.id
  pub ptype : IsInt32 p.ptype
  pub body : length p.body < 2 ^ 31

header : ℕ → ℕ → ℕ → Bytes
header len id ptype = little_endian32 len ++ (little_endian32 id ++ little_endian32 ptype)

-- What is done once the header is read, on its three fields.
body_of : ℕ → ℕ → ℕ → Bytes → Got RconPacket
body_of n id ptype rest =
    if is_negative n
    then failed bad_length
    else and_then (read_full n rest) (λ body rest₂.
      and_then (read_full 2 rest₂)
        (λ term rest₃. ok (record { id = id; ptype = ptype; body = body }) rest₃))

same_fields :
    (n n₂ id id₂ ptype ptype₂ : ℕ) (rest : Bytes)
    → n ≡ n₂
    → id ≡ id₂
    → ptype ≡ ptype₂
    → body_of n id ptype rest ≡ body_of n₂ id₂ ptype₂ rest
same_fields n n₂ id id₂ ptype ptype₂ rest e f g = rw (e, f, g) refl

receive_packet-header :
    (len id ptype : ℕ) (rest : Bytes)
    → IsInt32 len
    → IsInt32 id
    → IsInt32 ptype
    → receive_packet (header len id ptype ++ rest) ≡ body_of (body_len len) id ptype rest
unfolding receive_packet header body_of
receive_packet-header len id ptype rest int_len int_id int_ptype =
    ap
      (λ g. and_then g (λ hdr r.
        body_of (body_len (little_endian_value (take 4 hdr)))
          (little_endian_value (take 4 (drop 4 hdr))) (little_endian_value (take 4 (drop 8 hdr)))
          r))
      (read_full-append (header len id ptype) rest)
    ∙ same_fields _ _ _ _ _ _ rest (ap body_len (little_endian_value-little_endian32 len int_len))
        (little_endian_value-little_endian32 id int_id)
        (little_endian_value-little_endian32 ptype int_ptype)

small : (n : ℕ) → n < 2 ^ 31 → is_negative n ≡ false
small n h = ground arith

-- A packet that is sent is received, and what follows it is left.
pub receive_packet-packet_bytes :
    (p : RconPacket) (rest : Bytes)
    → IsPacket p
    → receive_packet (packet_bytes p ++ rest) ≡ ok p rest
unfolding packet_bytes header body_of
receive_packet-packet_bytes p rest fits =
    let len : body_len ((10 + length p.body) % 2 ^ 32) ≡ length p.body = omega (arith, fits.body) in
    receive_packet-header ((10 + length p.body) % 2 ^ 32) p.id p.ptype
      ((p.body ++ 0 ∷ 0 ∷ []) ++ rest) (omega arith) fits.id fits.ptype
    ∙ (same_fields _ _ _ _ _ _ _ len refl refl
        ∙ rw
            (
              small (length p.body) fits.body,
              append_assoc p.body (0 ∷ 0 ∷ []) rest,
              read_full-append p.body (0 ∷ 0 ∷ rest),
              read_full-append (0 ∷ 0 ∷ []) rest,
            )
            refl)

negative_len :
    (len : ℕ) → IsInt32 len → is_negative (body_len len) ≡ true → (len < 10) ⊎ (2 ^ 31 + 10 ≤ len)
negative_len len int e = ground arith

len_negative :
    (len : ℕ) → IsInt32 len → (len < 10) ⊎ (2 ^ 31 + 10 ≤ len) → is_negative (body_len len) ≡ true
len_negative len int h = ground arith

not_bad :
    (n id ptype : ℕ) (rest : Bytes)
    → is_negative n ≡ false
    → body_of n id ptype rest ≢ failed bad_length
unfolding body_of read_full
not_bad n id ptype rest fits e = ground arith

-- The length field is refused exactly from 2^31 + 10 up and below 10: a length from -2^31 to -2^31 + 9 wraps
-- around to a body of more than 2^31 - 11 bytes and is not refused.
pub receive_packet-bad_length :
    (len id ptype : ℕ) (rest : Bytes)
    → IsInt32 len
    → IsInt32 id
    → IsInt32 ptype
    → (receive_packet
          (little_endian32 len ++ (little_endian32 id ++ (little_endian32 ptype ++ rest)))
        ≡ failed bad_length)
      ↔ ((len < 10) ⊎ (2 ^ 31 + 10 ≤ len))
unfolding header body_of read_full
receive_packet-bad_length len id ptype rest int_len int_id int_ptype =
    let same = receive_packet-header len id ptype rest int_len int_id int_ptype in
    (λ e. refused (sym same ∙ e), λ h. same ∙ refuses h)
  where
    refused :
        body_of (body_len len) id ptype rest ≡ failed bad_length → (len < 10) ⊎ (2 ^ 31 + 10 ≤ len)
    refused e = elim (Bool-cases (is_negative (body_len len))) [
      | inl negative ↦ negative_len len int_len negative
      | inr fits ↦ absurd (not_bad (body_len len) id ptype rest fits e)
    ]

    refuses :
        (len < 10) ⊎ (2 ^ 31 + 10 ≤ len) → body_of (body_len len) id ptype rest ≡ failed bad_length
    refuses h = rw (len_negative len int_len h) refl
