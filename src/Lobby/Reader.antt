-- ===== src/Lobby/Reader.antt =====
-- lobby.go: a client that reads what the lobby sends.
use mathlib.Core.Path.{subst}
use mathlib.Core.Option.{some-injective}
use lazygate.Prelude.{
  append-nil, >>=-eq-some, Bool-cases, inl, inr, All, ℕ, Bool, true, false, not, ◌&&◌, List, [],
  ◌∷◌, ◌++◌, Bytes, Option, none, some, if◌then◌else◌, ◌==◌, length, ◌>>=◌, ◌≡◌, refl, sym, ap, ◌∙◌,
  arith,
}
use lazygate.Proto.Client.{Client, ClientInfo, is_compressed}
use lazygate.Proto.Framing.{RawPacket}
use lazygate.Proto.Packets.{decode_set_compression}
use lazygate.Proto.VarInt.{is_negative, encode_var_int}
use lazygate.Proto.VarInt.RoundTrip.{var_int-encode_var_int}
use lazygate.Server.{ForgeLoginExchange}
use lazygate.Lobby.Login.{
  World, LobbyState, Sent, built, recorded, send_recorded, compression_threshold, send_packet,
  send_all, set_compression_packet, requests_of, login_success_packet,
}

-- A client: whether it is in the login, and its compression. It reads a packet only in its own framing,
-- takes a compression once, in the login, and leaves the login by a login success.
abbrev pub Reader : Type 0
Reader = Bool × ℕ

abbrev pub take_packet : Reader → ℕ → RawPacket → Option Reader
take_packet (in_login, c) framing p =
    if not (framing == c)
    then none
    else if not in_login
    then some (false, c)
    else if p.id == 2
    then some (false, c)
    else if p.id == 3
    then (if is_negative c then (do t ← decode_set_compression p.body; some (true, t)) else none)
    else some (true, c)

-- A recorded frame is taken in the login, before there is a compression.
abbrev pub take : Reader → Sent → Option Reader
take st (built framing p) = take_packet st framing p
take (in_login, c) (recorded frame) = if in_login && is_negative c then some (in_login, c) else none

unfoldable pub follow : Reader → List Sent → Option Reader
follow st [] = some st
follow st (x ∷ rest) = take st x >>= λ st'. follow st' rest

follow-append :
    (st : Reader) (xs : List Sent) (x : Sent)
    → follow st (xs ++ x ∷ []) ≡ (follow st xs >>= λ st'. take st' x)
unfolding follow
follow-append st [] x = go (take st x)
  where
    go : (m : Option Reader) → (m >>= λ st'. some st') ≡ m
    go none = refl
    go (some st') = refl
follow-append st (y ∷ xs) x = go (take st y) (λ st'. follow-append st' xs x)
  where
    go :
        (m : Option Reader)
        → ((st' : Reader) → follow st' (xs ++ x ∷ []) ≡ (follow st' xs >>= λ st''. take st'' x))
        → (m >>= λ st'. follow st' (xs ++ x ∷ []))
          ≡ ((m >>= λ st'. follow st' xs) >>= λ st'. take st' x)
    go none ih = refl
    go (some st') ih = ih st'

send_packet-some :
    (w : World) (p : RawPacket) (s : LobbyState) {t : LobbyState}
    → send_packet w p s ≡ some t
    → record s { sent = s.sent ++ built s.client.compression p ∷ [] } ≡ t
unfolding send_packet
send_packet-some w p s e = elim (Bool-cases (w.reaches (length s.sent))) [
  | inl up ↦ some-injective _ _ (sym (rw up refl) ∙ e)
  | inr down ↦ absurd (let bad : none ≡ some _ = sym (rw down refl) ∙ e in cc)
]

pub take_packet-set_compression :
    (c : ℕ)
    → not (is_negative c) ≡ false
    → take_packet (true, c) c (set_compression_packet compression_threshold)
      ≡ some (true, compression_threshold)
unfolding decode_set_compression
take_packet-set_compression c h =
    let same : (c == c) ≡ true = ground arith in
    let negative : is_negative c ≡ true = ground arith in
    rw
      (
        same,
        negative,
        sym (append-nil (encode_var_int compression_threshold)),
        var_int-encode_var_int compression_threshold [] (omega arith),
      )
      refl

pub if-some :
    {A : Type 0} (b : Bool) (x : A) {y : A} → (if b then some x else none) ≡ some y → x ≡ y
if-some true x e = some-injective _ _ e
if-some false x e = absurd (cc e)

pub take_packet-login_success :
    (md5 : Bytes → Bytes) (info : ClientInfo) (name : Bytes) (c : ℕ)
    → take_packet (true, c) c (login_success_packet md5 info name) ≡ some (false, c)
unfolding login_success_packet
take_packet-login_success md5 info name c =
    let same : (c == c) ≡ true = ground arith in rw same refl

module _ (start : Reader) where
  -- The reader has followed all that was sent, and knows the client's framing.
  abbrev pub Follows : Bool → LobbyState → Type 0
  Follows in_login s = follow start s.sent ≡ some (in_login, s.client.compression)

  pub send_packet-follow :
      (w : World) (p : RawPacket) (s : LobbyState) {t : LobbyState} (in_login : Bool)
      → Follows in_login s
      → send_packet w p s ≡ some t
      → (follow start t.sent ≡ take_packet (in_login, s.client.compression) s.client.compression p)
        × (t.client ≡ s.client)
  send_packet-follow w p s in_login f e =
      subst
        (λ t.
          (follow start t.sent
            ≡ take_packet (in_login, s.client.compression) s.client.compression p)
          × (t.client ≡ s.client))
        (send_packet-some w p s e)
        (follow-append start s.sent (built s.client.compression p) ∙ rw f refl, refl)

  -- A packet that leaves the framing and the login as they are.
  abbrev pub IsPlain : Bool → RawPacket → Type 0
  IsPlain in_login p = (c : ℕ) → take_packet (in_login, c) c p ≡ some (in_login, c)

  pub requests-IsPlain : (xs : List ForgeLoginExchange) → All (IsPlain true) (requests_of xs)
  requests-IsPlain [] = tt
  requests-IsPlain (x ∷ xs) =
      (λ c. let same : (c == c) ≡ true = ground arith in rw same refl, requests-IsPlain xs)

  pub send_all-Follows :
      (w : World) (ps : List RawPacket) (s : LobbyState) {t : LobbyState} (in_login : Bool)
      → All (IsPlain in_login) ps
      → Follows in_login s
      → send_all w ps s ≡ some t
      → Follows in_login t × (t.client ≡ s.client)
  unfolding send_all
  send_all-Follows w [] s in_login plain f e =
      subst (λ t. Follows in_login t × (t.client ≡ s.client)) (some-injective _ _ e) (f, refl)
  send_all-Follows w (p ∷ ps) s in_login plain f e =
      let (u, first, later) = >>=-eq-some (send_packet w p s) (send_all w ps) e in
      let (here, same) = send_packet-follow w p s in_login f first in
      let there : Follows in_login u =
        here
        ∙ plain.0 s.client.compression
        ∙ ap (λ (k : Client). some (in_login, k.compression)) (sym same) in
      let (rest, kept) = send_all-Follows w ps u in_login plain.1 there later in (rest, kept ∙ same)

  -- Recorded frames reach a client in the login without compression, and leave it there.
  pub send_recorded-Follows :
      (w : World) (frames : List Bytes) (s : LobbyState)
      → is_compressed s.client ≡ false
      → Follows true s
      → Follows true (send_recorded w frames s) × ((send_recorded w frames s).client ≡ s.client)
  unfolding send_recorded
  send_recorded-Follows w [] s plain f = (f, refl)
  send_recorded-Follows w (frame ∷ frames) s plain f =
      elim (Bool-cases (w.reaches (length s.sent))) [
        | inl up ↦
            let t = record s { sent = s.sent ++ recorded frame ∷ [] } in
            let negative : is_negative s.client.compression ≡ true = ground (arith, plain) in
            let there : Follows true t =
              follow-append start s.sent (recorded frame) ∙ rw f (rw negative refl) in
            rw (send_recorded, up) (send_recorded-Follows w frames t plain there)
        | inr down ↦ rw (send_recorded, down) (send_recorded-Follows w frames s plain f)
      ]
