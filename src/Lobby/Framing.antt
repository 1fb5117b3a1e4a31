-- ===== src/Lobby/Framing.antt =====
-- lobby.go: whether the client can follow the framing of what the lobby sends.
use mathlib.Core.Path.{subst}
use mathlib.Core.Option.{some-injective}
use lazygate.Prelude.{
  >>=-eq-some, All, ℕ, Bool, true, false, ◌&&◌, List, [], ◌∷◌, Bytes, Option, none, some,
  if◌then◌else◌, ◌==◌, ◌>>=◌, ◌≡◌, refl, sym, ap, ◌∙◌, arith,
}
use lazygate.Proto.Client.{Client, GameProfile, is_compressed, set_compression}
use lazygate.Proto.Framing.{RawPacket}
use lazygate.Lobby.Login.{
  World, LobbyState, LobbyConfig, compression_threshold, send_packet, send_all,
  set_compression_packet, enable_compression, ensure_client_compression, requests_of,
  replay_cold_forge_login, replay_forge, replay_by, login_success_packet, compress_unless,
  enter_play, send_recorded, lobby_stay, wait_for_server, Served, closed, hot, proxied,
  lobby_started, hot_or_closed, proxied_or_closed, lobby_after_start, lobby_authenticated,
  lobby_login,
}
use lazygate.Forge.{is_forge_fml3}
use lazygate.Lobby.Params.{lobby_play_packets, ready_sound_packets}
use lazygate.Play.Title.{title_packets}
use lazygate.Lobby.Reader.{
  Reader, follow, send_recorded-Follows, send_packet-follow, send_all-Follows, requests-IsPlain,
  take_packet-set_compression, take_packet-login_success, if-some, Follows, IsPlain,
}

module _ (start : Reader) where
  enable_compression-Follows :
      (w : World) (s : LobbyState) {t : LobbyState}
      → is_compressed s.client ≡ false
      → Follows start true s
      → enable_compression w s ≡ some t
      → Follows start true t × (t.client ≡ set_compression compression_threshold s.client)
  unfolding enable_compression
  enable_compression-Follows w s {t} plain f e =
      let (u, sent, later) =
        >>=-eq-some (send_packet w (set_compression_packet compression_threshold) s) _ e in
      let (here, same) =
        send_packet-follow start w (set_compression_packet compression_threshold) s true f sent in
      let told = take_packet-set_compression s.client.compression plain in
      subst
        (λ t. Follows start true t × (t.client ≡ set_compression compression_threshold s.client))
        (some-injective _ _ later) (here ∙ told, ap (set_compression compression_threshold) same)

  -- Compression is on, as the reader knows, and nothing else of the client has changed.
  abbrev Compressed : LobbyState → LobbyState → Type 0
  Compressed s t =
      Follows start true t × (t.client ≡ set_compression compression_threshold s.client)

  ensure_client_compression-Compressed :
      (w : World) (s : LobbyState) {t : LobbyState}
      → is_compressed s.client ≡ false
      → Follows start true s
      → ensure_client_compression w s ≡ some t
      → Compressed s t
  unfolding ensure_client_compression
  ensure_client_compression-Compressed w s plain f e =
      enable_compression-Follows w s plain f (sym (rw plain refl) ∙ e)

  replay_cold_forge_login-Compressed :
      (w : World) (s : LobbyState) {t : LobbyState}
      → is_compressed s.client ≡ false
      → Follows start true s
      → replay_cold_forge_login w s ≡ some t
      → Compressed s t
  unfolding replay_cold_forge_login
  replay_cold_forge_login-Compressed w s {t} plain f e =
      let (u, ensured, later) = >>=-eq-some (ensure_client_compression w s) _ e in
      let (v, sent, last) =
        >>=-eq-some (send_all w (requests_of w.server.forge_login_cache) u) _ later in
      let (here, on) = ensure_client_compression-Compressed w s plain f ensured in
      let (there, same) =
        send_all-Follows start w (requests_of w.server.forge_login_cache) u true
          (requests-IsPlain start w.server.forge_login_cache) here sent in
      subst (Compressed s) (if-some w.drained v last) (there, same ∙ on)

  compress-Compressed :
      (w : World) (s : LobbyState) (modern forge : Bool) {t u : LobbyState} (told : Bool)
      → is_compressed s.client ≡ false
      → Follows start true s
      → replay_by w s modern forge ≡ some (t, told)
      → compress_unless w t told ≡ some u
      → Compressed s u
  compress-Compressed w s true forge {t} {u} told plain f e k =
      let (v, replayed, last) = >>=-eq-some (replay_cold_forge_login w s) _ e in
      let on = replay_cold_forge_login-Compressed w s plain f replayed in
      let pair = some-injective _ _ last in
      go told (ap (λ p. p.1) pair) (subst (Compressed s) (ap (λ p. p.0) pair) on) k
    where
      go : (b : Bool) → true ≡ b → Compressed s t → compress_unless w t b ≡ some u → Compressed s u
      go true h c l = subst (Compressed s) (some-injective _ _ l) c
      go false h c l = absurd (cc h)
  compress-Compressed w s false true {t} {u} told plain f e k =
      let pair = if-some w.drained (send_recorded w w.server.forge s, false) e in
      let (there, same) = send_recorded-Follows start w w.server.forge s plain f in
      let still = ap is_compressed same ∙ plain in
      let (here, on) = go told (ap (λ p. p.1) pair) (ap (λ p. p.0) pair) still there k in
      (here, on ∙ ap (set_compression compression_threshold) same)
    where
      v : LobbyState
      v = send_recorded w w.server.forge s

      go :
          (b : Bool)
          → false ≡ b
          → v ≡ t
          → is_compressed v.client ≡ false
          → Follows start true v
          → compress_unless w t b ≡ some u
          → Compressed v u
      go true h c still there l = absurd (cc h)
      go false h c still there l =
          enable_compression-Follows w v still there (ap (enable_compression w) c ∙ l)
  compress-Compressed w s false false {t} {u} told plain f e k =
      let pair = some-injective _ _ e in go told (ap (λ p. p.1) pair) (ap (λ p. p.0) pair) k
    where
      go : (b : Bool) → false ≡ b → s ≡ t → compress_unless w t b ≡ some u → Compressed s u
      go true h c l = absurd (cc h)
      go false h c l = enable_compression-Follows w s plain f (ap (enable_compression w) c ∙ l)

  All-IsPlain : (ps : List RawPacket) → All (IsPlain start false) ps
  All-IsPlain [] = tt
  All-IsPlain (p ∷ ps) =
      (λ c. let same : (c == c) ≡ true = ground arith in rw same refl, All-IsPlain ps)

  -- In the play state, with the threshold of the program.
  abbrev InPlay : LobbyState → Type 0
  InPlay s = Follows start false s × (s.client.compression ≡ compression_threshold)

  send_all-InPlay :
      (w : World) (ps : List RawPacket) (s : LobbyState) {t : LobbyState}
      → InPlay s
      → send_all w ps s ≡ some t
      → InPlay t
  send_all-InPlay w ps s (f, c) e =
      let (there, same) = send_all-Follows start w ps s false (All-IsPlain ps) f e in
      (there, ap (λ k. k.compression) same ∙ c)

  send_packet-InPlay :
      (w : World) (p : RawPacket) (s : LobbyState) {t : LobbyState}
      → InPlay s
      → send_packet w p s ≡ some t
      → InPlay t
  send_packet-InPlay w p s (f, c) e =
      let (there, same) = send_packet-follow start w p s false f e in
      (
        there
            ∙ (All-IsPlain (p ∷ [])).0 s.client.compression
            ∙ ap (λ (k : Client). some (false, k.compression)) (sym same),
        ap (λ k. k.compression) same ∙ c,
      )

  lobby_stay-InPlay :
      (config : LobbyConfig) (w : World) (s : LobbyState) {t : LobbyState}
      → InPlay s
      → lobby_stay config w s ≡ some t
      → InPlay t
  unfolding lobby_stay
  lobby_stay-InPlay config w s h e =
      let (t, world, e₂) =
        >>=-eq-some
          (send_all w
            (lobby_play_packets w.default_codec w.default_dimension s.info w.server.status w.probed)
            s)
          _ e in
      let (joined, there, e₃) =
        >>=-eq-some (if wait_for_server w.received then w.joined else none) _ e₂ in
      let (u, title, e₄) = >>=-eq-some (send_all w (title_packets t.info []) t) _ e₃ in
      let (v, sound, last) =
        >>=-eq-some (send_all w (ready_sound_packets u.info config.ready_sound) u) _ e₄ in
      send_packet-InPlay w _ v
        (send_all-InPlay w _ u (send_all-InPlay w _ t (send_all-InPlay w _ s h world) title) sound)
        last

  enter_play-Follows :
      (md5 : Bytes → Bytes) (config : LobbyConfig) (w : World) (name : Bytes) (s : LobbyState)
      {t : LobbyState}
      → is_compressed s.client ≡ false
      → Follows start true s
      → enter_play md5 config w name s ≡ some t
      → Follows start false t × (t.client.compression ≡ compression_threshold)
  unfolding enter_play replay_forge
  enter_play-Follows md5 config w name s plain f e =
      let ((t, told), replayed, e₂) = >>=-eq-some (replay_forge config w s) _ e in
      let (u, compressed, e₃) = >>=-eq-some (compress_unless w t told) _ e₂ in
      let (v, sent, last) =
        >>=-eq-some (send_packet w (login_success_packet md5 u.info name) u) _ e₃ in
      let (here, on) =
        compress-Compressed w s (config.forge && is_forge_fml3 s.info) config.forge told plain f
          replayed compressed in
      let (there, same) =
        send_packet-follow start w (login_success_packet md5 u.info name) u true here sent in
      let at : v.client.compression ≡ compression_threshold = ap (λ k. k.compression) (same ∙ on) in
      let left = take_packet-login_success md5 u.info name u.client.compression in
      subst (λ t. Follows start false t × (t.client.compression ≡ compression_threshold))
        (some-injective _ _ last)
        (there ∙ left ∙ ap (λ (k : Client). some (false, k.compression)) (sym same), at)

-- What the reader made of all that was sent: it is still in the login in a hot bootstrap, and in the
-- play state behind the proxy, with compression at the threshold either way.
abbrev pub Followed : Reader → Served → Type 0
Followed start (closed started) = Unit
Followed start (hot s) = follow start s.sent ≡ some (true, compression_threshold)
Followed start (proxied s) = follow start s.sent ≡ some (false, compression_threshold)

module _ (start : Reader) where
  lobby_started-Followed :
      (md5 : Bytes → Bytes) (config : LobbyConfig) (w : World) (name : Bytes) (s : LobbyState)
      (is_hot : Bool)
      → is_compressed s.client ≡ false
      → Follows start true s
      → Followed start (lobby_started md5 config w name s is_hot)
  unfolding lobby_started
  lobby_started-Followed md5 config w name s true plain f =
      hot_case (wait_for_server w.received) (ensure_client_compression w s) refl
    where
      hot_case :
          (ready : Bool) (m : Option LobbyState)
          → ensure_client_compression w s ≡ m
          → Followed start (if ready then hot_or_closed m else closed true)
      hot_case true none e = tt
      hot_case true (some t) e =
          let (there, on) = ensure_client_compression-Compressed start w s plain f e in
          there ∙ ap (λ (k : Client). some (true, k.compression)) on
      hot_case false m e = tt
  lobby_started-Followed md5 config w name s false plain f =
      split (enter_play md5 config w name s >>= lobby_stay config w) refl
    where
      split :
          (m : Option LobbyState)
          → (enter_play md5 config w name s >>= lobby_stay config w) ≡ m
          → Followed start (proxied_or_closed m)
      split none e = tt
      split (some u) e =
          let (t, entered, stayed) = >>=-eq-some (enter_play md5 config w name s) _ e in
          let (there, on) =
            lobby_stay-InPlay start config w t
              (enter_play-Follows start md5 config w name s plain f entered) stayed in
          there ∙ ap (λ (c : ℕ). some (false, c)) on

-- When a client that starts its login without compression is proxied, or left to the hot bootstrap of Forge,
-- it could follow the framing of all that the lobby has sent it: every recorded frame of a Forge login came
-- in the login before there was a compression, it was told the threshold exactly once, in the login and in
-- the framing from before, and all later packets are in the new framing. It is in the play state when it is
-- proxied, and in the login when the hot bootstrap begins. Of a login that fails nothing is said.
pub lobby_login-Followed :
    (md5 : Bytes → Bytes) (config : LobbyConfig) (w : World) (name : Bytes) (s : LobbyState)
    → is_compressed s.client ≡ false
    → s.sent ≡ []
    → Followed (true, s.client.compression) (lobby_login md5 config w name s)
unfolding lobby_login lobby_after_start follow
lobby_login-Followed md5 config w name s plain none_sent =
    by_mode config.online_mode w.authenticated
  where
    start : Reader
    start = (true, s.client.compression)

    nothing : follow start s.sent ≡ some start
    nothing = rw none_sent refl

    by_mode :
        (online : Bool) (o : Option GameProfile)
        → Followed start (
            if online
            then lobby_authenticated md5 config w s o
            else lobby_after_start md5 config w name s)
    by_mode true none = tt
    by_mode true (some profile) =
        lobby_started-Followed start md5 config w profile.name _ _ plain nothing
    by_mode false o = lobby_started-Followed start md5 config w name _ _ plain nothing
