-- ===== src/Serve/Wake.antt =====
-- status.go: which packets wake the server.
use lazygate.Prelude.{
  false, [], Bytes, none, ◌≡◌, ◌⊎◌, inl, inr, refl, ap, ◌∙◌, arith, Bool-cases, Option-cases,
}
use lazygate.Access.{Access}
use lazygate.Proto.Client.{login, ClientInfo}
use lazygate.Proto.Framing.{RawPacket}
use lazygate.Proto.Packets.{decode_login_start}
use lazygate.Server.Lifecycle.{start}
use lazygate.Serve.Cases.{serve_packet_by_cases}
use lazygate.Serve.{
  ServeConfig, Outside, Moment, ClientSession, Served, serve_handshake, serve_status, serve_login,
  serve_packet, let_in, with_username, with_name, active_ban, is_shut_out,
}

-- The packet leaves the server alone.
abbrev pub Unchanged : Moment → Served → Type 0
Unchanged m r = (r.server ≡ m.server) × (r.actions ≡ [])

-- The packet is a login start that is let in, and what it does to the server is what `Start` does.
pub record Admitted (o : Outside) (config : ServeConfig) (m : Moment) (s : ClientSession)
    (p : RawPacket) (r : Served) : Type 0 where
  pub in_login : s.client.state ≡ login
  pub is_login_start : p.id ≡ 0
  pub no_lockout : config.lockout_enabled ≡ false
  pub offline : config.online_mode ≡ false
  pub not_banned : active_ban o m ≡ none
  pub not_shut_out : is_shut_out m.access (with_username p s.info).username ≡ false
  pub starts :
      (r.server ≡ (start config.lifecycle m.now m.server).0)
      × (r.actions ≡ (start config.lifecycle m.now m.server).1)

abbrev pub Guarded : Outside → ServeConfig → Moment → ClientSession → RawPacket → Served → Type 0
Guarded o config m s p r = Unchanged m r ⊎ Admitted o config m s p r

serve_handshake-Unchanged :
    (m : Moment) (s : ClientSession) (p : RawPacket) (raw : Bytes)
    → Unchanged m (serve_handshake m s p raw)
unfolding serve_handshake
serve_handshake-Unchanged m s p raw = ground arith

serve_status-Unchanged :
    (o : Outside) (config : ServeConfig) (m : Moment) (s : ClientSession)
    → Unchanged m (serve_status o config m s)
unfolding serve_status
serve_status-Unchanged o config m s = ground arith

let_in-Guarded :
    (o : Outside) (config : ServeConfig) (m : Moment) (s t : ClientSession) (p : RawPacket)
    (raw buf : Bytes)
    → s.client.state ≡ login
    → p.id ≡ 0
    → config.lockout_enabled ≡ false
    → active_ban o m ≡ none
    → is_shut_out m.access (with_username p s.info).username ≡ false
    → Guarded o config m s p (let_in config m t raw buf)
unfolding let_in
let_in-Guarded o config m s t p raw buf in_login is_start no_lockout not_banned not_shut_out =
    elim (Bool-cases config.online_mode) [
      | inl online ↦ inl (simp (online) (refl, refl))
      | inr offline ↦ inr (record {
        in_login = in_login;
        is_login_start = is_start;
        no_lockout = no_lockout;
        offline = offline;
        not_banned = not_banned;
        not_shut_out = not_shut_out;
        starts = simp (offline) (refl, refl);
      })
    ]

serve_login-Guarded :
    (o : Outside) (config : ServeConfig) (m : Moment) (s : ClientSession) (p : RawPacket)
    (raw buf : Bytes)
    → s.client.state ≡ login
    → p.id ≡ 0
    → Guarded o config m s p (serve_login o config m s p raw buf)
unfolding serve_login
serve_login-Guarded o config m s p raw buf in_login is_start =
    elim (Bool-cases config.lockout_enabled) [
      | inl locked ↦ inl (simp (locked) (refl, refl))
      | inr open_door ↦ elim (Option-cases (active_ban o m)) [
        | inl not_banned ↦
            elim (Bool-cases (is_shut_out m.access (with_username p s.info).username)) [
              | inl shut ↦ inl (simp (open_door, not_banned, shut) (refl, refl))
              | inr welcome ↦
                  simp (open_door, not_banned, welcome)
                    (let_in-Guarded o config m s (record s { info = with_username p s.info }) p raw
                      buf in_login is_start open_door not_banned welcome)
            ]
        | inr (ban, banned) ↦ inl (simp (open_door, banned) (refl, refl))
      ]
    ]

-- A packet from a client leaves the server's state as it is and asks for no action, or else the
-- client is in the login state, the packet is a login start, the lockout is off, online mode is off,
-- no active ban is on the client's address, the whitelist check does not refuse the client, and what
-- happens to the server is what `start` does.
pub serve_packet_guard :
    (o : Outside) (config : ServeConfig) (m : Moment) (s : ClientSession) (p : RawPacket)
    (raw buf : Bytes)
    → Guarded o config m s p (serve_packet o config m s p raw buf)
serve_packet_guard o config m s p raw buf =
    serve_packet_by_cases (Guarded o config m s p) o config m s p raw buf
      (λ e. inl (serve_handshake-Unchanged m s p raw))
      (λ e. inl (serve_status-Unchanged o config m s)) (inl (refl, refl))
      (λ e id. serve_login-Guarded o config m s p raw buf e id) (inl (refl, refl))

with_username_garbled :
    (p : RawPacket) (info : ClientInfo)
    → decode_login_start p.body ≡ none
    → with_username p info ≡ info
unfolding with_username
with_username_garbled p info garbled = ap (with_name info) garbled

is_shut_out_nameless :
    (a : Access) (p : RawPacket) (info : ClientInfo)
    → decode_login_start p.body ≡ none
    → info.username ≡ none
    → is_shut_out a (with_username p info).username ≡ false
unfolding is_shut_out
is_shut_out_nameless a p info garbled nameless =
    ap (is_shut_out a)
      (ap (λ (i : ClientInfo). i.username) (with_username_garbled p info garbled) ∙ nameless)

-- A login start whose body does not decode is let in whatever the whitelist says, when no username is
-- known yet: with the lockout off, no active ban and online mode off, the server is what `start` makes
-- of it.
pub serve_login_undecoded :
    (o : Outside) (config : ServeConfig) (m : Moment) (s : ClientSession) (p : RawPacket)
    (raw buf : Bytes)
    → decode_login_start p.body ≡ none
    → s.info.username ≡ none
    → config.lockout_enabled ≡ false
    → active_ban o m ≡ none
    → config.online_mode ≡ false
    → (serve_login o config m s p raw buf).server ≡ (start config.lifecycle m.now m.server).0
unfolding serve_login let_in
serve_login_undecoded o config m s p raw buf garbled nameless no_lockout not_banned offline =
    simp (no_lockout, not_banned, is_shut_out_nameless m.access p s.info garbled nameless, offline)
