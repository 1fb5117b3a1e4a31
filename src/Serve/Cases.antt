-- ===== src/Serve/Cases.antt =====
-- status.go: the body of the loop of `Serve` by cases.
use lazygate.Prelude.{
  ℕ, Bool, true, false, ◌&&◌, Bytes, if◌then◌else◌, ◌==◌, ◌≡◌, refl, arith, and_parts, ==_iff,
}
use lazygate.Proto.Client.{ClientState, handshake, status, login, play}
use lazygate.Proto.Framing.{RawPacket}
use lazygate.Serve.{
  ServeConfig, Outside, Moment, ClientSession, Served, read_on, quiet, respond, same_client_state,
  serve_handshake, serve_status, serve_login, serve_packet,
}

is_handshake : (x : ClientState) → same_client_state x handshake ≡ true → x ≡ handshake
is_handshake handshake e = refl
is_handshake status e = ground arith
is_handshake login e = ground arith
is_handshake play e = ground arith

is_status : (x : ClientState) → same_client_state x status ≡ true → x ≡ status
is_status handshake e = ground arith
is_status status e = refl
is_status login e = ground arith
is_status play e = ground arith

is_login : (x : ClientState) → same_client_state x login ≡ true → x ≡ login
is_login handshake e = ground arith
is_login status e = ground arith
is_login login e = refl
is_login play e = ground arith

-- A predicate on the branches of a test, where each may use how the test came out.
if_true :
    (P : Served → Type 0) (b : Bool) (x y : Served)
    → (b ≡ true → P x)
    → P y
    → P (if b then x else y)
if_true P true x y f g = f refl
if_true P false x y f g = g

-- What holds of every handler, where it is called, holds of the body of the loop.
pub serve_packet_by_cases :
    (P : Served → Type 0) (o : Outside) (config : ServeConfig) (m : Moment) (s : ClientSession)
    (p : RawPacket) (raw buf : Bytes)
    → (s.client.state ≡ handshake → P (serve_handshake m s p raw))
    → (s.client.state ≡ status → P (serve_status o config m s))
    → P (respond m s raw)
    → (s.client.state ≡ login → p.id ≡ 0 → P (serve_login o config m s p raw buf))
    → P (quiet m (read_on s))
    → P (serve_packet o config m s p raw buf)
unfolding serve_packet
serve_packet_by_cases P o config m s p raw buf on_handshake on_status on_ping on_login otherwise =
    let test =
      λ (state : ClientState) (id : ℕ). same_client_state s.client.state state && (p.id == id) in
    if_true P (test handshake 0) _ _
      (λ e.
        on_handshake (
          is_handshake _
            ((and_parts (same_client_state s.client.state handshake) (p.id == 0) e).0)))
      (if_true P (test status 0) _ _
        (λ e.
          on_status
            (is_status _ ((and_parts (same_client_state s.client.state status) (p.id == 0) e).0)))
        (if_true P (test status 1) _ _ (λ e. on_ping)
          (if_true P (test login 0) _ _
            (λ e.
              let (state, id) = and_parts (same_client_state s.client.state login) (p.id == 0) e in
              on_login (is_login _ state) ((==_iff p.id 0).0 id))
            otherwise)))
