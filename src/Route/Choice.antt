-- ===== src/Route/Choice.antt =====
-- service_server.go: where a connection goes.
use lazygate.Prelude.{◌<◌, Bool, false, ◌≡◌, ◌↔◌, refl, arith, lt→ltb}
use lazygate.Server.{State, stopped, starting, started, stopping}
use lazygate.Route.{
  Admission, max_proxy_clients, RouteConfig, to_proxy, route, route_status, route_proxy,
  acquire_status, acquire_proxy, should_route_direct_proxy,
}

-- The connection may go past `Serve`.
pub record MayPass (config : RouteConfig) (state : State) (banned : Bool) (a : Admission)
    : Type 0 where
  pub allowed : banned ≡ false
  pub up : state ≡ started
  pub no_lockout : config.lockout_enabled ≡ false
  pub offline : config.online_mode ≡ false
  pub room : a.proxy < max_proxy_clients

-- A connection is proxied past `Serve` exactly when its address is not banned, the server is started, there is
-- no lockout, online mode is off, and fewer than 256 connections are proxied.
pub route-MayPass :
    (config : RouteConfig) (state : State) (banned : Bool) (a : Admission)
    → ((route config state banned a).0 ≡ to_proxy) ↔ MayPass config state banned a
unfolding route route_status route_proxy acquire_status acquire_proxy should_route_direct_proxy
route-MayPass config state banned a = (
  λ e. record {
    allowed = ground (arith, e);
    up = up state e;
    no_lockout = ground (arith, e);
    offline = ground (arith, e);
    room = ground (arith, e);
  },
  λ m. simp (m.allowed, m.up, m.no_lockout, m.offline, lt→ltb _ _ m.room),
)
  where
    up : (s : State) → (route config s banned a).0 ≡ to_proxy → s ≡ started
    up started e = refl
    up stopped e = ground arith
    up starting e = ground arith
    up stopping e = ground arith
