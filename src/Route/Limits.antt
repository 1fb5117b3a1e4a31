-- ===== src/Route/Limits.antt =====
-- service_server.go: the tasks that run and the tokens that they hold.
use lazygate.Prelude.{
  ℕ, suc, ◌+◌, ◌≤◌, Bool, true, false, ◌&&◌, if◌then◌else◌, ltb, ◌≡◌, refl, arith, Bool-cases, inl,
  inr,
}
use lazygate.Server.{State}
use lazygate.Route.{
  Admission, new_connection_admission, max_status_clients, max_proxy_clients, acquire_status,
  release_status, acquire_proxy, release_proxy, RouteConfig, Target, closed, to_status, to_proxy,
  route, route_status, route_proxy, should_route_direct_proxy,
}

-- The admission and the numbers of the tasks that run: `Serve`, and the proxy.
pub record Gate : Type 0 where
  pub admission : Admission
  pub serving : ℕ
  pub proxying : ℕ

abbrev pub new_gate : Gate
new_gate = record { admission = new_connection_admission; serving = 0; proxying = 0 }

-- One more task for a connection that goes there.
abbrev pub spawn : Target × Admission → Gate → Gate
spawn (closed, a) g = record g { admission = a }
spawn (to_status, a) g = record g { admission = a; serving = g.serving + 1 }
spawn (to_proxy, a) g = record g { admission = a; proxying = g.proxying + 1 }

-- What happens at the edge: a connection arrives, a client that was served goes on to the proxy, which
-- asks for a token of its own while `Serve` still holds one, or a task ends.
pub data Step (config : RouteConfig) : Gate → Gate → Type 0 where
  arrives :
      (g : Gate) (state : State) (banned : Bool)
      → Step config g (spawn (route config state banned g.admission) g)
  goes_on : (g : Gate) → Step config g (spawn (route_proxy g.admission) g)
  served :
      (g : Gate) (n : ℕ)
      → g.serving ≡ suc n
      → Step config g (record g { admission = release_status g.admission; serving = n })
  proxied :
      (g : Gate) (n : ℕ)
      → g.proxying ≡ suc n
      → Step config g (record g { admission = release_proxy g.admission; proxying = n })

-- Some steps, one after the other.
pub data Steps (config : RouteConfig) : Gate → Gate → Type 0 where
  none_yet : (g : Gate) → Steps config g g
  then_step : {g h k : Gate} → Steps config g h → Step config h k → Steps config g k

-- Each task that runs holds a token, no token is held by none, and the tokens are within the limits.
pub record IsAccounted (g : Gate) : Type 0 where
  pub serving : g.serving ≡ g.admission.status
  pub proxying : g.proxying ≡ g.admission.proxy
  pub status_bound : g.serving ≤ max_status_clients
  pub proxy_bound : g.proxying ≤ max_proxy_clients

route_status-IsAccounted :
    (g : Gate) → IsAccounted g → IsAccounted (spawn (route_status g.admission) g)
unfolding route_status acquire_status
route_status-IsAccounted g ok = elim (Bool-cases (ltb g.admission.status max_status_clients)) [
  | inl room ↦ simp (room) (record {
    serving = omega (arith, ok.serving);
    proxying = ok.proxying;
    status_bound = ground (arith, room, ok.serving);
    proxy_bound = ok.proxy_bound;
  })
  | inr full ↦ simp (full) (record {
    serving = ok.serving;
    proxying = ok.proxying;
    status_bound = ok.status_bound;
    proxy_bound = ok.proxy_bound;
  })
]

route_proxy-IsAccounted :
    (g : Gate) → IsAccounted g → IsAccounted (spawn (route_proxy g.admission) g)
unfolding route_proxy acquire_proxy
route_proxy-IsAccounted g ok = elim (Bool-cases (ltb g.admission.proxy max_proxy_clients)) [
  | inl room ↦ simp (room) (record {
    serving = ok.serving;
    proxying = omega (arith, ok.proxying);
    status_bound = ok.status_bound;
    proxy_bound = ground (arith, room, ok.proxying);
  })
  | inr full ↦ simp (full) (record {
    serving = ok.serving;
    proxying = ok.proxying;
    status_bound = ok.status_bound;
    proxy_bound = ok.proxy_bound;
  })
]

IsAccounted-if :
    (t : Bool) (x y : Target × Admission) (g : Gate)
    → IsAccounted (spawn x g)
    → IsAccounted (spawn y g)
    → IsAccounted (spawn (if t then x else y) g)
IsAccounted-if true x y g a b = a
IsAccounted-if false x y g a b = b

Step-IsAccounted :
    (config : RouteConfig) (g h : Gate) → Step config g h → IsAccounted g → IsAccounted h
unfolding route release_status release_proxy
Step-IsAccounted config _ _ (arrives g state banned) ok =
    IsAccounted-if (banned && config.drop_banned_ips) (closed, g.admission) _ g
      (record {
        serving = ok.serving;
        proxying = ok.proxying;
        status_bound = ok.status_bound;
        proxy_bound = ok.proxy_bound;
      })
      (IsAccounted-if (should_route_direct_proxy config state banned) (route_proxy g.admission) _ g
        (route_proxy-IsAccounted g ok) (route_status-IsAccounted g ok))
Step-IsAccounted config _ _ (goes_on g) ok = route_proxy-IsAccounted g ok
Step-IsAccounted config _ _ (served g n running) ok = record {
  serving = omega (arith, ok.serving, running);
  proxying = ok.proxying;
  status_bound = omega (arith, ok.status_bound, running);
  proxy_bound = ok.proxy_bound;
}
Step-IsAccounted config _ _ (proxied g n running) ok = record {
  serving = ok.serving;
  proxying = omega (arith, ok.proxying, running);
  status_bound = ok.status_bound;
  proxy_bound = omega (arith, ok.proxy_bound, running);
}

-- In every run from the start, at most 128 connections are served and at most 256 are proxied, each of them
-- holds a token, and no token is lost: the channels hold as many as there are tasks.
pub Steps-IsAccounted : (config : RouteConfig) (g : Gate) → Steps config new_gate g → IsAccounted g
Steps-IsAccounted config _ (none_yet _) = record {
  serving = refl;
  proxying = refl;
  status_bound = omega arith;
  proxy_bound = omega arith;
}
Steps-IsAccounted config g (then_step {h = h} run step) =
    Step-IsAccounted config h g step (Steps-IsAccounted config h run)
