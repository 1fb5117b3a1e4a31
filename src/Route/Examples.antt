-- ===== src/Route/Examples.antt =====
-- The theorems on the routing for one connection that is served.
use lazygate.Prelude.{false, true, [], ◌∷◌, ◌≡◌, refl}
use lazygate.Server.{stopped}
use lazygate.Route.{Admission, RouteConfig, to_proxy, hold, route, new_connection_admission}
use lazygate.Route.Limits.{
  Gate, new_gate, spawn, none_yet, then_step, arrives, served, IsAccounted, Steps-IsAccounted,
}

abbrev plain : RouteConfig
plain = record {
  controller_managed = false;
  freeze_process = false;
  wake_on_crash = true;
  rcon_enabled = true;
  rewrite_server_properties = true;
  online_mode = false;
  methods = hold ∷ [];
  lockout_enabled = false;
  drop_banned_ips = true;
}

abbrev one_served : Gate
one_served = spawn (route plain stopped false new_connection_admission) new_gate

one_runs : one_served.serving ≡ 1
unfolding route
one_runs = refl

Steps-IsAccounted_example : IsAccounted (record one_served {
  admission = lazygate.Route.release_status one_served.admission;
  serving = 0;
})
Steps-IsAccounted_example = Steps-IsAccounted plain _ (
    then_step (then_step (none_yet new_gate) (arrives new_gate stopped false))
      (served one_served 0 one_runs))
