-- ===== src/Server/Kept/Operations.antt =====
-- server.go and monitor.go: how such a property is followed through the whole operations.
use lazygate.Prelude.{
  ℕ, Bool, true, false, not, ◌&&◌, ◌||◌, List, [], ◌∷◌, ◌++◌, Option, none, some, inl, inr,
  if◌then◌else◌, Bool-cases, ◌==◌,
}
use lazygate.Server.{stopped, starting, started, same_state, Config, ServerState, update_state_from}
use lazygate.Server.Status.{expire_controller_managed_transition, should_sleep, should_kill}
use lazygate.Server.Helper.{begin_controller_helper}
use lazygate.Server.Lifecycle.{
  Os, RconAttempt, Done, Poll, Action, launch, send, kill, spawn_server, start, stop, force_kill,
  child_settled, update_polled, monitor_round, polled, ping_only, poll_failed,
}
use lazygate.Server.Kept.{
  Core, Holds, Kept, begin-Holds, Holds-done, or_else-Holds, unfreeze-Holds, freeze-Holds,
  stop_rcon-Holds, stop_signal-Holds, update_state-Holds, update_status-Holds, Holds-round,
}

module _ (P : Core) (keep : Kept P) where
  spawn_server-Holds :
      (config : Config) (s : ServerState) → Holds P s → Holds P (spawn_server config s).0
  spawn_server-Holds config s h =
      let b = begin_controller_helper s in
      Holds-done P keep config.controller_managed _ (s, launch 0 ∷ [], true)
        (Holds-done P keep (not b.2) (b.0, [], true) (b.0, launch b.1 ∷ [], true)
          (begin-Holds P keep s h) (begin-Holds P keep s h))
        h

  pub start-Holds :
      (config : Config) (now : ℕ) (s : ServerState) → Holds P s → Holds P (start config now s).0
  unfolding start
  start-Holds config now s h =
      let u = update_state_from (some stopped) starting config now s in
      let k = keep (some stopped) starting config now s h in
      Holds-done P keep _ (s, [], false) _ h
        (Holds-done P keep (not u.1) (u.0, [], false) _ k
          (or_else-Holds P keep config.freeze_process _ (spawn_server config) u.0 k
            (unfreeze-Holds P keep config now u.0 k) (spawn_server-Holds config)))

  pub stop-Holds :
      (os : Os) (attempt : RconAttempt) (config : Config) (now : ℕ) (s : ServerState)
      → Holds P s
      → Holds P (stop os attempt config now s).0
  unfolding stop
  stop-Holds os attempt config now s h =
      Holds-done P keep _ (s, [], false) _ h
        (or_else-Holds P keep config.freeze_process _ _ s h (freeze-Holds P keep config now s h)
          (λ t k.
            or_else-Holds P keep (same_state t.state started) _ _ t k
              (stop_rcon-Holds P keep attempt config now t k)
              (stop_signal-Holds P keep os config now)))

  pub expire-Holds :
      (config : Config) (now : ℕ) (s : ServerState)
      → Holds P s
      → Holds P (expire_controller_managed_transition config now s).0
  unfolding expire_controller_managed_transition
  expire-Holds config now s h =
      elim (Bool-cases (not config.controller_managed || not (should_kill now s))) [
        | inl e ↦ rw e h
        | inr e ↦ rw e (keep (some starting) stopped config now s h)
      ]

  pub child_settled-Holds :
      (config : Config) (crashed : Bool) (now : ℕ) (s : ServerState)
      → Holds P s
      → Holds P (child_settled config crashed now s).0
  unfolding child_settled
  child_settled-Holds config crashed now s h =
      let k = update_state-Holds P keep stopped config now s h in
      elim (Bool-cases (crashed && config.wake_on_crash)) [
        | inl e ↦ rw e (start-Holds config now _ k)
        | inr e ↦ rw e k
      ]

  update_polled-Holds :
      (config : Config) (poll : Poll) (now : ℕ) (s : ServerState)
      → Holds P s
      → Holds P (update_polled config poll now s)
  update_polled-Holds config (polled st) now s h =
      update_status-Holds P keep config (some st) now s h
  update_polled-Holds config ping_only now s h = h
  update_polled-Holds config poll_failed now s h = update_status-Holds P keep config none now s h

  force_kill-Holds :
      (os : Os) (config : Option Config) (s : ServerState)
      → Holds P s
      → Holds P (force_kill os config s).0
  unfolding force_kill
  force_kill-Holds os none s h = h
  force_kill-Holds os (some config) s h =
      let killed : Done = (s, send kill s.pid ∷ [], os kill s.pid) in
      Holds-done P keep config.controller_managed (s, [], false)
        (if not (s.pid == 0) then killed else (s, [], false)) h
        (Holds-done P keep (not (s.pid == 0)) killed (s, [], false) h h)

  pub monitor_round-Holds :
      (os : Os) (attempt : RconAttempt) (config : Config) (poll : Poll) (now : ℕ) (s : ServerState)
      → Holds P s
      → Holds P (monitor_round os attempt config poll now s).0
  unfolding monitor_round
  monitor_round-Holds os attempt config poll now s h =
      let s₂ = update_polled config poll now s in
      let k = update_polled-Holds config poll now s h in
      let d =
        if should_sleep config now s₂ then stop os attempt config now s₂ else (s₂, [], false) in
      let k₃ : Holds P d.0 =
        Holds-done P keep (should_sleep config now s₂) _ _ (stop-Holds os attempt config now s₂ k)
          k in
      let f = force_kill os (some config) d.0 in
      let expired : ServerState × List Action =
        ((expire_controller_managed_transition config now d.0).0, d.1) in
      let killed : ServerState × List Action = (f.0, d.1 ++ f.1) in
      Holds-round P keep (should_kill now d.0)
        (if config.controller_managed then expired else killed) (d.0, d.1)
        (Holds-round P keep config.controller_managed expired killed
          (expire-Holds config now d.0 k₃) (force_kill-Holds os (some config) d.0 k₃))
        k₃
