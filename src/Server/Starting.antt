-- ===== src/Server/Starting.antt =====
-- server.go: `Start` on every branch.
use lazygate.Prelude.{
  ℕ, Bool, true, false, not, ◌||◌, ◌&&◌, List, [], ◌∷◌, some, ◌≡◌, ◌≢◌, ◌⊎◌, inl, inr, refl, ◌∙◌,
  arith, Bool-cases, if◌then◌else◌, ◌==◌,
}
use lazygate.Server.{
  State, stopped, starting, same_state, Config, ServerState, update_state_from, broadcast_state,
  keep_online_for, update_last_active,
}
use lazygate.Server.Helper.{begin_controller_helper}
use lazygate.Server.Lifecycle.{
  start, unfreeze_server_signal, spawn_server, or_else, Done, Action, send, launch,
  continue_process,
}

-- What a start of a server in the stopped state does to the outside: a frozen process goes on; else
-- the command is launched, for a controller only if no helper runs, and never if a controller's
-- server is to be frozen.
unfoldable pub start_actions : Config → ServerState → List Action
unfolding begin_controller_helper
start_actions config s =
    if config.controller_managed
    then if config.freeze_process || s.helper_active
      then []
      else launch (begin_controller_helper s).1 ∷ []
    else if config.freeze_process && not (s.pid == 0)
    then send continue_process s.pid ∷ []
    else launch 0 ∷ []

set_starting :
    (config : Config) (now : ℕ) (s : ServerState)
    → s.state ≡ stopped
    → let u = update_state_from (some stopped) starting config now s in
      (u.1 ≡ true)
      × (u.0.state ≡ starting)
      × (u.0.pid ≡ s.pid)
      × (u.0.helper_active ≡ s.helper_active)
      × (u.0.helper_generation ≡ s.helper_generation)
unfolding update_state_from broadcast_state keep_online_for update_last_active
set_starting config now s e = ground arith

unfreeze-starting :
    (config : Config) (now : ℕ) (s : ServerState)
    → s.state ≡ starting
    → config.controller_managed ≡ false
    → unfreeze_server_signal config now s
      ≡ (if s.pid == 0 then (s, [], false) else (s, send continue_process s.pid ∷ [], true))
unfolding unfreeze_server_signal update_state_from
unfreeze-starting config now s e m = ground arith

abbrev pub Starts : Config → ServerState → Done → Type 0
Starts config s d = (d.0.state ≡ starting) × (d.1 ≡ start_actions config s) × (d.2 ≡ true)

spawn_server-Starts :
    (config : Config) (s u : ServerState)
    → u.state ≡ starting
    → u.helper_active ≡ s.helper_active
    → u.helper_generation ≡ s.helper_generation
    → (config.controller_managed ≡ true × config.freeze_process ≡ false)
      ⊎ (config.controller_managed ≡ false × (config.freeze_process && not (s.pid == 0)) ≡ false)
    → Starts config s (spawn_server config u)
unfolding begin_controller_helper start_actions
spawn_server-Starts config s u e a g (inl (m, f)) = elim (Bool-cases s.helper_active) [
  | inl busy ↦ ground arith
  | inr free ↦ ground arith
]
spawn_server-Starts config s u e a g (inr (m, f)) = ground arith

unfrozen :
    (config : Config) (now : ℕ) (s u : ServerState)
    → u.state ≡ starting
    → u.pid ≡ s.pid
    → config.controller_managed ≡ false
    → config.freeze_process ≡ true
    → u.helper_active ≡ s.helper_active
    → u.helper_generation ≡ s.helper_generation
    → Starts config s (or_else true (unfreeze_server_signal config now u) (spawn_server config) u)
unfolding start_actions
unfrozen config now s u e p m f a g = elim (Bool-cases (u.pid == 0)) [
  | inl gone ↦
      let k : unfreeze_server_signal config now u ≡ (u, [], false) =
        unfreeze-starting config now u e m ∙ simp (gone) refl in
      simp (k) (spawn_server-Starts config s u e a g (inr (m, ground arith)))
  | inr alive ↦
      let k : unfreeze_server_signal config now u ≡ (u, send continue_process u.pid ∷ [], true) =
        unfreeze-starting config now u e m ∙ simp (alive) refl in
      simp (k) (e, ground arith, refl)
]

and_false : (b : Bool) → (b && false) ≡ false
and_false b = ground arith

Starts-stopped :
    (config : Config) (now : ℕ) (s : ServerState)
    → s.state ≡ stopped
    → (config.controller_managed && config.freeze_process) ≡ false
    → Starts config s (start config now s)
unfolding start
Starts-stopped config now s e guard =
    let u = update_state_from (some stopped) starting config now s in
    let (changed, st, pid, active, generation) = set_starting config now s e in
    elim (Bool-cases config.freeze_process) [
      | inl freeze ↦
          let m : config.controller_managed ≡ false = ground arith in
          simp (m, changed, freeze) (unfrozen config now s u.0 st pid m freeze active generation)
      | inr warm ↦
          simp (warm, and_false config.controller_managed, changed)
            (spawn_server-Starts config s u.0 st active generation
              (elim (Bool-cases config.controller_managed) [
                | inl m ↦ inl (m, warm)
                | inr m ↦ inr (m, ground arith)
              ]))
    ]

refused :
    (config : Config) (now : ℕ) (s : ServerState)
    → (same_state s.state stopped ≡ false)
      ⊎ ((config.controller_managed && config.freeze_process) ≡ true)
    → start config now s ≡ (s, [], false)
unfolding start update_state_from
refused config now s (inl e) = ground arith
refused config now s (inr e) = simp e refl

-- A start of a stopped server, unless its process is frozen under a controller, answers true, sets the
-- state to starting, and does exactly the actions of `start_actions`: a frozen process that is known
-- goes on, else the command is launched, under a controller only if no helper runs. Any other start
-- answers false, changes nothing and does nothing.
pub start_lem :
    (config : Config) (now : ℕ) (s : ServerState)
    → ((s.state ≡ stopped
          → (config.controller_managed && config.freeze_process) ≡ false
          → Starts config s (start config now s))
        × (s.state ≢ stopped → start config now s ≡ (s, [], false))
        × ((config.controller_managed && config.freeze_process) ≡ true
            → start config now s ≡ (s, [], false)))
start_lem config now s = (
  Starts-stopped config now s,
  (λ other. refused config now s (inl (not_same s.state other))),
  (λ frozen. refused config now s (inr frozen)),
)
  where
    not_same : (st : State) → st ≢ stopped → same_state st stopped ≡ false
    not_same st other = ground arith
