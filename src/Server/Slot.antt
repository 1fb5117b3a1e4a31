-- ===== src/Server/Slot.antt =====
-- What each operation does to the helper's slot: the process and the generation that owns it.
use lazygate.Prelude.{
  ℕ, ◌+◌, ◌%◌, ◌^◌, Bool, true, false, not, ◌&&◌, List, [], ◌∷◌, ◌++◌, Option, none, some, ◌≡◌, ◌⊎◌,
  inl, inr, refl, ap, Bool-cases, ◌∙◌, if◌then◌else◌, arith,
}
use lazygate.Server.{
  State, stopped, starting, started, Config, ServerState, ServerStatus, new_server_state,
  update_state_from, update_state, broadcast_state, keep_online_for, update_last_active,
}
use lazygate.Server.Status.{
  update_status, expire_controller_managed_transition, should_kill, should_sleep,
}
use lazygate.Server.Helper.{begin_controller_helper}
use lazygate.Server.Lifecycle.{
  Os, RconAttempt, Done, Poll, polled, ping_only, poll_failed, Exit, Spawn, spawned, no_command,
  spawn_failed, Action, send, launch, rcon_stop, start, stop, spawn_server, invoke_server_cmd,
  child_exited, monitor_round, update_polled, force_kill, unfreeze_server_signal,
}
use lazygate.Server.Managed.{slept-managed}

-- What the helper and its process are known by.
abbrev pub Slot : Type 0
Slot = ℕ × ℕ × ℕ × Bool

abbrev pub slot : ServerState → Slot
slot s = (s.pid, s.pid_generation, s.helper_generation, s.helper_active)

pub update_state_from-slot :
    (from : Option State) (new : State) (config : Config) (now : ℕ) (s : ServerState)
    → slot (update_state_from from new config now s).0 ≡ slot s
unfolding update_state_from broadcast_state keep_online_for update_last_active
update_state_from-slot from new config now s = ground arith

update_status-slot :
    (config : Config) (st : Option ServerStatus) (now : ℕ) (s : ServerState)
    → slot (update_status config st now s) ≡ slot s
unfolding update_status update_state update_last_active
update_status-slot config st now s = ground (
  arith,
  update_state_from-slot none started config now s,
  update_state_from-slot none stopped config now s,
)

pub polled-slot :
    (config : Config) (poll : Poll) (now : ℕ) (s : ServerState)
    → slot (update_polled config poll now s) ≡ slot s
polled-slot config (polled st) now s = update_status-slot config (some st) now s
polled-slot config ping_only now s = refl
polled-slot config poll_failed now s = update_status-slot config none now s

pub expire-slot :
    (config : Config) (now : ℕ) (s : ServerState)
    → slot (expire_controller_managed_transition config now s).0 ≡ slot s
unfolding expire_controller_managed_transition
expire-slot config now s =
    ground (arith, update_state_from-slot (some starting) stopped config now s)

round-slot :
    (due managed : Bool) (expired : ServerState) (killed : ServerState × List Action) (rest : Done)
    (s : ServerState)
    → managed ≡ true
    → slot expired ≡ slot rest.0
    → slot rest.0 ≡ slot s
    → slot (if due then if managed then (expired, rest.1) else killed else (rest.0, rest.1)).0
      ≡ slot s
round-slot true true expired killed rest s m e f = e ∙ f
round-slot true false expired killed rest s m e f = ground arith
round-slot false managed expired killed rest s m e f = f

pub monitor_round-slot :
    (os : Os) (attempt : RconAttempt) (config : Config) (poll : Poll) (now : ℕ) (s : ServerState)
    → config.controller_managed ≡ true
    → slot (monitor_round os attempt config poll now s).0 ≡ slot s
unfolding monitor_round
monitor_round-slot os attempt config poll now s m =
    let s₂ = update_polled config poll now s in
    let d = if should_sleep config now s₂ then stop os attempt config now s₂ else (s₂, [], false) in
    let f = force_kill os (some config) d.0 in
    round-slot (should_kill now d.0) config.controller_managed _ (f.0, d.1 ++ f.1) d s m
      (expire-slot config now d.0)
      (ap (λ (d : Done). slot d.0)
          (slept-managed os attempt config now (should_sleep config now s₂) s₂ m)
        ∙ polled-slot config poll now s)

-- The generations of the helpers that the actions launch.
unfoldable pub launched : List Action → List ℕ
launched [] = []
launched (launch g ∷ acts) = g ∷ launched acts
launched (send signal pid ∷ acts) = launched acts
launched (rcon_stop ∷ acts) = launched acts

abbrev pub next_generation : ServerState → ℕ
next_generation s = (s.helper_generation + 1) % 2 ^ 64

-- A start launches nothing and leaves the slot, or takes the free slot for a new generation.
abbrev pub Started : ServerState → Done → Type 0
Started s d =
    ((slot d.0 ≡ slot s) × (launched d.1 ≡ []))
    ⊎ ((s.helper_active ≡ false)
        × (slot d.0 ≡ (s.pid, s.pid_generation, next_generation s, true))
        × (launched d.1 ≡ next_generation s ∷ []))

pub spawn_server-Started :
    (config : Config) (s : ServerState)
    → config.controller_managed ≡ true
    → Started s (spawn_server config s)
unfolding begin_controller_helper launched
spawn_server-Started config s m = elim (Bool-cases s.helper_active) [
  | inl busy ↦ ground arith
  | inr free ↦ ground arith
]

pub Started-if :
    (b : Bool) (s : ServerState) (d e : Done)
    → Started s d
    → Started s e
    → Started s (if b then d else e)
Started-if true s d e h k = h
Started-if false s d e h k = k

Started-when :
    (b : Bool) (s : ServerState) (d e : Done)
    → b ≡ true
    → Started s d
    → Started s (if b then d else e)
Started-when true s d e r h = h
Started-when false s d e r h = ground arith

Started-or_else :
    (b : Bool) (d : Done) (next : ServerState → Done) (s t : ServerState)
    → b ≡ false
    → Started s (next t)
    → Started s (lazygate.Server.Lifecycle.or_else b d next t)
Started-or_else false d next s t e h = h
Started-or_else true d next s t e h = ground arith

pub Started-same : (s t : ServerState) (d : Done) → slot t ≡ slot s → Started t d → Started s d
Started-same s t d e h = ground arith

pub start-Started :
    (config : Config) (now : ℕ) (s : ServerState)
    → config.controller_managed ≡ true
    → Started s (start config now s)
unfolding start launched
start-Started config now s m =
    let u = update_state_from (some stopped) starting config now s in
    let e = update_state_from-slot (some stopped) starting config now s in
    let refused : Done = (s, [], false) in
    let other_state : Done = (u.0, [], false) in
    let ahead : Done =
      lazygate.Server.Lifecycle.or_else config.freeze_process
        (unfreeze_server_signal config now u.0) (spawn_server config) u.0 in
    let guard = config.controller_managed && config.freeze_process in
    elim (Bool-cases config.freeze_process) [
      | inl freeze ↦
          Started-when guard s refused (if not u.1 then other_state else ahead) (ground arith)
            (inl (refl, refl))
      | inr warm ↦
          Started-if guard s refused (if not u.1 then other_state else ahead) (inl (refl, refl)) (
            Started-if (not u.1) s other_state ahead (inl (e, refl)) (
              Started-same s u.0 ahead e (
                Started-or_else config.freeze_process (unfreeze_server_signal config now u.0)
                  (spawn_server config) u.0 u.0 warm (spawn_server-Started config u.0 m))))
    ]
