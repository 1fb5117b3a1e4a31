-- ===== src/Server/Stuck.antt =====
-- server.go and monitor.go: a starting or stopping server without a process, under the monitor's loop.
use lazygate.Prelude.{
  All, ◌∙◌, ℕ, Bool, true, false, List, [], ◌∷◌, Option, none, some, ◌≡◌, ◌⊎◌, inl, inr, refl, ap,
  Bool-cases, arith,
}
use lazygate.Server.{
  stopped, starting, started, stopping, same_state, Config, ServerState, ServerStatus,
  update_state_from, update_last_active,
}
use lazygate.Server.Status.{update_status, record_status, should_kill, should_sleep}
use lazygate.Server.Lifecycle.{
  Os, RconAttempt, Poll, polled, ping_only, poll_failed, start, stop, monitor_round, monitor_server,
  update_polled, force_kill, freeze_server_signal, stop_server_signal,
}

-- The poll got a status.
abbrev pub is_status : Poll → Bool
is_status (polled st) = true
is_status ping_only = false
is_status poll_failed = false

-- The server is in a transition that a poll of this kind does not end, and has no process.
abbrev pub IsWaiting : Poll → ServerState → Type 0
IsWaiting poll s =
    ((s.state ≡ stopping) ⊎ ((s.state ≡ starting) × (is_status poll ≡ false))) × (s.pid ≡ 0)

record_status-kept :
    (st : Option ServerStatus) (now : ℕ) (s : ServerState)
    → ((record_status st now s).state ≡ s.state) × ((record_status st now s).pid ≡ s.pid)
unfolding update_last_active
record_status-kept none now s = (refl, refl)
record_status-kept (some st) now s = ground arith

polled-kept :
    (config : Config) (poll : Poll) (now : ℕ) (s : ServerState)
    → IsWaiting poll s
    → ((update_polled config poll now s).state ≡ s.state)
      × ((update_polled config poll now s).pid ≡ 0)
unfolding update_status
polled-kept config (polled st) now s (inl e, p) =
    rw e (ground (arith, record_status-kept (some st) now s))
polled-kept config (polled st) now s (inr (e, f), p) = ground arith
polled-kept config ping_only now s (e, p) = (refl, p)
polled-kept config poll_failed now s (inl e, p) = rw e (ground arith)
polled-kept config poll_failed now s (inr (e, f), p) = rw e (ground arith)

asleep :
    (config : Config) (now : ℕ) (s : ServerState)
    → same_state s.state started ≡ false
    → should_sleep config now s ≡ false
unfolding should_sleep
asleep config now s e = ground arith

no_kill :
    (os : Os) (config : Config) (s : ServerState)
    → s.pid ≡ 0
    → force_kill os (some config) s ≡ (s, [], false)
unfolding force_kill
no_kill os config s e = ground arith

no_start :
    (config : Config) (now : ℕ) (s : ServerState)
    → same_state s.state stopped ≡ false
    → start config now s ≡ (s, [], false)
unfolding start update_state_from
no_start config now s e = ground arith

no_stop :
    (os : Os) (attempt : RconAttempt) (config : Config) (now : ℕ) (s : ServerState)
    → same_state s.state started ≡ false
    → s.pid ≡ 0
    → stop os attempt config now s ≡ (s, [], false)
unfolding stop freeze_server_signal stop_server_signal
no_stop os attempt config now s e p = ground arith

quiet_round :
    (os : Os) (attempt : RconAttempt) (config : Config) (poll : Poll) (now : ℕ) (s : ServerState)
    → config.controller_managed ≡ false
    → should_sleep config now (update_polled config poll now s) ≡ false
    → (update_polled config poll now s).pid ≡ 0
    → (monitor_round os attempt config poll now s).0 ≡ update_polled config poll now s
unfolding monitor_round
quiet_round os attempt config poll now s m n p =
    let e = no_kill os config (update_polled config poll now s) p in
    elim (Bool-cases (should_kill now (update_polled config poll now s))) [
      | inl due ↦ simp (n, m, e, due) refl
      | inr early ↦ simp (n, early) refl
    ]

IsWaiting-not :
    (poll : Poll) (s : ServerState)
    → IsWaiting poll s
    → (same_state s.state started ≡ false) × (same_state s.state stopped ≡ false)
IsWaiting-not poll s (inl e, p) = rw e (refl, refl)
IsWaiting-not poll s (inr (e, f), p) = rw e (refl, refl)

round-waiting :
    (os : Os) (attempt : RconAttempt) (config : Config) (poll : Poll) (now : ℕ) (s : ServerState)
    → config.controller_managed ≡ false
    → IsWaiting poll s
    → let t = (monitor_round os attempt config poll now s).0 in (t.state ≡ s.state) × (t.pid ≡ 0)
round-waiting os attempt config poll now s m w =
    let (same, gone) = polled-kept config poll now s w in
    let awake = IsWaiting-not poll s w in
    let e =
      quiet_round os attempt config poll now s m
        (asleep config now (update_polled config poll now s)
          (ap (λ st. same_state st started) same ∙ awake.0))
        gone in
    (ap (λ (t : ServerState). t.state) e ∙ same, ap (λ (t : ServerState). t.pid) e ∙ gone)

-- What the polls of a monitor find.
abbrev pub AllWaiting : List (Poll × ℕ) → ServerState → Type 0
AllWaiting polls s =
    ((s.state ≡ stopping)
      ⊎ ((s.state ≡ starting) × All (λ (p : Poll × ℕ). is_status p.0 ≡ false) polls))
    × (s.pid ≡ 0)

first-IsWaiting :
    (poll : Poll) (now : ℕ) (polls : List (Poll × ℕ)) (s : ServerState)
    → AllWaiting ((poll, now) ∷ polls) s
    → IsWaiting poll s
first-IsWaiting poll now polls s (inl e, p) = (inl e, p)
first-IsWaiting poll now polls s (inr (e, f), p) = (inr (e, f.0), p)

rest_waiting :
    (poll : Poll) (now : ℕ) (polls : List (Poll × ℕ)) (s t : ServerState)
    → t.state ≡ s.state
    → t.pid ≡ 0
    → AllWaiting ((poll, now) ∷ polls) s
    → AllWaiting polls t
rest_waiting poll now polls s t e g (inl f, p) = (inl (e ∙ f), g)
rest_waiting poll now polls s t e g (inr (f, h), p) = (inr (e ∙ f, h.1), g)

waits :
    (os : Os) (attempt : RconAttempt) (config : Config) (polls : List (Poll × ℕ)) (s : ServerState)
    → config.controller_managed ≡ false
    → AllWaiting polls s
    → let t = monitor_server os attempt config polls s in
      (t.state ≡ s.state)
      × (t.pid ≡ 0)
      × (same_state t.state started ≡ false)
      × (same_state t.state stopped ≡ false)
unfolding monitor_server
waits os attempt config [] s m (inl e, p) = (refl, p, rw e refl, rw e refl)
waits os attempt config [] s m (inr (e, f), p) = (refl, p, rw e refl, rw e refl)
waits os attempt config ((poll, now) ∷ polls) s m w =
    let t = (monitor_round os attempt config poll now s).0 in
    let (e, p) =
      round-waiting os attempt config poll now s m (first-IsWaiting poll now polls s w) in
    let (f, q, g, h) = waits os attempt config polls t m (rest_waiting poll now polls s t e p w) in
    (f ∙ e, q, g, h)

-- If no controller manages the server, it is stopping without a process, or starting without one
-- while no poll gets a status, then after any number of rounds of the monitor it is in the same
-- transition without a process, however much time has passed, and starting, stopping and killing it
-- change nothing, do nothing and answer false.
pub transition_without_process_stays :
    (os : Os) (attempt : RconAttempt) (config : Config) (polls : List (Poll × ℕ)) (now : ℕ)
    (s : ServerState)
    → config.controller_managed ≡ false
    → AllWaiting polls s
    → let t = monitor_server os attempt config polls s in
      (t.state ≡ s.state)
      × (t.pid ≡ 0)
      × (start config now t ≡ (t, [], false))
      × (stop os attempt config now t ≡ (t, [], false))
      × (force_kill os (some config) t ≡ (t, [], false))
transition_without_process_stays os attempt config polls now s m w =
    let t = monitor_server os attempt config polls s in
    let (e, p, f, g) = waits os attempt config polls s m w in
    (e, p, no_start config now t g, no_stop os attempt config now t f p, no_kill os config t p)
