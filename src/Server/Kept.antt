-- ===== src/Server/Kept.antt =====
-- server.go: how a property of the state and the channels is followed through the parts of the
-- operations.
pub mod Operations
use lazygate.Prelude.{
  ℕ, Bool, true, false, not, ◌&&◌, ◌||◌, List, [], ◌∷◌, ◌++◌, ◌+◌, ◌%◌, ◌^◌, Option, none, some,
  ◌≡◌, inl, inr, refl, if◌then◌else◌, Bool-cases, ltb, ◌==◌,
}
use lazygate.Server.{
  State, stopped, starting, started, stopping, same_state, Config, ServerState, ServerStatus,
  update_state_from, update_state, update_last_active,
}
use lazygate.Server.Status.{
  update_status, expire_controller_managed_transition, record_status, should_sleep, should_kill,
}
use lazygate.Server.Helper.{begin_controller_helper, finish_controller_helper}
use lazygate.Server.Lifecycle.{
  Os, RconAttempt, Done, Poll, Action, launch, send, term, kill, connect_failed, cmd_failed,
  accepted, or_else, update_from_two, spawn_server, after_rcon, unfreeze_server_signal,
  freeze_server_signal, stop_server_signal, stop_server_rcon, start, stop, force_kill,
  child_settled, update_polled, monitor_round, polled, ping_only, poll_failed,
}

-- A property of the state and the subscribers' channels that a state update keeps.
abbrev pub Core : Type 1
Core = State → List (Option State) → Type 0

unfoldable pub Holds : Core → ServerState → Type 0
Holds P s = P s.state s.subs

abbrev pub Kept : Core → Type 0
Kept P =
    (from : Option State) (new : State) (config : Config) (now : ℕ) (s : ServerState)
    → Holds P s
    → Holds P (update_state_from from new config now s).0

module _ (P : Core) (keep : Kept P) where
  other_fields-Holds :
      (s t : ServerState) → t.state ≡ s.state → t.subs ≡ s.subs → Holds P s → Holds P t
  unfolding Holds
  other_fields-Holds s t e f h = rw (e, f) h

  Holds-if : (b : Bool) (s t : ServerState) → Holds P s → Holds P t → Holds P (if b then s else t)
  Holds-if true s t h k = h
  Holds-if false s t h k = k

  pub Holds-done :
      (b : Bool) (d e : Done) → Holds P d.0 → Holds P e.0 → Holds P (if b then d else e).0
  Holds-done true d e h k = h
  Holds-done false d e h k = k

  pub Holds-round :
      (b : Bool) (d e : ServerState × List Action)
      → Holds P d.0
      → Holds P e.0
      → Holds P (if b then d else e).0
  Holds-round true d e h k = h
  Holds-round false d e h k = k

  pub or_else-Holds :
      (b : Bool) (d : Done) (next : ServerState → Done) (s : ServerState)
      → Holds P s
      → Holds P d.0
      → ((t : ServerState) → Holds P t → Holds P (next t).0)
      → Holds P (or_else b d next s).0
  or_else-Holds false d next s h k n = n s h
  or_else-Holds true (t, acts, true) next s h k n = k
  or_else-Holds true (t, acts, false) next s h k n = n t k

  pub update_state-Holds :
      (new : State) (config : Config) (now : ℕ) (s : ServerState)
      → Holds P s
      → Holds P (update_state new config now s).0
  unfolding update_state
  update_state-Holds new config now s h = keep none new config now s h

  record_status-Holds :
      (st : Option ServerStatus) (now : ℕ) (s : ServerState)
      → Holds P s
      → Holds P (record_status st now s)
  unfolding update_last_active
  record_status-Holds none now s h = h
  record_status-Holds (some st) now s h = elim (Bool-cases (ltb 0 st.players.online)) [
    | inl busy ↦ rw busy (other_fields-Holds s _ refl refl h)
    | inr idle ↦ rw idle (other_fields-Holds s _ refl refl h)
  ]

  pub update_status-Holds :
      (config : Config) (st : Option ServerStatus) (now : ℕ) (s : ServerState)
      → Holds P s
      → Holds P (update_status config st now s)
  unfolding update_status
  update_status-Holds config st now s h = record_status-Holds st now _ (
      Holds-if _ _ _ (update_state-Holds started config now s h)
        (Holds-if _ _ _ (update_state-Holds stopped config now s h) h))

  pub begin-Holds : (s : ServerState) → Holds P s → Holds P (begin_controller_helper s).0
  unfolding begin_controller_helper
  begin-Holds s h = go s.helper_active
    where
      fresh : ServerState
      fresh = record s {
        helper_generation = (s.helper_generation + 1) % 2 ^ 64;
        helper_active = true;
      }

      go :
          (b : Bool)
          → Holds P
              (if◌then◌else◌ {A = ServerState × ℕ × Bool} b
                (s, s.helper_generation, false)
                (fresh, (s.helper_generation + 1) % 2 ^ 64, true)).0
      go true = h
      go false = other_fields-Holds s fresh refl refl h

  update_from_two-Holds :
      (a b new : State) (config : Config) (now : ℕ) (s : ServerState)
      → Holds P s
      → Holds P (update_from_two a b new config now s)
  update_from_two-Holds a b new config now s h =
      keep (some b) new config now _ (keep (some a) new config now s h)

  pub unfreeze-Holds :
      (config : Config) (now : ℕ) (s : ServerState)
      → Holds P s
      → Holds P (unfreeze_server_signal config now s).0
  unfolding unfreeze_server_signal
  unfreeze-Holds config now s h =
      Holds-done _ (s, [], false) _ h
        (Holds-done _ (s, [], false) _ h
          (update_from_two-Holds stopping stopped starting config now s h))

  pub freeze-Holds :
      (config : Config) (now : ℕ) (s : ServerState)
      → Holds P s
      → Holds P (freeze_server_signal config now s).0
  unfolding freeze_server_signal
  freeze-Holds config now s h =
      Holds-done _ (s, [], false) _ h
        (update_from_two-Holds starting started stopped config now s h)

  pub stop_signal-Holds :
      (os : Os) (config : Config) (now : ℕ) (s : ServerState)
      → Holds P s
      → Holds P (stop_server_signal os config now s).0
  unfolding stop_server_signal
  stop_signal-Holds os config now s h =
      let sent : Done =
        (update_from_two starting started stopping config now s, send term s.pid ∷ [], true) in
      let failed : Done = (s, send term s.pid ∷ [], false) in
      Holds-done (s.pid == 0) (s, [], false) (if not (os term s.pid) then failed else sent) h
        (Holds-done (not (os term s.pid)) failed sent h
          (update_from_two-Holds starting started stopping config now s h))

  after_rcon-Holds :
      (attempt : RconAttempt) (config : Config) (now : ℕ) (s : ServerState)
      → Holds P s
      → Holds P (after_rcon attempt config now s).0
  after_rcon-Holds connect_failed config now s h = h
  after_rcon-Holds cmd_failed config now s h = h
  after_rcon-Holds accepted config now s h =
      update_state-Holds stopping config now (record s { rcon_last_stop = some now })
        (other_fields-Holds s _ refl refl h)

  pub stop_rcon-Holds :
      (attempt : RconAttempt) (config : Config) (now : ℕ) (s : ServerState)
      → Holds P s
      → Holds P (stop_server_rcon attempt config now s).0
  unfolding stop_server_rcon
  stop_rcon-Holds attempt config now s h =
      Holds-done _ (s, [], false) _ h
        (Holds-done _ (s, [], false) _ h (after_rcon-Holds attempt config now s h))
