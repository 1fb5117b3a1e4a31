-- ===== src/Server/Polling.antt =====
-- server.go: `UpdateStatus`, with the table of states that it follows.
use mathlib.Core.Path.{subst}
use lazygate.Prelude.{
  ℕ, ◌<◌, Bool, true, false, Option, none, some, ◌≡◌, ◌≢◌, ◌⊎◌, inl, inr, refl, sym, ap, ◌∙◌, arith,
  Bool-cases, ltb, ltb→lt, lt→ltb,
}
use lazygate.Server.{
  State, stopped, starting, started, stopping, same_state, ServerStatus, Config, ServerState,
  update_state, update_state_from, broadcast_state, keep_online_for, update_last_active,
}
use lazygate.Server.Status.{is_known, record_status, update_status}

-- The states that a poll leads to: an answer means that the server is up, unless it is stopping; no
-- answer means that a server that was up is down.
unfoldable pub state_after : State → Bool → State
state_after stopped true = started
state_after starting true = started
state_after started false = stopped
state_after s answered = s

-- The status to remember: a new one if there is one.
unfoldable pub remembered : Option ServerStatus → Option ServerStatus → Option ServerStatus
remembered none old = old
remembered (some st) old = some st

updated-state :
    (new : State) (config : Config) (now : ℕ) (s : ServerState)
    → ((update_state new config now s).0.state ≡ new)
      × ((update_state new config now s).0.status ≡ s.status)
unfolding update_state update_state_from broadcast_state keep_online_for update_last_active
updated-state new config now s = ground arith

same_state-other : (x : State) → x ≢ started → same_state x started ≡ false
same_state-other stopped h = refl
same_state-other starting h = refl
same_state-other started h = absurd (h refl)
same_state-other stopping h = refl

came_up :
    (config : Config) (now : ℕ) (s : ServerState)
    → same_state s.state started ≡ false
    → (update_state started config now s).0.last_active ≡ some now
unfolding update_state update_state_from broadcast_state keep_online_for update_last_active
came_up config now s e = ground arith

went_down :
    (config : Config) (now : ℕ) (s : ServerState)
    → (update_state stopped config now s).0.last_active ≡ s.last_active
unfolding update_state update_state_from broadcast_state keep_online_for update_last_active
went_down config now s = ground arith

-- A known status with players online.
abbrev pub HasPlayers : Option ServerStatus → Type 0
HasPlayers none = ⊥
HasPlayers (some st) = 0 < st.players.online

recorded :
    (st : Option ServerStatus) (now : ℕ) (s : ServerState)
    → ((record_status st now s).state ≡ s.state)
      × ((record_status st now s).status ≡ remembered st s.status)
      × (HasPlayers st → (record_status st now s).last_active ≡ some now)
      × (¬ HasPlayers st → (record_status st now s).last_active ≡ s.last_active)
      × (s.last_active ≡ some now → (record_status st now s).last_active ≡ some now)
unfolding remembered update_last_active
recorded none now s = (refl, refl, λ b. elim b [ ], λ e. refl, λ e. e)
recorded (some st) now s = elim (Bool-cases (ltb 0 st.players.online)) [
  | inl some_online ↦
      rw some_online (refl, refl, λ b. refl, λ e. absurd (e (ltb→lt 0 _ some_online)), λ e. refl)
  | inr no_one ↦ rw no_one (
    refl,
    refl,
    λ b. absurd (let c : true ≡ false = sym (lt→ltb 0 _ b) ∙ no_one in ground (arith, c)),
    λ e. refl,
    λ e. e,
  )
]

-- What a polled status leaves of the server.
pub record Polled (st : Option ServerStatus) (now : ℕ) (s t : ServerState) : Type 0 where
  pub moves : t.state ≡ state_after s.state (is_known st)
  pub remembers : t.status ≡ remembered st s.status
  pub with_players : HasPlayers st → t.last_active ≡ some now
  pub comes_up : s.state ≢ started → t.state ≡ started → t.last_active ≡ some now
  pub stays :
      ¬ HasPlayers st → (s.state ≡ started) ⊎ (t.state ≢ started) → t.last_active ≡ s.last_active

record_status-Polled :
    (st : Option ServerStatus) (now : ℕ) (s u : ServerState)
    → u.state ≡ state_after s.state (is_known st)
    → u.status ≡ s.status
    → (s.state ≢ started → u.state ≡ started → u.last_active ≡ some now)
    → ((s.state ≡ started) ⊎ (u.state ≢ started) → u.last_active ≡ s.last_active)
    → Polled st now s (record_status st now u)
record_status-Polled st now s u moves remembers up same =
    let (state, status, busy, idle, kept) = recorded st now u in
    record {
      moves = state ∙ moves;
      remembers = status ∙ ap (remembered st) remembers;
      with_players = busy;
      comes_up = λ other here. kept (up other (sym state ∙ here));
      stays = λ alone quiet.
          idle alone
          ∙ same (elim quiet [ inl was ↦ inl was | inr away ↦ inr (λ e. away (state ∙ e)) ]);
    }

-- A polled status moves the state by the table: a status brings a stopped or a starting server to
-- started, no status brings a started one to stopped, and any other state stays. The new status is
-- remembered, and the last known one is kept if there is none. The server counts as active now if the status
-- has players online or brings it to started; and its last activity stays as it was if no players are online and the
-- status does not bring it to started.
pub update_status_lem :
    (config : Config) (st : Option ServerStatus) (now : ℕ) (s : ServerState)
    → Polled st now s (update_status config st now s)
unfolding update_status state_after
update_status_lem config st now s = by_state s.state st refl
  where
    up : ServerState
    up = (update_state started config now s).0

    down : ServerState
    down = (update_state stopped config now s).0

    rises :
        (st₂ : ServerStatus)
        → s.state ≢ started
        → started ≡ state_after s.state true
        → Polled (some st₂) now s (record_status (some st₂) now up)
    rises st₂ other table =
        let (state, status) = updated-state started config now s in
        record_status-Polled (some st₂) now s up (state ∙ table) status
          (λ e f. came_up config now s (same_state-other s.state other))
          (λ q. elim q [ inl was ↦ absurd (other was) | inr away ↦ absurd (away state) ])

    stays :
        (st : Option ServerStatus)
        → s.state ≡ state_after s.state (is_known st)
        → Polled st now s (record_status st now s)
    stays st table =
        record_status-Polled st now s s table refl (λ other here. absurd (other here)) (λ q. refl)

    falls : s.state ≡ started → Polled none now s (record_status none now down)
    falls was =
        let (state, status) = updated-state stopped config now s in
        record_status-Polled none now s down (state ∙ ap (λ x. state_after x false) (sym was))
          status (λ other here. absurd (other was)) (λ q. went_down config now s)

    kept :
        (st : Option ServerStatus)
        → update_status config st now s ≡ record_status st now s
        → s.state ≡ state_after s.state (is_known st)
        → Polled st now s (update_status config st now s)
    kept st path table = subst (Polled st now s) (sym path) (stays st table)

    by_state :
        (x : State) (st : Option ServerStatus)
        → s.state ≡ x
        → Polled st now s (update_status config st now s)
    by_state stopped (some st₂) e =
        let path : update_status config (some st₂) now s ≡ record_status (some st₂) now up =
          rw e refl in
        subst (Polled (some st₂) now s) (sym path)
          (rises st₂ (λ f. ground (arith, e, f)) (ap (λ x. state_after x true) (sym e)))
    by_state starting (some st₂) e =
        let path : update_status config (some st₂) now s ≡ record_status (some st₂) now up =
          rw e refl in
        subst (Polled (some st₂) now s) (sym path)
          (rises st₂ (λ f. ground (arith, e, f)) (ap (λ x. state_after x true) (sym e)))
    by_state started none e =
        let path : update_status config none now s ≡ record_status none now down = rw e refl in
        subst (Polled none now s) (sym path) (falls e)
    by_state stopped none e = kept none (rw e refl) (rw e refl)
    by_state starting none e = kept none (rw e refl) (rw e refl)
    by_state started (some st₂) e = kept (some st₂) (rw e refl) (rw e refl)
    by_state stopping (some st₂) e = kept (some st₂) (rw e refl) (rw e refl)
    by_state stopping none e = kept none (rw e refl) (rw e refl)
