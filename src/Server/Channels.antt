-- ===== src/Server/Channels.antt =====
-- server.go: the subscribers' channels under the operations.
use lazygate.Prelude.{
  ℕ, Bool, List, [], ◌∷◌, All, All-append, Option, none, some, ◌≡◌, ◌⊎◌, inl, inr, refl,
}
use lazygate.Server.{State, Config, ServerState, update_state_from, subscribe}
use lazygate.Server.Update.{update_state_from_lem}
use lazygate.Server.Status.{expire_controller_managed_transition}
use lazygate.Server.Lifecycle.{Os, RconAttempt, Poll, start, stop, child_settled, monitor_round}
use lazygate.Server.Kept.{Core, Holds, Kept}
use lazygate.Server.Kept.Operations.{
  start-Holds, stop-Holds, child_settled-Holds, monitor_round-Holds, expire-Holds,
}

-- Every channel is empty or holds the state.
abbrev pub Current : Core
Current state subs = All (λ ch. (ch ≡ none) ⊎ (ch ≡ some state)) subs

abbrev pub IsCurrent : ServerState → Type 0
IsCurrent s = Current s.state s.subs

told :
    (state : State) (subs : List (Option State))
    → All (λ ch. ch ≡ some state) subs
    → Current state subs
told state [] h = tt
told state (ch ∷ subs) h = (inr h.0, told state subs h.1)

update-Current : Kept Current
unfolding Holds
update-Current from new config now s h = elim (update_state_from_lem from new config now s) [
  | inl r ↦ rw (r.1) h
  | inr r ↦ let c = r.2 in rw (c.is_new) (told new _ c.told)
]

-- If no operation comes in between another one, and each subscriber's channel is empty or holds the
-- current state, then it is so again after a
-- subscription (whose channel holds the state at once), a conditional state update, a start, a stop,
-- the end of the child, the end of a controller's transition, and a round of the monitor,
-- whatever the operating system, the RCON connection and the poll answer.
pub operations_keep_channels-IsCurrent :
    (s : ServerState)
    → IsCurrent s
    → (os : Os) (attempt : RconAttempt) (config : Config) (poll : Poll) (crashed : Bool) (now : ℕ)
    → IsCurrent (subscribe s)
      × ((from : Option State) (new : State)
          → IsCurrent (update_state_from from new config now s).0)
      × IsCurrent (start config now s).0
      × IsCurrent (stop os attempt config now s).0
      × IsCurrent (child_settled config crashed now s).0
      × IsCurrent (expire_controller_managed_transition config now s).0
      × IsCurrent (monitor_round os attempt config poll now s).0
unfolding subscribe Holds
operations_keep_channels-IsCurrent s h os attempt config poll crashed now = (
  All-append _ s.subs (some s.state ∷ []) h (inr refl, tt),
  (λ from new. update-Current from new config now s h),
  start-Holds Current update-Current config now s h,
  stop-Holds Current update-Current os attempt config now s h,
  child_settled-Holds Current update-Current config crashed now s h,
  expire-Holds Current update-Current config now s h,
  monitor_round-Holds Current update-Current os attempt config poll now s h,
)
