-- ===== src/Server/Update.antt =====
-- server.go: `updateStateFrom` on every branch.
use mathlib.Core.Option.{some-injective}
use mathlib.Core.Path.{subst}
use lazygate.Prelude.{
  ℕ, ◌+◌, ◌*◌, ◌^◌, ◌<◌, true, false, List, [], ◌∷◌, map, All, Option, none, some, ◌≡◌, ◌≢◌, ◌⊎◌,
  inl, inr, refl, sym, ◌∙◌, arith, Bool-cases, ltb, if◌then◌else◌,
}
use lazygate.Server.{
  State, stopped, starting, started, stopping, same_state, Config, ServerState, offer, mismatch,
  kill_time, update_state_from, broadcast_state, after_update, keep_online_for,
}

pub same_state-eq : (a b : State) → same_state a b ≡ true → a ≡ b
same_state-eq a b h = ground arith

pub same_state-ne : (a b : State) → same_state a b ≡ false → a ≢ b
same_state-ne a b h e = ground arith

pub offered :
    (new : State) (subs : List (Option State)) → All (λ ch. ch ≡ some new) (map (offer new) subs)
offered new [] = tt
offered new (none ∷ subs) = (refl, offered new subs)
offered new (some old ∷ subs) = (refl, offered new subs)

after_update-subs :
    (new : State) (config : Config) (now : ℕ) (s : ServerState)
    → (after_update new config now s).subs ≡ map (offer new) s.subs
unfolding broadcast_state keep_online_for lazygate.Server.update_last_active
after_update-subs new config now s = ground arith

pub after_update-state :
    (new : State) (config : Config) (now : ℕ) (s : ServerState)
    → (after_update new config now s).state ≡ s.state
unfolding broadcast_state keep_online_for lazygate.Server.update_last_active
after_update-state new config now s = ground arith

after_update-kill_at :
    (new : State) (config : Config) (now : ℕ) (s : ServerState)
    → (after_update new config now s).kill_at ≡ kill_time new config now
unfolding broadcast_state keep_online_for lazygate.Server.update_last_active
after_update-kill_at new config now s = ground arith

after_update-note :
    (new : State) (config : Config) (now : ℕ) (s : ServerState)
    → let t = after_update new config now s in
      (new ≡ started
        → (t.last_active ≡ some now)
          × (t.keep_online ≡ (
              if ltb 0 config.min_online_time
              then some (now + config.min_online_time * 10 ^ 9)
              else none)))
      × (new ≢ started → (t.last_active ≡ s.last_active) × (t.keep_online ≡ s.keep_online))
unfolding broadcast_state keep_online_for lazygate.Server.update_last_active
after_update-note stopped config now s = (λ e. ground arith, λ e. (refl, refl))
after_update-note starting config now s = (λ e. ground arith, λ e. (refl, refl))
after_update-note stopping config now s = (λ e. ground arith, λ e. (refl, refl))
after_update-note started config now s = (λ e. (ground arith, ground arith), λ e. absurd (e refl))

-- The seconds after which a server in a state is killed; 0 is never.
abbrev pub timeout_of : Config → State → ℕ
timeout_of config starting = config.start_timeout
timeout_of config stopping = config.stop_timeout
timeout_of config _ = 0

kill_time-timeout_of :
    (new : State) (config : Config) (now : ℕ)
    → (timeout_of config new ≡ 0 → kill_time new config now ≡ none)
      × (0 < timeout_of config new
          → kill_time new config now ≡ some (now + timeout_of config new * 10 ^ 9))
kill_time-timeout_of starting config now = (λ e. ground arith, λ e. ground arith)
kill_time-timeout_of stopping config now = (λ e. ground arith, λ e. ground arith)
kill_time-timeout_of stopped config now = (λ e. refl, λ e. absurd (omega arith))
kill_time-timeout_of started config now = (λ e. refl, λ e. absurd (omega arith))

-- What a change of state leaves: the new state, every subscriber holding it, the time limit, and the
-- activity.
pub record Changed (new : State) (config : Config) (now : ℕ) (s t : ServerState) : Type 0 where
  pub was_other : s.state ≢ new
  pub is_new : t.state ≡ new
  pub told : All (λ ch. ch ≡ some new) t.subs
  pub untimed : timeout_of config new ≡ 0 → t.kill_at ≡ none
  pub timed : 0 < timeout_of config new → t.kill_at ≡ some (now + timeout_of config new * 10 ^ 9)
  pub comes_up :
      new ≡ started
      → (t.last_active ≡ some now)
        × (t.keep_online ≡ (
            if ltb 0 config.min_online_time
            then some (now + config.min_online_time * 10 ^ 9)
            else none))
  pub stays_down : new ≢ started → (t.last_active ≡ s.last_active) × (t.keep_online ≡ s.keep_online)

-- A state is asked for, and it is not this one.
abbrev pub IsOther : Option State → State → Type 0
IsOther none state = ⊥
IsOther (some from) state = state ≢ from

mismatch-IsOther :
    (from : Option State) (state : State) → mismatch from state ≡ true → IsOther from state
mismatch-IsOther none state e = ground arith
mismatch-IsOther (some from) state e = same_state-ne state from (ground (arith, e))

mismatch-expected :
    (from : Option State) (state f : State)
    → mismatch from state ≡ false
    → from ≡ some f
    → state ≡ f
mismatch-expected none state f e g = ground arith
mismatch-expected (some from) state f e g =
    same_state-eq state from (ground (arith, e)) ∙ some-injective _ _ g

-- A state update that no other operation interrupts either answers false and changes nothing, and then
-- the state was not the expected one or was the new one already; or it answers true, and then the state
-- was the expected one, if one was expected, and another than the new one. In that case the new state is
-- set, each subscriber's channel holds it, and the server is to be killed after the start timeout if
-- it is starting and after the stop timeout if it is stopping, counted in seconds from now, or never if
-- that timeout is 0 or the state is another. If the new state is started the server counts as active now
-- and is kept online for the configured time, if that is not 0; else both stay as they were.
pub update_state_from_lem :
    (from : Option State) (new : State) (config : Config) (now : ℕ) (s : ServerState)
    → let (t, changed) = update_state_from from new config now s in
      ((changed ≡ false) × (t ≡ s) × (IsOther from s.state ⊎ (s.state ≡ new)))
      ⊎ ((changed ≡ true)
          × ((f : State) → from ≡ some f → s.state ≡ f)
          × Changed new config now s t)
unfolding update_state_from
update_state_from_lem from new config now s = elim (Bool-cases (mismatch from s.state)) [
  | inl other ↦ rw other (inl (refl, refl, inl (mismatch-IsOther from s.state other)))
  | inr expected ↦ elim (Bool-cases (same_state s.state new)) [
    | inl same ↦ rw (expected, same) (inl (refl, refl, inr (same_state-eq s.state new same)))
    | inr differs ↦
        let set = record s { state = new } in
        let (never, later) = kill_time-timeout_of new config now in
        let (up, down) = after_update-note new config now set in
        rw (expected, differs)
          (inr (
            refl,
            λ f. mismatch-expected from s.state f expected,
            record {
              was_other = same_state-ne s.state new differs;
              is_new = after_update-state new config now set;
              told =
                  subst (All (λ ch. ch ≡ some new)) (sym (after_update-subs new config now set))
                    (offered new s.subs);
              untimed = λ e. after_update-kill_at new config now set ∙ never e;
              timed = λ e. after_update-kill_at new config now set ∙ later e;
              comes_up = up;
              stays_down = down;
            },
          ))
  ]
]
