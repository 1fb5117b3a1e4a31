-- ===== src/Server/Flight.antt =====
-- server.go: the helpers of a controller in the runs of the operations.
use lazygate.Prelude.{
  ℕ, ◌+◌, ◌^◌, ◌<◌, ◌≤◌, true, false, List, [], ◌∷◌, ◌++◌, ◌≡◌, ◌↔◌, ◌⊎◌, inl, inr, refl, ap, sym,
  length, ◌∙◌, arith,
}
use mathlib.Core.Path.{subst}
use lazygate.Server.{Config, ServerState, new_server_state}
use lazygate.Server.Helper.{finish_controller_helper}
use lazygate.Server.Lifecycle.{
  Os, RconAttempt, Done, Poll, Exit, Spawn, spawned, no_command, spawn_failed, start,
  invoke_server_cmd, child_exited, monitor_round,
}
use lazygate.Server.Slot.{
  Slot, slot, launched, next_generation, Started, start-Started, monitor_round-slot,
}

-- The helpers that still run after `invokeServerCmd` has started the command of one of them.
abbrev pub still : Spawn → List ℕ → ℕ → List ℕ → List ℕ
still (spawned pid) before g after = before ++ g ∷ after
still no_command before g after = before ++ after
still spawn_failed before g after = before ++ after

-- The runs of a gateway whose server a controller manages: the number of helpers launched so far, the
-- state, and the generations of the helpers whose goroutine has not ended. A helper may start its
-- command and end at any time, and these runs hold more than the real ones, where each does so once.
pub data Run (config : Config) : ℕ → ServerState → List ℕ → Type 0 where
  begun : Run config 0 new_server_state []
  start_called :
      {n : ℕ} {s : ServerState} {live : List ℕ}
      → (now : ℕ) → Run config n s live
      → Run config
          (length (launched (start config now s).1) + n)
          (start config now s).0
          (launched (start config now s).1 ++ live)
  invoked :
      {n : ℕ} {s : ServerState}
      → (before after : List ℕ) (g : ℕ) (spawn : Spawn) → Run config n s (before ++ g ∷ after)
      → Run config n (invoke_server_cmd config g spawn s) (still spawn before g after)
  exited :
      {n : ℕ} {s : ServerState}
      → (before after : List ℕ) (g : ℕ) (exit : Exit) → Run config n s (before ++ g ∷ after)
      → Run config n (child_exited config g exit s).0 (before ++ after)
  monitored :
      {n : ℕ} {s : ServerState} {live : List ℕ}
      → (os : Os) (attempt : RconAttempt) (poll : Poll) (now : ℕ) → Run config n s live
      → Run config n (monitor_round os attempt config poll now s).0 live

-- No helper runs, the slot is free and there is no process; or one helper runs and owns the slot, and
-- the process, if there is one, is its own.
abbrev pub Owned : ℕ → Slot → List ℕ → Type 0
Owned n (pid, pid_generation, generation, active) live =
    (generation ≡ n)
    × (((live ≡ []) × (active ≡ false) × (pid ≡ 0))
        ⊎ ((live ≡ n ∷ []) × (active ≡ true) × (0 < n) × ((pid ≡ 0) ⊎ (pid_generation ≡ n))))

Started-Owned :
    (n : ℕ) (s : ServerState) (d : Done) (live : List ℕ)
    → length (launched d.1) + n < 2 ^ 64
    → Owned n (slot s) live
    → Started s d
    → Owned (length (launched d.1) + n) (slot d.0) (launched d.1 ++ live)
Started-Owned n s d live b h (inl (e, f)) =
    let k = subst (λ sl. Owned n sl live) (sym e) h in rw f (ground arith)
Started-Owned n s d live b (gen, inl (nil, inactive, gone)) (inr (free, e, f)) =
    let c : 1 + n < 2 ^ 64 = subst (λ (xs : List ℕ). length xs + n < 2 ^ 64) f b in
    let fresh : next_generation s ≡ 1 + n = ground arith in
    let owner : d.0.helper_generation ≡ next_generation s = ap (λ (sl : Slot). sl.2) e in
    let taken : d.0.helper_active ≡ true = ap (λ (sl : Slot). sl.3) e in
    let no_process : d.0.pid ≡ s.pid = ap (λ (sl : Slot). sl.0) e in
    rw (f, nil)
      (owner ∙ fresh, inr (ap (λ g. g ∷ []) fresh, taken, ground arith, inl (no_process ∙ gone)))
Started-Owned n s d live b (gen, inr (one, active, pos, own)) (inr (free, e, f)) = ground arith

-- A helper that runs is the only one, and owns the slot.
alone :
    (n : ℕ) (sl : Slot) (before after : List ℕ) (g : ℕ)
    → Owned n sl (before ++ g ∷ after)
    → (before ≡ []) × (after ≡ []) × Owned n sl (g ∷ [])
alone n sl [] after g (gen, inl (nil, inactive, gone)) = ground arith
alone n sl [] after g (gen, inr (one, active, pos, own)) = (refl, ground arith, ground arith)
alone n sl (x ∷ before) after g (gen, inl (nil, inactive, gone)) = ground arith
alone n sl (x ∷ []) after g (gen, inr (one, active, pos, own)) = ground arith
alone n sl (x ∷ y ∷ before) after g (gen, inr (one, active, pos, own)) = ground arith

finish-Owned :
    (n : ℕ) (s : ServerState) (g : ℕ)
    → Owned n (slot s) (g ∷ [])
    → Owned n (slot (finish_controller_helper g s)) []
unfolding finish_controller_helper
finish-Owned n s g h = ground arith

invoke-Owned :
    (config : Config) (n g : ℕ) (s : ServerState) (spawn : Spawn)
    → config.controller_managed ≡ true
    → Owned n (slot s) (g ∷ [])
    → Owned n (slot (invoke_server_cmd config g spawn s)) (still spawn [] g [])
unfolding invoke_server_cmd
invoke-Owned config n g s (spawned pid) m h = ground arith
invoke-Owned config n g s no_command m h = let k = finish-Owned n s g h in ground arith
invoke-Owned config n g s spawn_failed m h = let k = finish-Owned n s g h in ground arith

exit-Owned :
    (config : Config) (n g : ℕ) (s : ServerState) (exit : Exit)
    → config.controller_managed ≡ true
    → Owned n (slot s) (g ∷ [])
    → Owned n (slot (child_exited config g exit s).0) []
unfolding child_exited
exit-Owned config n g s exit m h = let k = finish-Owned n s g h in ground arith

Run-Owned :
    (config : Config)
    → config.controller_managed ≡ true
    → {n : ℕ} {s : ServerState} {live : List ℕ} → Run config n s live
    → n < 2 ^ 64
    → Owned n (slot s) live
Run-Owned config m begun b = (refl, inl (refl, refl, refl))
Run-Owned config m (start_called {n} {s} {live} now run) b =
    Started-Owned n s (start config now s) live b (Run-Owned config m run (omega arith))
      (start-Started config now s m)
Run-Owned config m (invoked {n} {s} before after g spawn run) b =
    go before after (Run-Owned config m run b)
  where
    go :
        (before after : List ℕ)
        → Owned n (slot s) (before ++ g ∷ after)
        → Owned n (slot (invoke_server_cmd config g spawn s)) (still spawn before g after)
    go before after h =
        let (e, f, k) = alone n (slot s) before after g h in
        rw (e, f) (invoke-Owned config n g s spawn m k)
Run-Owned config m (exited {n} {s} before after g exit run) b =
    let (e, f, k) = alone n (slot s) before after g (Run-Owned config m run b) in
    rw (e, f) (exit-Owned config n g s exit m k)
Run-Owned config m (monitored {n} {s} {live} os attempt poll now run) b =
    subst (λ sl. Owned n sl live) (sym (monitor_round-slot os attempt config poll now s m))
      (Run-Owned config m run b)

-- In every run of fewer than 2 ^ 64 launches under a controller, at most one helper runs; a helper is
-- marked as active exactly if one runs, so that none is launched beside it and the next start is not
-- blocked by one that has ended; and while none runs no process is remembered.
pub Run-single_flight :
    (config : Config)
    → config.controller_managed ≡ true
    → {n : ℕ} {s : ServerState} {live : List ℕ} → Run config n s live
    → n < 2 ^ 64
    → (length live ≤ 1)
      × ((s.helper_active ≡ true) ↔ (length live ≡ 1))
      × (length live ≡ 0 → s.pid ≡ 0)
Run-single_flight config m {n} {s} {live} run b = one (Run-Owned config m run b)
  where
    one :
        Owned n (slot s) live
        → (length live ≤ 1)
          × ((s.helper_active ≡ true) ↔ (length live ≡ 1))
          × (length live ≡ 0 → s.pid ≡ 0)
    one (gen, inl (nil, inactive, gone)) = rw nil (ground arith)
    one (gen, inr (single, active, pos, own)) = rw single (ground arith)
