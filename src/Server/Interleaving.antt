-- ===== src/Server/Interleaving.antt =====
-- server.go: `updateStateFrom`, `Subscribe` and receivers, with the sections of several calls in between
-- each other.
--
-- `updateStateFrom` gives `stateMu` back before `broadcastState` takes `subsMu`. The calls that have set
-- their state and are still to broadcast it wait. What happens when they broadcast in another order
-- than they set their states is `out_of_order_stale`.
use lazygate.Prelude.{ap, ◌∙◌}
use lazygate.Prelude.{
  ℕ, zero, suc, true, List, [], ◌∷◌, ◌++◌, map, Option, none, some, ◌≡◌, ◌⊎◌, inl, inr, refl, arith,
}
use mathlib.Core.Path.{subst}
use lazygate.Server.{
  State, Config, ServerState, offer, change_state, broadcast_state, set_kill_at, note_started,
  subscribe, update_last_active, keep_online_for,
}

-- The server, the states that wait to be broadcast, and what each subscriber has received last.
pub record Shared : Type 0 where
  pub server : ServerState
  pub waiting : List State
  pub received : List (Option State)

-- The subscriber of a number takes the state out of its channel, if there is one.
unfoldable pub receive :
    ℕ → List (Option State) → List (Option State) → List (Option State) × List (Option State)
receive n [] received = ([], received)
receive n (ch ∷ subs) [] = (ch ∷ subs, [])
receive zero (none ∷ subs) (r ∷ received) = (none ∷ subs, r ∷ received)
receive zero (some state ∷ subs) (r ∷ received) = (none ∷ subs, some state ∷ received)
receive (suc n) (ch ∷ subs) (r ∷ received) =
    let rest = receive n subs received in (ch ∷ rest.0, r ∷ rest.1)

-- One section of one of the calls.
pub data Step : Shared → Shared → Type 0 where
  changes :
      {x : Shared} (from : Option State) (new : State)
      → (change_state from new x.server).1 ≡ true
      → Step x (record x {
        server = (change_state from new x.server).0;
        waiting = x.waiting ++ new ∷ [];
      })
  broadcasts :
      {x : Shared} (before : List State) (new : State) (after : List State)
      → x.waiting ≡ before ++ new ∷ after
      → Step x (record x { server = broadcast_state new x.server; waiting = before ++ after })
  sets_kill_at :
      {x : Shared} (new : State) (config : Config) (now : ℕ)
      → Step x (record x { server = set_kill_at new config now x.server })
  notes_started :
      {x : Shared} (new : State) (config : Config) (now : ℕ)
      → Step x (record x { server = note_started new config now x.server })
  subscribes :
      {x : Shared}
      → Step x (record x { server = subscribe x.server; received = x.received ++ none ∷ [] })
  receives :
      {x : Shared} (n : ℕ)
      → Step x (record x {
        server = record (x.server) { subs = (receive n x.server.subs x.received).0 };
        received = (receive n x.server.subs x.received).1;
      })

pub data Run : Shared → Shared → Type 0 where
  stays : {x : Shared} → Run x x
  goes : {x y z : Shared} → Step x y → Run y z → Run x z

-- Each broadcast is that of the update that has waited longest: the updates broadcast in the order in which
-- they set their states.
abbrev pub IsFirst : {x y : Shared} → Step x y → Type 0
IsFirst (broadcasts before new after splits) = before ≡ []
IsFirst _ = Unit

abbrev pub InOrder : {x y : Shared} → Run x y → Type 0
InOrder stays = Unit
InOrder (goes step run) = IsFirst step × InOrder run

-- Each subscriber has the state in its channel, or has an empty channel and has received the state last.
abbrev pub Told : State → List (Option State) → List (Option State) → Type 0
Told state [] [] = Unit
Told state [] (r ∷ received) = ⊥
Told state (ch ∷ subs) [] = ⊥
Told state (ch ∷ subs) (r ∷ received) =
    ((ch ≡ some state) ⊎ ((ch ≡ none) × (r ≡ some state))) × Told state subs received

-- As many received states as channels.
abbrev pub Paired : List (Option State) → List (Option State) → Type 0
Paired [] [] = Unit
Paired [] (r ∷ received) = ⊥
Paired (ch ∷ subs) [] = ⊥
Paired (ch ∷ subs) (r ∷ received) = Paired subs received

-- The last of the waiting states is the current one; when none waits, all subscribers are told.
abbrev pub Owed : State → List (Option State) → List (Option State) → List State → Type 0
Owed state subs received [] = Told state subs received
Owed state subs received (w ∷ []) = w ≡ state
Owed state subs received (w ∷ v ∷ ws) = Owed state subs received (v ∷ ws)

abbrev pub IsOwed : Shared → Type 0
IsOwed x = Paired x.server.subs x.received × Owed x.server.state x.server.subs x.received x.waiting

Owed-change :
    (new : State) (subs received : List (Option State)) (ws : List State)
    → Owed new subs received (ws ++ new ∷ [])
Owed-change new subs received [] = refl
Owed-change new subs received (w ∷ []) = refl
Owed-change new subs received (w ∷ v ∷ ws) = Owed-change new subs received (v ∷ ws)

-- While a state waits, nothing is asked of the channels.
Owed-other :
    (state w : State) (subs subs₂ received received₂ : List (Option State)) (ws : List State)
    → Owed state subs received (w ∷ ws)
    → Owed state subs₂ received₂ (w ∷ ws)
Owed-other state w subs subs₂ received received₂ [] h = h
Owed-other state w subs subs₂ received received₂ (v ∷ ws) h =
    Owed-other state v subs subs₂ received received₂ ws h

-- A step on the channels that keeps what is told when nothing waits keeps what is owed.
Owed-step :
    (state : State) (subs subs₂ received received₂ : List (Option State)) (ws : List State)
    → (Told state subs received → Told state subs₂ received₂)
    → Owed state subs received ws
    → Owed state subs₂ received₂ ws
Owed-step state subs subs₂ received received₂ [] f h = f h
Owed-step state subs subs₂ received received₂ (w ∷ ws) f h =
    Owed-other state w subs subs₂ received received₂ ws h

Paired-offer :
    (new : State) (subs received : List (Option State))
    → Paired subs received
    → Paired (map (offer new) subs) received
Paired-offer new [] [] h = h
Paired-offer new [] (r ∷ received) h = h
Paired-offer new (ch ∷ subs) [] h = h
Paired-offer new (ch ∷ subs) (r ∷ received) h = Paired-offer new subs received h

Told-offer :
    (new : State) (subs received : List (Option State))
    → Paired subs received
    → Told new (map (offer new) subs) received
Told-offer new [] [] h = h
Told-offer new [] (r ∷ received) h = h
Told-offer new (ch ∷ subs) [] h = h
Told-offer new (none ∷ subs) (r ∷ received) h = (inl refl, Told-offer new subs received h)
Told-offer new (some old ∷ subs) (r ∷ received) h = (inl refl, Told-offer new subs received h)

Owed-offer :
    (state new : State) (subs received : List (Option State)) (rest : List State)
    → Paired subs received
    → Owed state subs received (new ∷ rest)
    → Owed state (map (offer new) subs) received rest
Owed-offer state new subs received [] p h =
    subst (λ st. Told st (map (offer new) subs) received) h (Told-offer new subs received p)
Owed-offer state new subs received (w ∷ ws) p h =
    Owed-other state w subs (map (offer new) subs) received received ws h

Told-subscribe :
    (state : State) (subs received : List (Option State))
    → Told state subs received
    → Told state (subs ++ some state ∷ []) (received ++ none ∷ [])
Told-subscribe state [] [] h = (inl refl, tt)
Told-subscribe state [] (r ∷ received) h = elim h [ ]
Told-subscribe state (ch ∷ subs) [] h = elim h [ ]
Told-subscribe state (ch ∷ subs) (r ∷ received) h = (h.0, Told-subscribe state subs received h.1)

Paired-subscribe :
    (state : State) (subs received : List (Option State))
    → Paired subs received
    → Paired (subs ++ some state ∷ []) (received ++ none ∷ [])
Paired-subscribe state [] [] h = tt
Paired-subscribe state [] (r ∷ received) h = elim h [ ]
Paired-subscribe state (ch ∷ subs) [] h = elim h [ ]
Paired-subscribe state (ch ∷ subs) (r ∷ received) h = Paired-subscribe state subs received h

Paired-receive :
    (n : ℕ) (subs received : List (Option State))
    → Paired subs received
    → Paired (receive n subs received).0 (receive n subs received).1
unfolding receive
Paired-receive n [] received h = h
Paired-receive n (ch ∷ subs) [] h = h
Paired-receive zero (none ∷ subs) (r ∷ received) h = h
Paired-receive zero (some state ∷ subs) (r ∷ received) h = h
Paired-receive (suc n) (ch ∷ subs) (r ∷ received) h = Paired-receive n subs received h

Told-receive :
    (state : State) (n : ℕ) (subs received : List (Option State))
    → Told state subs received
    → Told state (receive n subs received).0 (receive n subs received).1
unfolding receive
Told-receive state n [] received h = h
Told-receive state n (ch ∷ subs) [] h = h
Told-receive state zero (none ∷ subs) (r ∷ received) h = h
Told-receive state zero (some held ∷ subs) (r ∷ received) (inl same, h) = (inr (refl, same), h)
Told-receive state zero (some held ∷ subs) (r ∷ received) (inr (empty, last), h) =
    ground (arith, empty)
Told-receive state (suc n) (ch ∷ subs) (r ∷ received) (this, h) =
    (this, Told-receive state n subs received h)

note_started-channels :
    (new : State) (config : Config) (now : ℕ) (s : ServerState)
    → ((note_started new config now s).state ≡ s.state)
      × ((note_started new config now s).subs ≡ s.subs)
unfolding update_last_active keep_online_for
note_started-channels new config now s = ground arith

change_state-set :
    (from : Option State) (new : State) (s : ServerState)
    → (change_state from new s).1 ≡ true
    → ((change_state from new s).0.state ≡ new) × ((change_state from new s).0.subs ≡ s.subs)
change_state-set from new s e = ground (arith, e)

Step-IsOwed : {x y : Shared} (step : Step x y) → IsFirst step → IsOwed x → IsOwed y
unfolding broadcast_state subscribe
Step-IsOwed {x} (changes from new set) f (p, h) =
    let (state, subs) = change_state-set from new x.server set in
    rw (state, subs) (p, Owed-change new x.server.subs x.received x.waiting)
Step-IsOwed {x} (broadcasts before new after splits) first (p, h) = rw first (
  Paired-offer new x.server.subs x.received p,
  Owed-offer x.server.state new x.server.subs x.received after p (
      subst (Owed x.server.state x.server.subs x.received)
        (splits ∙ ap (λ ws. ws ++ new ∷ after) first) h),
)
Step-IsOwed (sets_kill_at new config now) f h = h
Step-IsOwed {x} (notes_started new config now) f h =
    let (state, subs) = note_started-channels new config now x.server in rw (state, subs) h
Step-IsOwed {x} subscribes f (p, h) = (
  Paired-subscribe x.server.state x.server.subs x.received p,
  Owed-step x.server.state x.server.subs _ x.received _ x.waiting
      (Told-subscribe x.server.state x.server.subs x.received) h,
)
Step-IsOwed {x} (receives n) f (p, h) = (
  Paired-receive n x.server.subs x.received p,
  Owed-step x.server.state x.server.subs _ x.received _ x.waiting
      (Told-receive x.server.state n x.server.subs x.received) h,
)

Run-IsOwed : {x y : Shared} (run : Run x y) → InOrder run → IsOwed x → IsOwed y
Run-IsOwed stays f h = h
Run-IsOwed (goes step run) f h = Run-IsOwed run f.1 (Step-IsOwed step f.0 h)

-- However the sections of state updates, subscriptions and receipts come in between each other, if the
-- updates broadcast in the order in which they set their states and all subscribers are told of the state
-- at the start, with nothing waiting, then whenever no update is still to broadcast every subscriber has
-- the current state in its channel, or has an empty channel and the current state is what it received
-- last.
pub Run-Told :
    {x y : Shared} (run : Run x y)
    → InOrder run
    → x.waiting ≡ []
    → Paired x.server.subs x.received
    → Told x.server.state x.server.subs x.received
    → y.waiting ≡ []
    → Told y.server.state y.server.subs y.received
Run-Told {x} {y} run ordered idle p told settled =
    let start : Owed x.server.state x.server.subs x.received x.waiting = rw idle told in
    let (q, owed) = Run-IsOwed run ordered (p, start) in
    subst (Owed y.server.state y.server.subs y.received) settled owed

-- When two updates broadcast in the other order, the channel of a subscriber keeps the older state.
pub out_of_order_stale :
    (s : ServerState) (old new : State)
    → s.subs ≡ some s.state ∷ []
    → (broadcast_state old (broadcast_state new (record s { state = new }))).subs ≡ some old ∷ []
unfolding broadcast_state
out_of_order_stale s old new one = rw one refl
