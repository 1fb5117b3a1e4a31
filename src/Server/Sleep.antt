-- ===== src/Server/Sleep.antt =====
-- server.go: when `ShouldSleep` puts the server to sleep.
use lazygate.Prelude.{
  ℕ, ◌*◌, ◌+◌, ◌≤◌, ◌<◌, Bool, true, false, not, Option, none, some, ◌≡◌, ◌↔◌, refl, arith,
  if◌then◌else◌,
}
use lazygate.Server.{started, ServerStatus, Config, ServerState, second}
use lazygate.Server.Update.{same_state-eq}
use lazygate.Server.Status.{players_online, not_before, since_at_least, should_sleep}

-- What makes a server idle: it has been started, no player is known to be online, the time up to
-- which it is kept online is past, and its last activity is `sleep_after` seconds ago or more.
pub record IsIdle (config : Config) (now : ℕ) (s : ServerState) : Type 0 where
  pub unmanaged : config.controller_managed ≡ false
  pub is_started : s.state ≡ started
  pub empty : (st : ServerStatus) → s.status ≡ some st → st.players.online ≡ 0
  pub not_kept : (t : ℕ) → s.keep_online ≡ some t → t < now
  pub last : ℕ
  pub was_active : s.last_active ≡ some last
  pub long_ago : last + config.sleep_after * second ≤ now

empty_players :
    (o : Option ServerStatus)
    → players_online o ≡ false
    → (st : ServerStatus) → o ≡ some st
    → st.players.online ≡ 0
empty_players none h st e = ground arith
empty_players (some st₁) h st e = ground arith

past : (o : Option ℕ) (now : ℕ) → not_before o now ≡ false → (t : ℕ) → o ≡ some t → t < now
past none now h t e = ground arith
past (some t₁) now h t e = ground arith

long_since :
    (o : Option ℕ) (limit now : ℕ)
    → since_at_least o limit now ≡ true
    → (t : ℕ) × (o ≡ some t) × (t + limit ≤ now)
long_since none limit now h = ground arith
long_since (some t) limit now h = (t, refl, ground arith)

sleep_parts :
    (managed is_on busy kept old : Bool)
    → (if managed
        then false
        else if not is_on
        then false
        else if busy
        then false
        else if kept
        then false
        else old)
      ≡ true
    → (managed ≡ false) × (is_on ≡ true) × (busy ≡ false) × (kept ≡ false) × (old ≡ true)
sleep_parts managed is_on busy kept old h = ground arith

sleep-IsIdle :
    (config : Config) (now : ℕ) (s : ServerState)
    → should_sleep config now s ≡ true
    → IsIdle config now s
unfolding should_sleep
sleep-IsIdle config now s h =
    let (managed, on, busy, kept, old) = sleep_parts _ _ _ _ _ h in
    let (t, e, le) = long_since s.last_active (config.sleep_after * second) now old in
    record {
      unmanaged = managed;
      is_started = same_state-eq s.state started on;
      empty = empty_players s.status busy;
      not_kept = past s.keep_online now kept;
      last = t;
      was_active = e;
      long_ago = le;
    }

IsIdle-players :
    (o : Option ServerStatus)
    → ((st : ServerStatus) → o ≡ some st → st.players.online ≡ 0)
    → players_online o ≡ false
IsIdle-players none h = refl
IsIdle-players (some st) h = let e = h st refl in ground arith

IsIdle-past : (o : Option ℕ) (now : ℕ) → ((t : ℕ) → o ≡ some t → t < now) → not_before o now ≡ false
IsIdle-past none now h = refl
IsIdle-past (some t) now h = let e = h t refl in ground arith

IsIdle-sleep :
    (config : Config) (now : ℕ) (s : ServerState)
    → IsIdle config now s
    → should_sleep config now s ≡ true
unfolding should_sleep
IsIdle-sleep config now s h =
    let le = h.long_ago in
    rw
      (
        h.unmanaged,
        h.is_started,
        IsIdle-players s.status h.empty,
        IsIdle-past s.keep_online now h.not_kept,
        h.was_active,
      )
      (ground arith)

-- The monitor decides to put the server to sleep exactly if the server is idle: it is not managed by
-- a controller, it has been started, no player is known to be online, the time up to which it is kept
-- online is past (if there is one), and its last activity is known and `sleep_after` seconds ago or more.
pub should_sleep-IsIdle :
    (config : Config) (now : ℕ) (s : ServerState)
    → (should_sleep config now s ≡ true) ↔ IsIdle config now s
should_sleep-IsIdle config now s = (sleep-IsIdle config now s, IsIdle-sleep config now s)
