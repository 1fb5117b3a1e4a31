-- ===== src/Server/Helper.antt =====
-- server.go: the single slot of a controller helper and the generations that own it.
use lazygate.Prelude.{ℕ, ◌+◌, ◌%◌, ◌^◌, Bool, true, false, not, ◌||◌, ◌==◌, if◌then◌else◌}
use lazygate.Server.{ServerState}

-- The new state, the generation, and whether the caller is to launch a helper.
unfoldable pub begin_controller_helper : ServerState → ServerState × ℕ × Bool
begin_controller_helper s =
    if s.helper_active
    then (s, s.helper_generation, false)
    else (let generation = (s.helper_generation + 1) % 2 ^ 64 in
        (record s { helper_generation = generation; helper_active = true }, generation, true))

unfoldable pub finish_controller_helper : ℕ → ServerState → ServerState
finish_controller_helper generation s =
    if generation == 0 || not (generation == s.helper_generation)
    then s
    else (let s₂ = record s { helper_active = false } in
        if s₂.pid_generation == generation then record s₂ { pid = 0; pid_generation = 0 } else s₂)
