-- ===== src/Join/Examples.antt =====
-- The theorems on the join methods for a lobby with a hold behind it.
use lazygate.Prelude.{ℕ, true, false, [], ◌∷◌, codes, none, ◌≡◌, refl}
use lazygate.Proto.Client.{ClientInfo, empty_client_info}
use lazygate.Route.{hold, lobby, RouteConfig, validate_online_mode_config}
use lazygate.Server.{starting, started}
use lazygate.Join.{JoinConfig, World, proxied, hold_occupy, must_still_probe, occupy}
use lazygate.Join.Fates.{AsMeant, occupy-AsMeant, occupy_online_unready}

abbrev forge_pack : JoinConfig
forge_pack = record {
  forge = true;
  kick_starting = codes "starting";
  kick_stopping = codes "stopping";
}

abbrev waking : ℕ → World
waking n = record { state = starting; received = starting ∷ started ∷ []; has_probe = false }

abbrev verified : RouteConfig
verified = record {
  controller_managed = false;
  freeze_process = false;
  wake_on_crash = false;
  rcon_enabled = false;
  rewrite_server_properties = false;
  online_mode = true;
  methods = lobby ∷ hold ∷ [];
  lockout_enabled = false;
  drop_banned_ips = false;
}

occupy-AsMeant_example :
    AsMeant forge_pack waking empty_client_info
      (1 ∷ 2 ∷ [])
      (2 ∷ [])
      0
      (lobby ∷ hold ∷ [])
      (occupy forge_pack waking empty_client_info (1 ∷ 2 ∷ []) (2 ∷ []) 0 (lobby ∷ hold ∷ []))
occupy-AsMeant_example =
    occupy-AsMeant forge_pack waking empty_client_info (1 ∷ 2 ∷ []) (2 ∷ []) 0 (lobby ∷ hold ∷ [])

needs_probe : must_still_probe forge_pack (waking 0) empty_client_info ≡ true
unfolding must_still_probe lazygate.Proto.Client.get_protocol
needs_probe = refl

sees_start : hold_occupy (waking 1) ≡ true
unfolding hold_occupy
sees_start = refl

occupy_online_unready_example :
    (validate_online_mode_config true true verified ≡ none)
    × (occupy forge_pack waking empty_client_info (1 ∷ 2 ∷ []) (2 ∷ []) 0 (lobby ∷ hold ∷ [])
        ≡ proxied (1 ∷ 2 ∷ []))
occupy_online_unready_example =
    occupy_online_unready verified forge_pack waking empty_client_info (1 ∷ 2 ∷ []) (2 ∷ []) 0 []
      refl refl needs_probe sees_start
