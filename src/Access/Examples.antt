-- ===== src/Access/Examples.antt =====
-- The theorem on the ban list at a list that names an address twice.
use lazygate.Prelude.{true, false, [], ◌∷◌, Bytes, codes, Option, none, some, ◌≡◌, ◌↔◌, refl}
use lazygate.Access.{BannedIp, Parsers, Access, AccessConfig, entries, reload_bans, is_banned_ip}
use lazygate.Access.Bans.{last_entry, InForce, reload_bans_lem}

abbrev as_written : Parsers
as_written = record { ip_string = λ ip. ip; parse_time = λ t. some 500 }

abbrev blocking : AccessConfig
blocking = record { block_banned_ips = true; drop_banned_ips = false; wake_whitelist = false }

abbrev ban : Option Bytes → BannedIp
ban until = record {
  ip = codes "10.0.0.1";
  created = none;
  source = none;
  expires = until;
  reason = none;
}

abbrev unread : Access
unread = record { banned = []; whitelist = none }

reload_bans_lem_example :
    (is_banned_ip as_written 600
        (codes "10.0.0.1")
        (reload_bans blocking (entries (ban none ∷ ban (some (codes "2020")) ∷ [])) unread).banned
      ≡ true)
    ↔ ((b : BannedIp) × (last_entry (codes "10.0.0.1") (ban none ∷ ban (some (codes "2020")) ∷ [])
          ≡ some b)
        × InForce as_written 600 b)
reload_bans_lem_example =
    reload_bans_lem as_written blocking (ban none ∷ ban (some (codes "2020")) ∷ []) unread 600
      (codes "10.0.0.1") refl
