-- ===== src/Access.antt =====
-- mc/ban.go and mc/whitelist.go, the reading of both by service_tasks.go, and what server.go answers
-- from them.
--
-- Parsing is a parameter: `json.Unmarshal` gives the entries of a file or an error, `ParseInLocation`
-- the time of an expiry, `net.ParseIP` with `String` the text of an address.
pub mod Bans
mod Examples
use lazygate.Prelude.{
  ℕ, Bool, true, false, not, ◌&&◌, ◌||◌, List, [], ◌∷◌, Bytes, codes, Option, none, some,
  if◌then◌else◌, ltb, same_bytes, trim_space, to_lower, TextMap, get_text, put_text,
}

-- An entry of banned-ips.json
pub record BannedIp : Type 0 where
  pub ip : Bytes
  pub created : Option Bytes
  pub source : Option Bytes
  pub expires : Option Bytes
  pub reason : Option Bytes

-- What is not in server.go: the text of an address, and the time of an expiry in nanoseconds.
pub record Parsers : Type 0 where
  pub ip_string : Bytes → Bytes
  pub parse_time : Bytes → Option ℕ

pub data Expiry : Type 0 where
  forever unreadable : Expiry
  at : ℕ → Expiry

-- `expiry`: a nil time with ok, no ok, or a time
unfoldable pub expiry : Parsers → BannedIp → Expiry
expiry parsers b = elim b.expires [
  | none ↦ forever
  | some text ↦
      if same_bytes (to_lower (trim_space text)) (codes "forever")
      then forever
      else elim (parsers.parse_time text) [ none ↦ unreadable | some t ↦ at t ]
]

-- `BannedIp.IsBanned`: `expires.After(time.Now())`
unfoldable pub is_entry_banned : Parsers → ℕ → BannedIp → Bool
unfolding expiry
is_entry_banned parsers now b = elim (expiry parsers b) [
  | forever ↦ true
  | unreadable ↦ true
  | at t ↦ ltb now t
]

abbrev pub BannedIps : Type 0
BannedIps = TextMap BannedIp

-- `BannedIps.Get`, with the address as the text that `BanEntry` parses
unfoldable pub ban_entry : Parsers → Bytes → BannedIps → Option BannedIp
ban_entry parsers ip bans = get_text (parsers.ip_string ip) bans

unfoldable pub is_banned_ip : Parsers → ℕ → Bytes → BannedIps → Bool
unfolding ban_entry is_entry_banned
is_banned_ip parsers now ip bans = elim (ban_entry parsers ip bans) [
  | none ↦ false
  | some b ↦ is_entry_banned parsers now b
]

-- `LoadBannedIps` on the entries of the file: `out.ips[ip.IP] = ip` for each in turn
unfoldable pub load_banned_ips : List BannedIp → BannedIps → BannedIps
load_banned_ips [] out = out
load_banned_ips (b ∷ bs) out = load_banned_ips bs (put_text b.ip b out)

pub record Whitelist : Type 0 where
  pub whitelist : List Bytes
  pub ops : List Bytes

unfoldable pub any_name : List Bytes → Bytes → Bool
any_name [] username = false
any_name (u ∷ us) username =
    let rest = any_name us username in if same_bytes u username then true else rest

-- `Whitelist.IsWhitelisted`
unfoldable pub is_whitelisted : Whitelist → Bytes → Bool
unfolding any_name
is_whitelisted w username = if any_name w.whitelist username then true else any_name w.ops username

-- What server.go keeps of both.
pub record Access : Type 0 where
  pub banned : BannedIps
  pub whitelist : Option Whitelist

-- `ServerState.IsWhitelisted`
unfoldable pub is_user_whitelisted : Access → Bytes → Bool
unfolding is_whitelisted
is_user_whitelisted a username = elim a.whitelist [
  | none ↦ true
  | some w ↦ is_whitelisted w username
]

-- A watched file: not there, not readable as its format, or its entries.
pub data File {ℓ} (A : Type ℓ) : Type ℓ where
  missing broken : File A
  entries : A → File A

pub record AccessConfig : Type 0 where
  pub block_banned_ips : Bool  -- Server.BlockBannedIps
  pub drop_banned_ips : Bool  -- Server.DropBannedIps
  pub wake_whitelist : Bool  -- Server.WakeWhitelist

-- `reloadBans`, up to the warning about 127.0.0.1
unfoldable pub reload_bans : AccessConfig → File (List BannedIp) → Access → Access
unfolding load_banned_ips
reload_bans config file a =
    if not config.block_banned_ips && not config.drop_banned_ips then a else elim file [
      | missing ↦ record a { banned = [] }
      | broken ↦ a
      | entries bs ↦ record a { banned = load_banned_ips bs [] }
    ]

-- `LoadWhitelistDir`: a file that is missing has no users.
unfoldable pub load_whitelist_dir : File (List Bytes) → File (List Bytes) → Option Whitelist
load_whitelist_dir broken ops = none
load_whitelist_dir missing broken = none
load_whitelist_dir (entries users) broken = none
load_whitelist_dir missing missing = some (record { whitelist = []; ops = [] })
load_whitelist_dir missing (entries os) = some (record { whitelist = []; ops = os })
load_whitelist_dir (entries users) missing = some (record { whitelist = users; ops = [] })
load_whitelist_dir (entries users) (entries os) = some (record { whitelist = users; ops = os })

-- `reloadWhitelist`, with the property `white-list` of server.properties
unfoldable pub reload_whitelist :
    AccessConfig → Option Bytes → File (List Bytes) → File (List Bytes) → Access → Access
unfolding load_whitelist_dir
reload_whitelist config property users ops a =
    let enabled = elim property as (λ o. Bool) [
      | none ↦ false
      | some v ↦ same_bytes v (codes "true")
    ] in
    if not config.wake_whitelist
    then a
    else if not enabled
    then record a { whitelist = none }
    else elim (load_whitelist_dir users ops) [ none ↦ a | some w ↦ record a { whitelist = some w } ]
