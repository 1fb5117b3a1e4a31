-- ===== src/Access/Bans.antt =====
-- mc/ban.go and service_tasks.go: who is banned after the ban list is read.
use lazygate.Prelude.{
  ℕ, ◌<◌, Bool, true, false, not, ◌&&◌, List, [], ◌∷◌, Bytes, Option, none, some, if◌then◌else◌,
  ltb, ◌≡◌, ◌↔◌, refl, sym, ◌∙◌, arith, same_bytes, get_text,
}
use mathlib.Core.Path.{subst}
use lazygate.Access.{
  BannedIp, Parsers, Expiry, forever, unreadable, at, expiry, is_entry_banned, ban_entry,
  is_banned_ip, load_banned_ips, Access, AccessConfig, entries, reload_bans,
}

-- The last entry of the file for the text of an address.
unfoldable pub last_entry : Bytes → List BannedIp → Option BannedIp
last_entry ip [] = none
last_entry ip (b ∷ bs) =
    let first = if same_bytes ip b.ip then some b else none in
    elim (last_entry ip bs) [ none ↦ first | some later ↦ some later ]

-- The ban has no end that has come: it is for ever, its end is not readable, or its end is later.
abbrev pub InForce : Parsers → ℕ → BannedIp → Type 0
InForce parsers now b = (t : ℕ) → expiry parsers b ≡ at t → now < t

get-load_banned_ips :
    (ip : Bytes) (bs : List BannedIp) (out : List (Bytes × BannedIp))
    → get_text ip (load_banned_ips bs out)
      ≡ elim (last_entry ip bs) [ none ↦ get_text ip out | some b ↦ some b ]
unfolding load_banned_ips last_entry
get-load_banned_ips ip [] out = refl
get-load_banned_ips ip (b ∷ bs) out = get-load_banned_ips ip bs ((b.ip, b) ∷ out) ∙ ground arith

entry-InForce :
    (parsers : Parsers) (now : ℕ) (b : BannedIp)
    → (is_entry_banned parsers now b ≡ true) ↔ InForce parsers now b
unfolding is_entry_banned
entry-InForce parsers now b = by_expiry (expiry parsers b)
  where
    by_expiry :
        (e : Expiry)
        → ((elim e as (λ x. Bool) [ forever ↦ true | unreadable ↦ true | at t ↦ ltb now t ]) ≡ true)
          ↔ ((t : ℕ) → e ≡ at t → now < t)
    by_expiry forever = (λ h t e. cc, λ h. refl)
    by_expiry unreadable = (λ h t e. cc, λ h. refl)
    by_expiry (at t) = (λ h s e. ground arith, λ h. let k = h t refl in ground arith)

-- After the ban list is read with bans switched on, an address is banned exactly if the file has an
-- entry for its text and the last such entry is in force.
pub reload_bans_lem :
    (parsers : Parsers) (config : AccessConfig) (bs : List BannedIp) (a : Access) (now : ℕ)
    (ip : Bytes)
    → (not config.block_banned_ips && not config.drop_banned_ips) ≡ false
    → (is_banned_ip parsers now ip (reload_bans config (entries bs) a).banned ≡ true)
      ↔ ((b : BannedIp) × (last_entry (parsers.ip_string ip) bs ≡ some b) × InForce parsers now b)
unfolding reload_bans is_banned_ip ban_entry
reload_bans_lem parsers config bs a now ip on = simp (on) (
    subst
      (λ o.
        (banned_by o ≡ true)
        ↔ ((b : BannedIp) × (last_entry key bs ≡ some b) × InForce parsers now b))
      (sym (get-load_banned_ips key bs [] ∙ as_it_is (last_entry key bs)))
      (by_entry (last_entry key bs)))
  where
    key : Bytes
    key = parsers.ip_string ip

    banned_by : Option BannedIp → Bool
    banned_by none = false
    banned_by (some b) = is_entry_banned parsers now b

    as_it_is :
        (o : Option BannedIp)
        → (elim o as (λ x. Option BannedIp) [ none ↦ none | some b ↦ some b ]) ≡ o
    as_it_is none = refl
    as_it_is (some b) = refl

    same : (b c : BannedIp) → some b ≡ some c → InForce parsers now c → InForce parsers now b
    same b c e f = let g : c ≡ b = ground arith in rw (← g) f

    by_entry :
        (o : Option BannedIp)
        → (banned_by o ≡ true) ↔ ((b : BannedIp) × (o ≡ some b) × InForce parsers now b)
    by_entry none = (λ h. ground arith, λ r. ground arith)
    by_entry (some b) = (
      λ h. (b, refl, (entry-InForce parsers now b).0 h),
      λ (c, e, f). (entry-InForce parsers now b).1 (same b c e f),
    )
