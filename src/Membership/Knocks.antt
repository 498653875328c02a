-- ===== src/Membership/Knocks.antt =====
-- src/cland/internal/membership/knock.go: the store of pending knocks.
use minti.Base.{
  ℕ, ◌+◌, ◌-◌, suc, String, Bool, true, false, Option, none, some, List, map, ltb, leb, not, ◌&&◌,
  ◌==◌, if◌then◌else◌, Result, ok, err, keep, length, lookup, insert, delete,
}
use minti.Membership.{
  PendingKnock, KnockStore, RlBucket, MembershipError, knock_not_found, knock_expired,
  knock_not_pending, knock_rate_limit,
}

abbrev pub knock_ttl : ℕ
knock_ttl = 300000000000

abbrev pub knock_rate_per_src : ℕ
knock_rate_per_src = 10

abbrev pub knock_rate_per_clan : ℕ
knock_rate_per_clan = 30

abbrev pub knock_rate_window : ℕ
knock_rate_window = 60000000000

unfoldable pub renewed : (window now : ℕ) → RlBucket → RlBucket
renewed window now b =
    if ltb b.window_end now then record { count = 0; window_end = now + window } else b

-- `(b *rlBucket) allow`
unfoldable pub allow : (limit window now : ℕ) → RlBucket → RlBucket × Bool
allow limit window now b =
    let c = renewed window now b in
    if leb limit c.count then (c, false) else (record c { count = suc c.count }, true)

unfoldable pub bucket_or_new : Option RlBucket → RlBucket
bucket_or_new none = record { count = 0; window_end = 0 }
bucket_or_new (some b) = b

-- A map's bucket, made if it is missing, and asked.
unfoldable pub allow_in :
    (key : String) (limit now : ℕ) → List (String × RlBucket) → List (String × RlBucket) × Bool
allow_in key limit now m =
    let (b, allowed) = allow limit knock_rate_window now (bucket_or_new (lookup key m)) in
    (insert key b m, allowed)

-- `Store`; the error, if there is one. A knock that the clan's bucket refuses has been counted
-- against its source.
unfoldable pub store_knock :
    PendingKnock → (source_ip : String) (now : ℕ) → KnockStore → KnockStore × Option MembershipError
store_knock pk source_ip now s =
    let (src, src_ok) = allow_in source_ip knock_rate_per_src now s.rl_src in
    if not src_ok
    then (record s { rl_src = src }, some knock_rate_limit)
    else (let (clan, clan_ok) = allow_in pk.clan_id knock_rate_per_clan now s.rl_clan in
        if not clan_ok
        then (record s { rl_src = src; rl_clan = clan }, some knock_rate_limit)
        else (
          record s { rl_src = src; rl_clan = clan; knocks = insert pk.knock_id pk s.knocks },
          none,
        ))

abbrev pub is_open : (now : ℕ) → PendingKnock → Bool
is_open now pk = not (ltb pk.expires_at now) && pk.state == "pending"

unfoldable pub list_knocks : (now : ℕ) → KnockStore → List PendingKnock
list_knocks now s = keep (is_open now) (map (λ e. e.1) s.knocks)

unfoldable pub consume :
    (knock_id target_state : String) (now : ℕ)
    → KnockStore
    → KnockStore × Result MembershipError PendingKnock
consume knock_id target_state now s = elim (lookup knock_id s.knocks) [
  | none ↦ (s, err knock_not_found)
  | some pk ↦
      if ltb pk.expires_at now
      then (record s { knocks = delete knock_id s.knocks }, err knock_expired)
      else if not (pk.state == "pending")
      then (s, err knock_not_pending)
      else (let taken = record pk { state = target_state } in
          (record s { knocks = insert knock_id taken s.knocks }, ok taken))
]

unfoldable pub sweep_knocks : (now : ℕ) → KnockStore → KnockStore × ℕ
sweep_knocks now s =
    let kept = keep (λ e. is_open now e.1) s.knocks in
    (record s { knocks = kept }, length s.knocks - length kept)
