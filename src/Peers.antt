-- ===== src/Peers.antt =====
-- src/cland/internal/peers/peers.go: the registry of addresses and members. The clock and the outcome of
-- a TCP dial are arguments; an `Advertisement`'s `Load`, a float that nothing here reads, is left out.
pub mod Capacity
pub mod Ads
pub mod Handlers
use minti.Base.{
  ℕ, ◌+◌, zero, suc, String, Bool, true, false, not, ◌&&◌, List, [], ◌∷◌, map, Option, none, some,
  ◌==◌, if◌then◌else◌, ltb, leb, eqb, ℤ, length, lookup, insert, is_some, Result, ok, err,
}
use minti.Window.{admit}
use minti.Clan.{Revocation}

-- What `encoding/json` puts into a `map[string]any`, as far as it is looked at.
mutual
  pub data Value : Type 0 where
    boolean : Bool → Value
    object : Fields → Value
    opaque : Value

  pub data Fields : Type 0 where
    end : Fields
    field : String → Value → Fields → Fields

pub record Candidate : Type 0 where
  pub address : String
  pub discovered_via : String
  pub first_seen : ℕ

pub record Advertisement : Type 0 where
  pub member_id : String
  pub clan_id : String
  pub term : ℕ
  pub generation : ℕ
  pub os : String
  pub lan_address : String
  pub hardware : Fields
  pub reasoning_score : ℤ
  pub system_score : ℤ
  pub capabilities : Fields
  pub pinned_orchestrator : Bool
  pub scribe_capable : Bool
  pub pinned_scribe : Bool

pub record Member : Type 0 where
  pub member_id : String
  pub address : String
  pub discovered_via : String
  pub last_ad : ℕ
  pub last_seen_at : ℕ
  pub latest_ad : Option Advertisement
  pub ad_generation : ℕ
  pub heartbeat_seen : Bool

abbrev pub ad_fresh_window : ℕ
ad_fresh_window = 90_000_000_000

abbrev pub live_window : ℕ
live_window = 4_000_000_000

abbrev pub peer_add_rate_limit : ℕ
peer_add_rate_limit = 10

abbrev pub peer_add_rate_window : ℕ
peer_add_rate_window = 60_000_000_000

-- `!LastAd.IsZero() && now.Sub(LastAd) < AdFreshWindow`
unfoldable pub ad_fresh : Member → ℕ → Bool
ad_fresh m now = not (eqb m.last_ad 0) && ltb now (m.last_ad + ad_fresh_window)

unfoldable pub live : Member → ℕ → Bool
live m now = not (eqb m.last_seen_at 0) && ltb now (m.last_seen_at + live_window)

pub record Registry : Type 0 where
  pub candidates : List (String × Candidate)
  pub members : List (String × Member)
  pub revocations : List (String × Bool)
  pub per_origin_rate : List (String × List ℕ)
  pub max_entries : ℕ

unfoldable pub new_registry : Registry
new_registry = record {
  candidates = [];
  members = [];
  revocations = [];
  per_origin_rate = [];
  max_entries = 100;
}

pub data PeersError : Type 0 where
  address_required origin_required member_id_required revoked registry_full rate_limited
        dial_failed :
      PeersError

unfoldable pub revoked_set : List Revocation → List (String × Bool)
revoked_set [] = []
revoked_set (e ∷ es) = insert e.member_id true (revoked_set es)

unfoldable pub set_revocations : List Revocation → Registry → Registry
set_revocations entries r = record r { revocations = revoked_set entries }

unfoldable pub total : Registry → ℕ
total r = length r.candidates + length r.members

-- A method on the registry returns the new registry and its `error`.
unfoldable pub upsert_candidate :
    (address via : String) (now : ℕ) → Registry → Registry × Option PeersError
upsert_candidate address via now r =
    if address == ""
    then (r, some address_required)
    else if is_some (lookup address r.candidates)
    then (r, none)
    else if leb r.max_entries (total r)
    then (r, some registry_full)
    else (
      record r {
        candidates =
            insert address (record { address = address; discovered_via = via; first_seen = now })
              r.candidates;
      },
      none,
    )

stamps_of : Option (List ℕ) → List ℕ
stamps_of none = []
stamps_of (some stamps) = stamps

unfoldable pub check_rate_limit : String → ℕ → Registry → Registry × Bool
unfolding stamps_of
check_rate_limit origin now r =
    let (stamps, admitted) =
      admit peer_add_rate_limit peer_add_rate_window now
        (stamps_of (lookup origin r.per_origin_rate)) in
    (record r { per_origin_rate = insert origin stamps r.per_origin_rate }, admitted)

-- The part of `AddPeer` under the lock.
unfoldable pub add_peer_admit : String → String → ℕ → Registry → Registry × Option PeersError
add_peer_admit origin address now r =
    if origin == ""
    then (r, some origin_required)
    else if address == ""
    then (r, some address_required)
    else (let (r', admitted) = check_rate_limit origin now r in
        if not admitted
        then (r', some rate_limited)
        else if leb r'.max_entries (total r')
        then (r', some registry_full)
        else (r', none))

-- `AddPeer` as a whole: while it dials, the lock is free and others may change the registry.
unfoldable pub add_peer :
    (origin address : String) (now : ℕ) (dial_ok : Bool) (others : Registry → Registry) (later : ℕ)
    → Registry
    → Registry × Option PeersError
add_peer origin address now dial_ok others later r =
    let (r', refused) = add_peer_admit origin address now r in
    elim refused [
      | some e ↦ (r', some e)
      | none ↦
          if dial_ok
          then upsert_candidate address "manual" later (others r')
          else (others r', some dial_failed)
    ]

-- How the address of a new member came to be known.
unfoldable pub via_of : String → String → List (String × Candidate) → String
via_of addr remote cs = elim (lookup addr cs) [
  | some c ↦ c.discovered_via
  | none ↦ elim (lookup remote cs) [ some c ↦ c.discovered_via | none ↦ "mdns" ]
]

-- The `existing != nil` branch of `BindMember`.
unfoldable pub refresh : Advertisement → String → ℕ → Member → Member
refresh ad addr now m =
    if ltb 0 ad.generation && ltb ad.generation m.ad_generation
    then record m { last_seen_at = now }
    else record m {
      last_ad = now;
      last_seen_at = now;
      latest_ad = some ad;
      ad_generation = ad.generation;
      address = if addr == "" then m.address else addr;
    }

unfoldable pub bind : Advertisement → String → ℕ → Registry → Registry × Option PeersError
bind ad remote now r =
    let addr = if ad.lan_address == "" then remote else ad.lan_address in
    elim (lookup ad.member_id r.members) [
      | some m ↦
          (record r { members = insert ad.member_id (refresh ad addr now m) r.members }, none)
      | none ↦ if leb r.max_entries (total r) then (r, some registry_full) else (
        record r {
          members =
              insert ad.member_id
                (record {
                  member_id = ad.member_id;
                  address = addr;
                  discovered_via = via_of addr remote r.candidates;
                  last_ad = now;
                  last_seen_at = now;
                  latest_ad = some ad;
                  ad_generation = ad.generation;
                  heartbeat_seen = false;
                })
                r.members;
        },
        none,
      )
    ]

unfoldable pub is_revoked : String → Registry → Bool
is_revoked id r = elim (lookup id r.revocations) [ none ↦ false | some b ↦ b ]

unfoldable pub bind_member :
    Option Advertisement → String → ℕ → Registry → Registry × Option PeersError
bind_member none remote now r = (r, some member_id_required)
bind_member (some ad) remote now r =
    if ad.member_id == ""
    then (r, some member_id_required)
    else if is_revoked ad.member_id r
    then (r, some revoked)
    else bind ad remote now r

unfoldable pub touch_live : String → ℕ → Registry → Registry
touch_live id now r = elim (lookup id r.members) [
  | none ↦ r
  | some m ↦ record r {
    members = insert id (record m { last_seen_at = now; heartbeat_seen = true }) r.members;
  }
]

-- The members of `Snapshot()`, in the order in which the map is walked.
unfoldable pub snapshot_members : Registry → List Member
snapshot_members r = map (λ e. e.1) r.members
