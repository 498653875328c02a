-- ===== src/Sync/RosterSync.antt =====
-- src/cland/internal/rostersync/sync.go: `MaybeSync` and the handler of GET /clan/roster. The clan is read
-- before the fetch and written back whole after it; `meanwhile` is what other goroutines do in between.
use minti.Base.{
  ℕ, String, Bool, true, false, List, [], ◌∷◌, ◌++◌, Option, none, some, ok, err, ◌==◌, ◌&&◌,
  length, if◌then◌else◌,
}
use minti.Clan.{RosterMember, Clan, Store, StoreError, load_clan, save_clan}
use minti.Clan.RosterMerge.{merge_roster_states, roster_digest}
use minti.Sync.{Answer, fetch, Inflight, busy, enter, leave}

-- The audit event of a sync that changed the roster.
pub record Applied : Type 0 where
  pub from_peer : String
  pub entries : ℕ

pub record Syncer : Type 0 where
  pub store : Store
  pub inflight : Inflight
  pub audit : List Applied

pub record Env : Type 0 where
  pub sha256 : String → String
  pub lookup_addr : String → String
  pub answer : (addr : String) → Answer (List RosterMember)
  pub meanwhile : Syncer → Syncer

abbrev pub done : (sender : String) → Syncer → Syncer
done sender s = record s { inflight = leave sender s.inflight }

-- `rosterEqual`: the same ids and states in the same order.
unfoldable pub roster_equal : List RosterMember → List RosterMember → Bool
roster_equal [] [] = true
roster_equal [] (_ ∷ _) = false
roster_equal (_ ∷ _) [] = false
roster_equal (a ∷ rest_a) (b ∷ rest_b) =
    let rest = roster_equal rest_a rest_b in
    if a.member_id == b.member_id && a.state == b.state then rest else false

-- What follows the attempt to save the merged roster.
unfoldable pub finish :
    Syncer → (sender : String) → (merged : List RosterMember) → Store × Option StoreError → Syncer
finish s sender merged (store, some _) = record s { store = store }
finish s sender merged (store, none) = record s {
  store = store;
  audit = s.audit ++ record { from_peer = sender; entries = length merged } ∷ [];
}

-- The merged roster is saved if it differs.
unfoldable pub apply : Syncer → (sender : String) → (old : Clan) → List RosterMember → Syncer
apply s sender old fetched =
    let merged = merge_roster_states old.roster fetched in
    if roster_equal merged old.roster
    then s
    else finish s sender merged (save_clan (record old { roster = merged }) s.store)

unfoldable pub ask : Env → Syncer → (sender addr : String) → (old : Clan) → Syncer
ask e s sender addr old =
    let t = e.meanwhile (record s { inflight = enter sender s.inflight }) in
    elim (fetch (e.answer addr)) [
      | none ↦ done sender t
      | some fetched ↦ done sender (apply t sender old fetched)
    ]

-- The state, and whether a fetch was tried.
unfoldable pub maybe_sync : Env → Syncer → (sender their_digest : String) → Syncer × Bool
maybe_sync e s sender their_digest =
    let addr = e.lookup_addr sender in
    if their_digest == "" then (s, false) else elim (load_clan s.store) [
      | err _ ↦ (s, false)
      | ok none ↦ (s, false)
      | ok (some old) ↦
          if roster_digest e.sha256 old.roster == their_digest
          then (s, false)
          else if busy sender s.inflight
          then (s, false)
          else if addr == ""
          then (done sender (record s { inflight = enter sender s.inflight }), false)
          else (ask e s sender addr old, true)
    ]

-- GET /clan/roster: the status and the roster.
unfoldable pub handle_list : Store → ℕ × List RosterMember
handle_list store = elim (load_clan store) [
  | err _ ↦ (500, [])
  | ok none ↦ (200, [])
  | ok (some clan) ↦ (200, clan.roster)
]
