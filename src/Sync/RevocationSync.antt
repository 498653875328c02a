-- ===== src/Sync/RevocationSync.antt =====
-- src/cland/internal/revocations/sync.go: `MaybeSync` and the handler of GET /clan/revocations. The store
-- is read before the fetch and written after it; `meanwhile` is what other goroutines do in between.
use minti.Base.{
  ℕ, String, Bool, true, false, List, [], ◌∷◌, ◌++◌, Option, none, some, ok, err, ◌==◌, ltb, length,
  if◌then◌else◌,
}
use minti.Clan.{Revocations, Store, StoreError, load_revocations, save_revocations}
use minti.Clan.RevocationList.{merge, digest}
use minti.Peers.{Registry, set_revocations}
use minti.Sync.{Answer, fetch, Inflight, busy, enter, leave}

-- The audit event of a sync that changed the list.
pub record Applied : Type 0 where
  pub from_peer : String
  pub prev_count : ℕ
  pub new_count : ℕ
  pub new_digest : String

pub record Syncer : Type 0 where
  pub store : Store
  pub registry : Registry
  pub inflight : Inflight
  pub audit : List Applied

-- `sha256` is hexadecimal already; an unknown address is "".
pub record Env : Type 0 where
  pub sha256 : String → String
  pub lookup_addr : String → String
  pub answer : (addr : String) → Answer Revocations
  pub meanwhile : Syncer → Syncer

abbrev pub done : (sender : String) → Syncer → Syncer
done sender s = record s { inflight = leave sender s.inflight }

-- What follows the attempt to save the merged list: the registry follows the file.
unfoldable pub finish :
    Env
    → Syncer
    → (sender : String) → (old merged : Revocations) → Store × Option StoreError
    → Syncer
finish e s sender old merged (store, some _) = record s { store = store }
finish e s sender old merged (store, none) = record s {
  store = store;
  registry = set_revocations merged.entries s.registry;
  audit =
      s.audit
      ++ record {
        from_peer = sender;
        prev_count = length old.entries;
        new_count = length merged.entries;
        new_digest = digest e.sha256 merged;
      }
        ∷ [];
}

-- The merged list is saved if it is longer.
unfoldable pub apply : Env → Syncer → (sender : String) → (old fetched : Revocations) → Syncer
apply e s sender old fetched =
    let merged = merge old fetched in
    if ltb (length old.entries) (length merged.entries)
    then finish e s sender old merged (save_revocations merged s.store)
    else s

-- The fetch and what follows it, for a sender whose address is known.
unfoldable pub ask : Env → Syncer → (sender addr : String) → (old : Revocations) → Syncer
ask e s sender addr old =
    let t = e.meanwhile (record s { inflight = enter sender s.inflight }) in
    elim (fetch (e.answer addr)) [
      | none ↦ done sender t
      | some fetched ↦ done sender (apply e t sender old fetched)
    ]

-- The state, and whether a fetch was tried.
unfoldable pub maybe_sync : Env → Syncer → (sender their_digest : String) → Syncer × Bool
maybe_sync e s sender their_digest =
    let addr = e.lookup_addr sender in
    if their_digest == "" then (s, false) else elim (load_revocations s.store) [
      | err _ ↦ (s, false)
      | ok old ↦
          if digest e.sha256 old == their_digest
          then (s, false)
          else if busy sender s.inflight
          then (s, false)
          else if addr == ""
          then (done sender (record s { inflight = enter sender s.inflight }), false)
          else (ask e s sender addr old, true)
    ]

-- GET /clan/revocations: the status and the list.
unfoldable pub handle_list : Store → ℕ × Option Revocations
handle_list store = elim (load_revocations store) [
  | err _ ↦ (500, none)
  | ok revocations ↦ (200, some revocations)
]
