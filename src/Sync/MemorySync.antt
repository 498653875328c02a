-- ===== src/Sync/MemorySync.antt =====
-- src/cland/internal/memory/sync.go: `MaybeSync` of the shared graph. The merge runs in the service, on
-- the graph as it is after the fetch; `meanwhile` is what other goroutines do during it.
use minti.Base.{ℕ, String, Bool, true, false, Option, none, some, ◌==◌, ltb, eqb, if◌then◌else◌}
use minti.Memory.{Graph, Encoding}
use minti.Memory.Service.{Service, apply_remote}
use minti.Sync.{Inflight, busy, enter, leave}

abbrev pub max_fetch_bytes : ℕ
max_fetch_bytes = 4194304

pub record Syncer : Type 0 where
  pub service : Service
  pub inflight : Inflight

-- An answer: the status, the length of the body, and what it decodes to.
pub record Response : Type 0 where
  pub status : ℕ
  pub length : ℕ
  pub graph : Option Graph

pub record Env : Type 0 where
  pub lookup_addr : String → String
  pub answer : (addr : String) → Option Response
  pub meanwhile : Syncer → Syncer

abbrev pub done : (sender : String) → Syncer → Syncer
done sender s = record s { inflight = leave sender s.inflight }

-- `fetch`: a body longer than the guard is refused.
unfoldable pub fetch : Option Response → Option Graph
fetch none = none
fetch (some r) =
    if eqb r.status 200 then (if ltb max_fetch_bytes r.length then none else r.graph) else none

unfoldable pub ask : Encoding → Env → Syncer → (sender addr : String) → Syncer
ask c e s sender addr =
    let t = e.meanwhile (record s { inflight = enter sender s.inflight }) in
    elim (fetch (e.answer addr)) [
      | none ↦ done sender t
      | some remote ↦
          done sender (record t { service = (apply_remote c t.service (some remote) sender).0 })
    ]

-- The state, and whether a fetch was tried.
unfoldable pub maybe_sync : Encoding → Env → Syncer → (sender their_digest : String) → Syncer × Bool
maybe_sync c e s sender their_digest =
    let addr = e.lookup_addr sender in
    if their_digest == ""
    then (s, false)
    else if s.service.digest == their_digest
    then (s, false)
    else if busy sender s.inflight
    then (s, false)
    else if addr == ""
    then (done sender (record s { inflight = enter sender s.inflight }), false)
    else (ask c e s sender addr, true)
