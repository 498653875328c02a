-- ===== src/Sync.antt =====
-- The synchronisation of what members hold with the sender of a heartbeat:
-- src/cland/internal/revocations/sync.go, src/cland/internal/rostersync/sync.go and
-- src/cland/internal/memory/sync.go. What the three have in common.
pub mod RevocationSync
pub mod RosterSync
pub mod MemorySync
pub mod Settling
pub mod Overwriting
use minti.Base.{
  ℕ, String, Bool, true, false, List, [], Option, none, some, eqb, if◌then◌else◌, lookup, insert,
  delete, is_some,
}

-- What the HTTPS client gives for a GET: nothing on an error, else the status and what the body
-- decodes to, if it does.
abbrev pub Answer : Type 0 → Type 0
Answer A = Option (ℕ × Option A)

-- `fetch`: an error unless the status is 200 and the body decodes.
unfoldable pub fetch : {A : Type 0} → Answer A → Option A
fetch none = none
fetch (some (status, decoded)) = if eqb status 200 then decoded else none

-- The set `inflight` of the senders that are being asked.
abbrev pub Inflight : Type 0
Inflight = List (String × Bool)

abbrev pub busy : (sender : String) → Inflight → Bool
busy sender inflight = is_some (lookup sender inflight)

abbrev pub enter : (sender : String) → Inflight → Inflight
enter sender inflight = insert sender true inflight

-- The deferred `delete`.
abbrev pub leave : (sender : String) → Inflight → Inflight
leave sender inflight = delete sender inflight
