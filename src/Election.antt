-- ===== src/Election.antt =====
-- src/cland/internal/election/state.go: a daemon's view of the lease and of the election. A method
-- on `*State` holds the lock throughout, and returns the new state beside its result. A time is a
-- number of nanoseconds, 0 for Go's zero time.
pub mod Select
pub mod Engine
pub mod Handlers
pub mod Terms
pub mod Choice
pub mod Votes
pub mod Rounds
pub mod Persistence
use minti.Base.{
  ℕ, ◌+◌, ◌-◌, String, Bool, true, false, not, ◌&&◌, ◌||◌, List, [], ◌∷◌, ◌++◌, ◌==◌, if◌then◌else◌,
  ltb, leb, eqb, ℤ, length, drop, Result, ok, err,
}

pub data ElectionError : Type 0 where
  term_stale anti_spoof sender_mismatch foreign_clan : ElectionError

pub record Heartbeat : Type 0 where
  pub member_id : String
  pub clan_id : String
  pub term : ℕ  -- uint64
  pub lease_until : ℕ
  pub reasoning_score : ℤ
  pub active_roster : List String
  pub revocations_digest : String
  pub roster_digest : String
  pub memory_digest : String
  pub scribe : String

pub record HistoryEntry : Type 0 where
  pub term : ℕ
  pub winner : String
  pub reason : String
  pub at : ℕ

pub record State : Type 0 where
  pub self_id : String
  pub started_at : ℕ
  pub current_term : ℕ  -- uint64
  pub current_orchestrator : String
  pub lease_expires : ℕ
  pub current_scribe : String
  pub history : List HistoryEntry
  pub history_cap : ℕ

-- `now` is the reading of the clock; a cap of 0 (or below) means 32.
unfoldable pub new_state : (self_id : String) (term : ℕ) (orch : String) (cap now : ℕ) → State
new_state self_id term orch cap now = record {
  self_id = self_id;
  started_at = now;
  current_term = term;
  current_orchestrator = orch;
  lease_expires = 0;
  current_scribe = "";
  history = [];
  history_cap = if eqb cap 0 then 32 else cap;
}

-- `SetScribe`: whether the selection changed.
unfoldable pub set_scribe : String → State → State × Bool
set_scribe id s =
    if s.current_scribe == id then (s, false) else (record s { current_scribe = id }, true)

unfoldable pub seed_scribe : String → State → State
seed_scribe id s = record s { current_scribe = id }

unfoldable pub push_history : HistoryEntry → State → State
push_history e s =
    let grown = s.history ++ e ∷ [] in
    record s {
      history =
          if ltb s.history_cap (length grown)
          then drop (length grown - s.history_cap) grown
          else grown;
    }

pub record ApplyResult : Type 0 where
  pub accepted : Bool
  pub term_changed : Bool
  pub orch_changed : Bool
  pub new_term : ℕ
  pub new_orch : String

-- The fields that an accepted heartbeat and a won election both set.
unfoldable pub take_lease : (term : ℕ) (orch : String) (expires : ℕ) → State → State
take_lease term orch expires s = record s {
  current_term = term;
  current_orchestrator = orch;
  lease_expires = expires;
}

unfoldable pub result_of : (term : ℕ) (orch : String) → State → ApplyResult
result_of term orch s = record {
  accepted = true;
  term_changed = not (eqb term s.current_term);
  orch_changed = not (orch == s.current_orchestrator);
  new_term = term;
  new_orch = orch;
}

unfoldable pub apply_heartbeat :
    (hb : Heartbeat) (now lease_duration : ℕ) (acceptable : Bool)
    → State
    → State × Result ElectionError ApplyResult
apply_heartbeat hb now lease_duration acceptable s =
    if ltb hb.term s.current_term
    then (s, err term_stale)
    else if eqb hb.term s.current_term && not acceptable
    then (s, err anti_spoof)
    else (let res = result_of hb.term hb.member_id s in
        let t = take_lease hb.term hb.member_id (now + lease_duration) s in
        (
          if res.term_changed || res.orch_changed
              then push_history
                  (record {
                    term = hb.term;
                    winner = hb.member_id;
                    reason = "lease_expired";
                    at = now;
                  })
                  t
              else t,
          ok res,
        ))

unfoldable pub commit_self_election :
    (new_term : ℕ) (reason : String) (now lease_duration : ℕ) → State → State × ApplyResult
commit_self_election new_term reason now lease_duration s = (
  push_history (record { term = new_term; winner = s.self_id; reason = reason; at = now })
      (take_lease new_term s.self_id (now + lease_duration) s),
  result_of new_term s.self_id s,
)

unfoldable pub lease_silent : (now failover_grace : ℕ) → State → Bool
lease_silent now failover_grace s =
    if eqb s.lease_expires 0 then true else ltb (s.lease_expires + failover_grace) now

unfoldable pub i_am_orchestrator : (now : ℕ) → State → Bool
i_am_orchestrator now s =
    s.current_orchestrator == s.self_id && not (eqb s.lease_expires 0) && ltb now s.lease_expires

unfoldable pub append_history : HistoryEntry → State → State
append_history e s = push_history e s
