-- ===== src/Agent/Approvals.antt =====
-- src/cland/internal/agent/approvals.go: the approver whose decisions arrive on another request. A channel holds
-- at most one decision, and belongs to the call of `Await` that made it.
use minti.Base.{
  ℕ, suc, String, List, [], Option, none, some, Result, ok, err, eqb, if◌then◌else◌, ◌≡◌, lookup,
  insert, delete, map,
}
use minti.Agent.{Decision}

-- In nanoseconds.
abbrev default_approval_timeout : ℕ
default_approval_timeout = 120000000000

pub data ApprovalError : Type 0 where
  approval_timeout no_pending_approval cancelled : ApprovalError

-- `decisions` is what the channels hold.
pub record Approvals : Type 0 where
  pub pending : List (String × ℕ)
  pub decisions : ℕ → Option Decision
  pub next : ℕ
  pub timeout : ℕ

-- `NewChannelApprover`; 0 stands for a timeout that is not positive.
unfoldable pub new_channel_approver : (timeout : ℕ) → Approvals
new_channel_approver timeout = record {
  pending = [];
  decisions = λ channel. none;
  next = 0;
  timeout = if eqb timeout 0 then default_approval_timeout else timeout;
}

-- `Await` up to the point at which it blocks; the answer is its channel.
unfoldable pub await_begin : (call_id : String) → Approvals → Approvals × ℕ
await_begin call_id a =
    (record a { pending = insert call_id a.next a.pending; next = suc a.next }, a.next)

-- What ends the wait: a decision that was in the channel, the timer, or the context.
pub data Ending : Type 0 where
  decided : Decision → Ending
  timed_out context_done : Ending

unfoldable pub outcome : Ending → Result ApprovalError Decision
outcome (decided d) = ok d
outcome timed_out = err approval_timeout
outcome context_done = err cancelled

unfoldable pub await_end :
    (call_id : String) → Ending → Approvals → Approvals × Result ApprovalError Decision
await_end call_id ending a = (record a { pending = delete call_id a.pending }, outcome ending)

-- `Resolve` up to the release of its lock, and then its send; a full channel keeps what it holds.
unfoldable resolve_begin : (call_id : String) → Approvals → Result ApprovalError ℕ
resolve_begin call_id a = elim (lookup call_id a.pending) [
  | none ↦ err no_pending_approval
  | some channel ↦ ok channel
]

unfoldable pub send_to : Option Decision → (channel : ℕ) → Decision → Approvals → Approvals
send_to (some held) channel d a = a
send_to none channel d a = record a {
  decisions = λ asked. if eqb asked channel then some d else a.decisions asked;
}

unfoldable pub resolve_send : (channel : ℕ) → Decision → Approvals → Approvals
resolve_send channel d a = send_to (a.decisions channel) channel d a

unfoldable pending_ids : Approvals → List String
pending_ids a = map (λ entry. entry.0) a.pending

-- A decision ends the wait only if the channel of that wait holds it.
abbrev pub IsReady : (channel : ℕ) → Approvals → Ending → Type 0
IsReady channel a ending = (d : Decision) → ending ≡ decided d → a.decisions channel ≡ some d

-- What a request does while it holds the lock, or with the channel that it holds.
pub data Step : Approvals → Approvals → Type 0 where
  awaited : (call_id : String) (a : Approvals) → Step a (await_begin call_id a).0
  ended :
      (call_id : String) (channel : ℕ) (ending : Ending) (a : Approvals)
      → IsReady channel a ending
      → Step a (await_end call_id ending a).0
  resolved : (channel : ℕ) (d : Decision) (a : Approvals) → Step a (resolve_send channel d a)

pub data Steps : Approvals → Approvals → Type 0 where
  finished : (a : Approvals) → Steps a a
  step : (a b c : Approvals) → Step a b → Steps b c → Steps a c
