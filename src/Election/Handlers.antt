-- ===== src/Election/Handlers.antt =====
-- src/cland/internal/election/handlers.go: the HTTP endpoints. A request that does not decode is
-- `none`; a response is its status and its body.
use minti.Base.{
  ℕ, String, Bool, true, false, not, ◌&&◌, List, Option, none, some, ◌==◌, if◌then◌else◌, Result,
  ok, err,
}
use minti.Clan.{Clan, Store, StoreError, load_clan, save_clan}
use minti.Peers.{snapshot_members}
use minti.Election.{Heartbeat, HistoryEntry, ElectionError, term_stale, anti_spoof}
use minti.Election.Select.{select_candidate}
use minti.Election.Engine.{Options, Node, Env, on_heartbeat_received}

pub record HeartbeatAck : Type 0 where
  pub accepted : Bool
  pub term_changed : Bool
  pub orch_changed : Bool
  pub memory_digest : String

pub data HeartbeatBody : Type 0 where
  decode_error : HeartbeatBody
  no_sender : HeartbeatBody
  refused : ElectionError → (expected_orchestrator : String) → HeartbeatBody
  ack : HeartbeatAck → HeartbeatBody

-- `MaybeSync` of one of the three syncers, on the sender and its digest; `none` where it is nil.
abbrev pub Syncer : Type 0
Syncer = Option (String → String → Node → Node)

pub record Syncers : Type 0 where
  pub revocations : Syncer
  pub roster : Syncer
  pub memory : Syncer

unfoldable pub run_syncer : Syncer → String → String → Node → Node
run_syncer none sender digest n = n
run_syncer (some sync) sender digest n = if digest == "" then n else sync sender digest n

unfoldable pub sync_all : Syncers → Heartbeat → String → Node → Node
sync_all s hb sender n = run_syncer s.memory sender hb.memory_digest (
    run_syncer s.roster sender hb.roster_digest
      (run_syncer s.revocations sender hb.revocations_digest n))

-- Whom the receiver would have expected, for the answer to a spoof.
expected : Env → Node → String
expected env n = elim (load_clan n.store) [
  | err e ↦ ""
  | ok c ↦ elim c [
    | none ↦ ""
    | some clan ↦
        (select_candidate (some clan) env.local_self env.clock
          (snapshot_members n.registry)).0.member_id
  ]
]

refuse : Env → Node → ElectionError → ℕ × HeartbeatBody
unfolding expected
refuse env n anti_spoof = (409, refused anti_spoof (expected env n))
refuse env n term_stale = (409, refused term_stale "")
refuse env n e = (400, refused e "")

memory_digest_of : Option String → String
memory_digest_of none = ""
memory_digest_of (some d) = d

unfoldable pub handle_heartbeat :
    Options → Env → Syncers → Option Heartbeat → String → Node → Node × ℕ × HeartbeatBody
unfolding refuse memory_digest_of
handle_heartbeat o env syncers none sender n = (n, 400, decode_error)
handle_heartbeat o env syncers (some hb) sender n =
    if sender == ""
    then (n, 401, no_sender)
    else (let (n', res) = on_heartbeat_received o env hb sender n in
        elim res [
          | err e ↦ let (status, body) = refuse env n' e in (n', status, body)
          | ok a ↦ (
            sync_all syncers hb sender n',
            200,
            ack (record {
              accepted = a.accepted;
              term_changed = a.term_changed;
              orch_changed = a.orch_changed;
              memory_digest = memory_digest_of env.memory_digest;
            }),
          )
        ])

pub record OrchestratorResponse : Type 0 where
  pub current_orchestrator : String
  pub current_term : ℕ
  pub lease_expires : ℕ
  pub self : String
  pub is_self : Bool

unfoldable pub handle_orchestrator : Node → ℕ × OrchestratorResponse
handle_orchestrator n = (
  200,
  record {
    current_orchestrator = n.state.current_orchestrator;
    current_term = n.state.current_term;
    lease_expires = n.state.lease_expires;
    self = n.state.self_id;
    is_self = n.state.current_orchestrator == n.state.self_id;
  },
)

unfoldable pub handle_history : Node → ℕ × List HistoryEntry
handle_history n = (200, n.state.history)

-- The answer of a pin endpoint, `none` for an error body; with it, whether `Bump` is called.
abbrev pub PinAnswer : Type 0
PinAnswer = Store × ℕ × Option Bool × Bool

unfoldable pub bool_eq : Bool → Bool → Bool
bool_eq true b = b
bool_eq false b = not b

-- The common course of the two pin endpoints, for the flag that `get` reads and `put` writes.
unfoldable pub pin_flag : (Clan → Bool) → (Bool → Clan → Clan) → Option Bool → Store → PinAnswer
pin_flag get put none st = (st, 400, none, false)
pin_flag get put (some value) st = elim (load_clan st) [
  | err e ↦ (st, 500, none, false)
  | ok c ↦ elim c [
    | none ↦ (st, 500, none, false)
    | some clan ↦
        if bool_eq (get clan) value
        then (st, 200, some (get clan), false)
        else (let (st', failed) = save_clan (put value clan) st in
            elim failed [ some e ↦ (st', 500, none, false) | none ↦ (st', 200, some value, true) ])
  ]
]

unfoldable pub handle_pin : Option Bool → Store → PinAnswer
handle_pin = pin_flag (λ c. c.pinned_orchestrator) (λ v c. record c { pinned_orchestrator = v })

unfoldable pub handle_pin_scribe : Option Bool → Store → PinAnswer
handle_pin_scribe = pin_flag (λ c. c.pinned_scribe) (λ v c. record c { pinned_scribe = v })

pub record ScribeResponse : Type 0 where
  pub current_scribe : String
  pub self : String
  pub is_self : Bool
  pub pinned_scribe : Bool

pinned_scribe_in : Result StoreError (Option Clan) → Bool
pinned_scribe_in (err e) = false
pinned_scribe_in (ok c) = elim c [ none ↦ false | some clan ↦ clan.pinned_scribe ]

unfoldable pub handle_scribe : Node → ℕ × ScribeResponse
unfolding pinned_scribe_in
handle_scribe n = (
  200,
  record {
    current_scribe = n.state.current_scribe;
    self = n.state.self_id;
    is_self = not (n.state.current_scribe == "") && n.state.current_scribe == n.state.self_id;
    pinned_scribe = pinned_scribe_in (load_clan n.store);
  },
)
