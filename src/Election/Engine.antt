-- ===== src/Election/Engine.antt =====
-- src/cland/internal/election/engine.go: the tick, the heartbeats, the election, and the receipt of
-- a heartbeat. A `Node` is what the engine reads and writes: the state, the store, the registry and
-- its two counters. An `Env` is what the world supplies during one call: the tick's time, a reading
-- of the clock for all else, what the closures in `EngineOpts` return, and the answer of each peer to
-- a POST, `none` for a failure to deliver. The lock is free while the engine posts; what other
-- requests then do to the node is the function `others`. Logging and auditing are left out.
use minti.Base.{
  ℕ, ◌+◌, ◌%◌, ◌^◌, String, Bool, false, not, ◌&&◌, ◌||◌, List, [], ◌∷◌, Option, none, some, ◌==◌,
  if◌then◌else◌, ltb, leb, eqb, Result, ok, err, is_some,
}
use minti.Clan.{Clan, Revocations, Store, StoreError, load_clan, save_clan, load_revocations}
use minti.Clan.RevocationList.{digest}
use minti.Clan.RosterMerge.{roster_digest}
use minti.Peers.{Registry, Member, snapshot_members, touch_live}
use minti.Election.{
  State, Heartbeat, ApplyResult, ElectionError, sender_mismatch, foreign_clan, set_scribe,
  apply_heartbeat, commit_self_election, lease_silent, i_am_orchestrator, append_history,
}
use minti.Election.Select.{LocalCandidate, select_candidate, select_scribe, quorum, active_roster}

-- The parts of `EngineOpts` that are values.
pub record Options : Type 0 where
  pub self_id : String
  pub clan_id : String
  pub lease_duration : ℕ
  pub failover_grace : ℕ

pub record Node : Type 0 where
  pub state : State
  pub store : Store
  pub registry : Registry
  pub heartbeats_sent : ℕ
  pub elections_run : ℕ

pub record Env : Type 0 where
  pub now : ℕ
  pub clock : ℕ
  pub local_self : LocalCandidate
  pub healthy : Bool
  pub memory_digest : Option String
  pub sha256 : String → String
  pub post : Heartbeat → Member → Option ℕ
  pub others : Node → Node
  pub on_self_elected : Store → Store

-- The defaults of `NewEngine`; a duration that is not positive is 0 here.
unfoldable pub or_default : ℕ → ℕ → ℕ
or_default d n = if eqb n 0 then d else n

abbrev pub lease_default : ℕ
lease_default = 8_000_000_000

abbrev pub grace_default : ℕ
grace_default = 6_000_000_000

unfoldable pub new_options : (self_id clan_id : String) (lease grace : ℕ) → Option Options
unfolding or_default
new_options self_id clan_id lease grace =
    if self_id == ""
    then none
    else if clan_id == ""
    then none
    else some (record {
      self_id = self_id;
      clan_id = clan_id;
      lease_duration = or_default lease_default lease;
      failover_grace = or_default grace_default grace;
    })

-- A store's answer, with an error as the nil that the callers test for beside it.
unfoldable pub clan_or_none : Result StoreError (Option Clan) → Option Clan
clan_or_none (ok c) = c
clan_or_none (err e) = none

-- `persistTermAndOrch`; its error is only logged.
unfoldable pub persist_term_and_orch : ℕ → String → Store → Store
unfolding clan_or_none
persist_term_and_orch term orch st = elim (clan_or_none (load_clan st)) [
  | none ↦ st
  | some c ↦
      if eqb c.current_term term && c.current_orchestrator == orch
      then st
      else (save_clan (record c { current_term = term; current_orchestrator = orch }) st).0
]

unfoldable pub persist_scribe : String → Store → Store
unfolding clan_or_none
persist_scribe scribe st = elim (clan_or_none (load_clan st)) [
  | none ↦ st
  | some c ↦
      if c.current_scribe == scribe
      then st
      else (save_clan (record c { current_scribe = scribe }) st).0
]

-- `State.SetScribe`, and `persistScribe` if that changed it.
unfoldable pub adopt_scribe : String → Node → Node
adopt_scribe scribe n =
    let (s, changed) = set_scribe scribe n.state in
    record n { state = s; store = if changed then persist_scribe scribe n.store else n.store }

unfoldable pub refresh_scribe : Env → Clan → Node → Node × String
refresh_scribe env clan n =
    let c = select_scribe (some clan) env.local_self env.clock (snapshot_members n.registry) in
    (adopt_scribe c.member_id n, c.member_id)

unfoldable pub revocations_digest_of : (String → String) → Result StoreError Revocations → String
revocations_digest_of sha256 (ok r) = digest sha256 r
revocations_digest_of sha256 (err e) = ""

unfoldable pub string_or_empty : Option String → String
string_or_empty none = ""
string_or_empty (some s) = s

-- The heartbeat that both `emitHeartbeats` and `runElection` fill in, before its scribe.
unfoldable pub make_heartbeat : Options → Env → ℕ → LocalCandidate → Clan → Store → Heartbeat
unfolding revocations_digest_of string_or_empty
make_heartbeat o env term cand clan st = record {
  member_id = o.self_id;
  clan_id = o.clan_id;
  term = term;
  lease_until = env.now + o.lease_duration;
  reasoning_score = cand.reasoning_score;
  active_roster = active_roster (some clan);
  revocations_digest = revocations_digest_of env.sha256 (load_revocations st);
  roster_digest = roster_digest env.sha256 clan.roster;
  memory_digest = string_or_empty env.memory_digest;
  scribe = "";
}

unfoldable pub is_ok_status : Option ℕ → ℕ
is_ok_status none = 0
is_ok_status (some status) = if eqb status 200 then 1 else 0

delivered : Option ℕ → ℕ
delivered none = 0
delivered (some status) = 1

-- The loop over the members: the registry with the delivered ones touched, the number of 200
-- answers, and the number of deliveries.
unfoldable pub post_all : Options → Env → Heartbeat → List Member → Registry → Registry × ℕ × ℕ
unfolding is_ok_status delivered
post_all o env hb [] r = (r, 0, 0)
post_all o env hb (m ∷ ms) r =
    let answer = if m.member_id == o.self_id then none else env.post hb m in
    let (r', oks, sent) =
      post_all o env hb ms (if is_some answer then touch_live m.member_id env.clock r else r) in
    (r', oks + is_ok_status answer, sent + delivered answer)

unfoldable pub commit : Options → Env → ℕ → String → Node → Node × ApplyResult
commit o env term reason n =
    let (s, res) = commit_self_election term reason env.now o.lease_duration n.state in
    (record n { state = s }, res)

-- The heartbeat as it is sent, with the scribe that `refreshScribe` returns.
unfoldable pub announcement : Options → Env → ℕ → LocalCandidate → Clan → Node → Heartbeat
announcement o env term cand clan n = record (make_heartbeat o env term cand clan n.store) {
  scribe = (refresh_scribe env clan n).1;
}

-- The node after the scribe is refreshed and the heartbeat sent, the number of 200 answers, and the
-- number of deliveries.
unfoldable pub announce : Options → Env → Heartbeat → Clan → Node → Node × ℕ × ℕ
announce o env hb clan n =
    let n₁ = (refresh_scribe env clan n).0 in
    let (r, oks, sent) = post_all o env hb (snapshot_members n₁.registry) n₁.registry in
    (record n₁ { registry = r }, oks, sent)

-- With nobody to send to, only the lease is renewed; else it is renewed when all is sent.
unfoldable pub renew : Options → Env → ℕ → Heartbeat → Clan → List Member → Node → Node
renew o env term hb clan [] n = (commit o env term "bootstrap" (refresh_scribe env clan n).0).0
renew o env term hb clan (m ∷ ms) n =
    let (n₂, oks, sent) = announce o env hb clan n in
    (commit o env term "bootstrap"
      (env.others (record n₂ { heartbeats_sent = n₂.heartbeats_sent + sent }))).0

unfoldable pub emit_heartbeats : Options → Env → ℕ → Node → Node
unfolding clan_or_none renew
emit_heartbeats o env term n = elim (clan_or_none (load_clan n.store)) [
  | none ↦ n
  | some clan ↦
      renew o env term (announcement o env term env.local_self clan n) clan
        (snapshot_members n.registry) n
]

abbrev pub u64 : ℕ → ℕ
u64 n = n % 2 ^ 64

-- What follows once the announcements are answered.
unfoldable pub settle_election :
    Options → Env → (term : ℕ) (reason : String) (accepts needed : ℕ) → Node → Node
settle_election o env term reason accepts needed n =
    if leb needed accepts
    then (let (n', res) = commit o env term reason n in
        let st =
          if res.term_changed || res.orch_changed
          then persist_term_and_orch term o.self_id n'.store
          else n'.store in
        record n' { store = env.on_self_elected st })
    else record n {
      state =
          append_history
            (record { term = term; winner = ""; reason = "split_brain_retry"; at = env.now })
            n.state;
    }

-- The candidate's own part, once the selection has fallen on it.
unfoldable pub stand : Options → Env → ℕ → LocalCandidate × String → Clan → Node → Node
stand o env current_term (cand, reason) clan n =
    let new_term = u64 (current_term + 1) in
    let (n₁, oks, sent) = announce o env (announcement o env new_term cand clan n) clan n in
    settle_election o env new_term reason (1 + oks) (quorum clan) (env.others n₁)

unfoldable pub run_election : Options → Env → ℕ → Node → Node
unfolding clan_or_none
run_election o env current_term n₀ =
    let n = record n₀ { elections_run = n₀.elections_run + 1 } in
    elim (clan_or_none (load_clan n.store)) [
      | none ↦ n
      | some clan ↦
          let chosen =
            select_candidate (some clan) env.local_self env.clock (snapshot_members n.registry) in
          if chosen.0.member_id == ""
          then n
          else if not (chosen.0.member_id == o.self_id)
          then n
          else stand o env current_term chosen clan n
    ]

-- Whether the selection on the present registry names somebody else, so that the lease is vacated.
unfoldable pub prefers_other : Options → Env → Node → Bool
unfolding clan_or_none
prefers_other o env n = elim (clan_or_none (load_clan n.store)) [
  | none ↦ false
  | some clan ↦
      let (cand, reason) =
        select_candidate (some clan) env.local_self env.clock (snapshot_members n.registry) in
      not (cand.member_id == "") && not (cand.member_id == o.self_id)
]

-- `now.Sub(StartedAt) < FailoverGrace`
unfoldable pub within_grace : Options → Env → State → Bool
within_grace o env s = ltb env.now (s.started_at + o.failover_grace)

unfoldable pub tick : Options → Env → Node → Node
tick o env n =
    if i_am_orchestrator env.now n.state
    then (if prefers_other o env n
        then n
        else if env.healthy
        then emit_heartbeats o env n.state.current_term n
        else n)
    else if within_grace o env n.state
    then n
    else if not (lease_silent env.now o.failover_grace n.state)
    then n
    else run_election o env n.state.current_term n

unfoldable pub acceptable_sender : Env → String → Node → Bool
unfolding clan_or_none
acceptable_sender env sender n = elim (clan_or_none (load_clan n.store)) [
  | none ↦ false
  | some clan ↦
      (select_candidate (some clan) env.local_self env.clock
        (snapshot_members n.registry)).0.member_id
      == sender
]

-- What follows an accepted heartbeat.
unfoldable pub after_accept : Env → Heartbeat → String → ApplyResult → Node → Node
after_accept env hb sender res n =
    let st =
      if res.term_changed || res.orch_changed
      then persist_term_and_orch res.new_term res.new_orch n.store
      else n.store in
    adopt_scribe hb.scribe
      (record n { registry = touch_live sender env.clock n.registry; store = st })

unfoldable pub on_heartbeat_received :
    Options → Env → Heartbeat → String → Node → Node × Result ElectionError ApplyResult
on_heartbeat_received o env hb sender n =
    if not (hb.member_id == sender)
    then (n, err sender_mismatch)
    else if not (hb.clan_id == o.clan_id)
    then (n, err foreign_clan)
    else (let (s, res) =
          apply_heartbeat hb env.now o.lease_duration (acceptable_sender env sender n) n.state in
        elim res [
          | err e ↦ (record n { state = s }, err e)
          | ok a ↦ (after_accept env hb sender a (record n { state = s }), ok a)
        ])
