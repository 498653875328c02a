-- ===== src/Election/Rounds.antt =====
-- src/cland/internal/election/engine.go: what one tick, one election and one received heartbeat do.
use minti.Election.Votes.{accepts_it, post_all-accepts}
use minti.Base.{
  ℕ, ◌+◌, ◌≤◌, ◌<◌, String, true, false, List, ◌∷◌, some, ◌≡◌, refl, ◌≢◌, arith, eq_iff, length,
  keep, ◌⊎◌, ok, err, ap, ◌∙◌,
}
use minti.Clan.{Clan, load_clan}
use minti.Peers.{Member, snapshot_members}
use minti.Election.{
  State, Heartbeat, ApplyResult, ElectionError, lease_silent, i_am_orchestrator, apply_heartbeat,
  commit_self_election, push_history, take_lease, append_history, set_scribe,
}
use minti.Election.Select.{LocalCandidate, quorum}
use minti.Election.Engine.{
  Options, Node, Env, tick, emit_heartbeats, settle_election, commit, within_grace, prefers_other,
  acceptable_sender, on_heartbeat_received, refresh_scribe, adopt_scribe, announcement, announce,
  u64, stand, renew,
}

-- When a tick does nothing. A daemon that does not hold the lease does nothing in the startup grace,
-- and nothing until the lease has been silent for the failover grace. One that holds it does nothing
-- where it would rather see another in its place, and sends no heartbeat and renews no lease where
-- its runtime is unhealthy.
pub tick_idle :
    (o : Options) (env : Env) (n : Node)
    → (i_am_orchestrator env.now n.state ≡ false
        → env.now < n.state.started_at + o.failover_grace
        → tick o env n ≡ n)
      × (i_am_orchestrator env.now n.state ≡ false
          → n.state.lease_expires ≢ 0
          → env.now ≤ n.state.lease_expires + o.failover_grace
          → tick o env n ≡ n)
      × (i_am_orchestrator env.now n.state ≡ true → prefers_other o env n ≡ true → tick o env n ≡ n)
      × (i_am_orchestrator env.now n.state ≡ true → env.healthy ≡ false → tick o env n ≡ n)
unfolding tick within_grace lease_silent
tick_idle o env n =
    (λ h k. ground arith, λ h k l. ground arith, λ h k. ground arith, λ h k. ground arith)

-- A heartbeat is accepted only from the member that it names, only in this clan, and only with a
-- newer term, or with the current one from the member that the receiver itself would select.
pub on_heartbeat_received-accepts :
    (o : Options) (env : Env) (hb : Heartbeat) (sender : String) (n : Node) (a : ApplyResult)
    → (on_heartbeat_received o env hb sender n).1 ≡ ok a
    → (hb.member_id ≡ sender)
      × (hb.clan_id ≡ o.clan_id)
      × ((n.state.current_term < hb.term)
          ⊎ ((n.state.current_term ≡ hb.term) × (acceptable_sender env sender n ≡ true)))
unfolding on_heartbeat_received apply_heartbeat
on_heartbeat_received-accepts o env hb sender n a h =
    ground (arith, eq_iff hb.member_id sender, eq_iff hb.clan_id o.clan_id)

-- A heartbeat that is refused changes nothing: not the state, the store or the registry.
pub on_heartbeat_received-refuses :
    (o : Options) (env : Env) (hb : Heartbeat) (sender : String) (n : Node) (e : ElectionError)
    → (on_heartbeat_received o env hb sender n).1 ≡ err e
    → (on_heartbeat_received o env hb sender n).0 ≡ n
unfolding on_heartbeat_received apply_heartbeat
on_heartbeat_received-refuses o env hb sender n e h = ground arith

announce-accepts :
    (o : Options) (env : Env) (hb : Heartbeat) (clan : Clan) (n : Node)
    → (announce o env hb clan n).1
      ≡ length (keep (accepts_it o env hb) (snapshot_members n.registry))
unfolding announce refresh_scribe adopt_scribe snapshot_members
announce-accepts o env hb clan n =
    post_all-accepts o env hb (snapshot_members n.registry) n.registry

announce-state :
    (o : Options) (env : Env) (hb : Heartbeat) (clan : Clan) (n : Node)
    → ((announce o env hb clan n).0.state.current_term ≡ n.state.current_term)
      × ((announce o env hb clan n).0.state.current_orchestrator ≡ n.state.current_orchestrator)
      × ((announce o env hb clan n).0.state.lease_expires ≡ n.state.lease_expires)
      × ((announce o env hb clan n).0.state.self_id ≡ n.state.self_id)
unfolding announce refresh_scribe adopt_scribe set_scribe
announce-state o env hb clan n = (ground arith, ground arith, ground arith, ground arith)

-- How an election in which the daemon stands itself ends, if no other request changes its state in
-- the meantime. It announces the next term. With its own vote and the 200 answers from the members
-- of the live registry it reaches the quorum, and is Orchestrator at that term with a lease of its
-- own; or it does not, and its term, its Orchestrator and its lease stay as they were.
pub stand-decided :
    (o : Options) (env : Env) (term : ℕ) (chosen : LocalCandidate × String) (clan : Clan) (n : Node)
    → ((m : Node) → (env.others m).state ≡ m.state)
    → let hb = announcement o env (u64 (term + 1)) chosen.0 clan n in
      let accepts = 1 + length (keep (accepts_it o env hb) (snapshot_members n.registry)) in
      let s = (stand o env term chosen clan n).state in
      (quorum clan ≤ accepts
        → (s.current_term ≡ u64 (term + 1))
          × (s.current_orchestrator ≡ n.state.self_id)
          × (s.lease_expires ≡ env.now + o.lease_duration))
      × (accepts < quorum clan
          → (s.current_term ≡ n.state.current_term)
            × (s.current_orchestrator ≡ n.state.current_orchestrator)
            × (s.lease_expires ≡ n.state.lease_expires))
unfolding stand settle_election commit commit_self_election take_lease push_history append_history
stand-decided o env term chosen clan n quiet =
    let hb = announcement o env (u64 (term + 1)) chosen.0 clan n in
    let k = announce-accepts o env hb clan n in
    let same = announce-state o env hb clan n in
    let calm = quiet (announce o env hb clan n).0 in
    (
      λ h. (ground arith, ground arith, ground arith),
      λ h. (ground arith, ground arith, ground arith),
    )

tick-emits :
    (o : Options) (env : Env) (n : Node)
    → i_am_orchestrator env.now n.state ≡ true
    → prefers_other o env n ≡ false
    → env.healthy ≡ true
    → tick o env n ≡ emit_heartbeats o env n.state.current_term n
unfolding tick
tick-emits o env n holds alone healthy = ground arith

emit-renew :
    (o : Options) (env : Env) (term : ℕ) (n : Node) (clan : Clan) (ms : List Member)
    → load_clan n.store ≡ ok (some clan)
    → snapshot_members n.registry ≡ ms
    → emit_heartbeats o env term n
      ≡ renew o env term (announcement o env term env.local_self clan n) clan ms n
unfolding emit_heartbeats
emit-renew o env term n clan ms loaded members =
    rw (loaded, emit_heartbeats)
      (ap (λ l. renew o env term (announcement o env term env.local_self clan n) clan l n) members)

-- What `others` finds when the heartbeats are sent.
during : Options → Env → Heartbeat → Clan → Node → Node
during o env hb clan n =
    let (n₂, oks, sent) = announce o env hb clan n in
    record n₂ { heartbeats_sent = n₂.heartbeats_sent + sent }

during_self :
    (o : Options) (env : Env) (hb : Heartbeat) (clan : Clan) (n : Node)
    → (during o env hb clan n).state.self_id ≡ n.state.self_id
unfolding during
during_self o env hb clan n = (announce-state o env hb clan n).3

renew-state :
    (o : Options) (env : Env) (term : ℕ) (hb : Heartbeat) (clan : Clan) (m : Member)
    (ms : List Member) (n : Node)
    → (renew o env term hb clan (m ∷ ms) n).state
      ≡ (commit_self_election term "bootstrap" env.now o.lease_duration
          (env.others (during o env hb clan n)).state).0
unfolding renew commit during
renew-state o env term hb clan m ms n = refl

commit-fields :
    (term : ℕ) (reason : String) (now lease : ℕ) (s : State)
    → ((commit_self_election term reason now lease s).0.current_term ≡ term)
      × ((commit_self_election term reason now lease s).0.current_orchestrator ≡ s.self_id)
      × ((commit_self_election term reason now lease s).0.lease_expires ≡ now + lease)
unfolding commit_self_election take_lease push_history
commit-fields term reason now lease s = (refl, refl, refl)

-- A daemon that holds the lease, would see no other in its place, is healthy, can read its clan and
-- lists a member ends its tick as Orchestrator with the term that it read before the heartbeats were
-- sent and with a new lease, whatever other requests do to the node while they are sent, the acceptance
-- of a newer term included, as long as they leave the node its own id.
pub tick-renews :
    (o : Options) (env : Env) (n : Node) (clan : Clan) (m : Member) (ms : List Member)
    → i_am_orchestrator env.now n.state ≡ true
    → prefers_other o env n ≡ false
    → env.healthy ≡ true
    → load_clan n.store ≡ ok (some clan)
    → snapshot_members n.registry ≡ m ∷ ms
    → ((k : Node) → (env.others k).state.self_id ≡ k.state.self_id)
    → ((tick o env n).state.current_term ≡ n.state.current_term)
      × ((tick o env n).state.current_orchestrator ≡ n.state.self_id)
      × ((tick o env n).state.lease_expires ≡ env.now + o.lease_duration)
tick-renews o env n clan m ms holds alone healthy loaded members named =
    let term = n.state.current_term in
    let sent = announcement o env term env.local_self clan n in
    let start = during o env sent clan n in
    let path : (tick o env n).state
        ≡ (commit_self_election term "bootstrap" env.now o.lease_duration
            (env.others start).state).0 =
      ap (λ k. k.state)
        (tick-emits o env n holds alone healthy
          ∙ emit-renew o env term n clan (m ∷ ms) loaded members)
      ∙ renew-state o env term sent clan m ms n in
    let fields = commit-fields term "bootstrap" env.now o.lease_duration (env.others start).state in
    (
      ap (λ s. s.current_term) path ∙ fields.0,
      ap (λ s. s.current_orchestrator) path
          ∙ fields.1
          ∙ named start
          ∙ during_self o env sent clan n,
      ap (λ s. s.lease_expires) path ∙ fields.2,
    )
