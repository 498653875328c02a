-- ===== src/Election/Persistence.antt =====
-- src/cland/internal/election/engine.go: what the store holds of the term and the Orchestrator.
use minti.Base.{
  ℕ, String, Bool, true, false, some, ◌≡◌, refl, sym, arith, ◌==◌, eq_iff, if◌then◌else◌, Result,
  ok, err, Option-cases, Bool-cases, inl, inr, ◌||◌, subst,
}
use minti.Clan.{Clan, Store, load_clan, save_clan}
use minti.Election.{
  State, Heartbeat, ApplyResult, apply_heartbeat, take_lease, push_history, result_of, set_scribe,
  ElectionError,
}
use minti.Peers.{touch_live}
use minti.Election.Engine.{
  Options, Node, Env, persist_term_and_orch, persist_scribe, adopt_scribe, acceptable_sender,
  on_heartbeat_received, after_accept,
}

-- The files can be read and written, and a clan on disk has this term and this Orchestrator.
record Holds (term : ℕ) (orch : String) (st : Store) : Type 0 where
  pub readable : st.clan_readable ≡ true
  pub writable : st.clan_writable ≡ true
  pub saved :
      (c : Clan) → st.clan_file ≡ some c → (c.current_term ≡ term) × (c.current_orchestrator ≡ orch)

persist_term_and_orch-Holds :
    (term : ℕ) (orch : String) (st : Store)
    → st.clan_readable ≡ true
    → st.clan_writable ≡ true
    → Holds term orch (persist_term_and_orch term orch st)
unfolding persist_term_and_orch load_clan save_clan
persist_term_and_orch-Holds term orch st r w = elim (Option-cases st.clan_file) [
  | inl absent ↦ record {
    readable = ground arith;
    writable = ground arith;
    saved = λ c e. (ground arith, ground arith);
  }
  | inr (d, present) ↦ record {
    readable = ground arith;
    writable = ground arith;
    saved = λ c e. (ground arith, ground (arith, eq_iff d.current_orchestrator orch));
  }
]

persist_scribe-Holds :
    (term : ℕ) (orch scribe : String) (st : Store)
    → Holds term orch st
    → Holds term orch (persist_scribe scribe st)
unfolding persist_scribe load_clan save_clan
persist_scribe-Holds term orch scribe st h = elim (Option-cases st.clan_file) [
  | inl absent ↦ record {
    readable = ground (arith, h.readable);
    writable = ground (arith, h.writable);
    saved = λ c e. (ground (arith, h.readable), ground (arith, h.readable));
  }
  | inr (d, present) ↦
      let held = h.saved d present in
      record {
        readable = ground (arith, h.readable, h.writable);
        writable = ground (arith, h.readable, h.writable);
        saved = λ c e. (
          ground (arith, h.readable, h.writable, held.0),
          ground (arith, h.readable, h.writable, held.1),
        );
      }
]

-- The store agrees with the state, and works.
abbrev HoldsState : Node → Type 0
HoldsState n = Holds n.state.current_term n.state.current_orchestrator n.store

adopt_scribe-HoldsState :
    (scribe : String) (n : Node) → HoldsState n → HoldsState (adopt_scribe scribe n)
unfolding adopt_scribe set_scribe
adopt_scribe-HoldsState scribe n h = elim (Bool-cases (n.state.current_scribe == scribe)) [
  | inl e ↦ rw e h
  | inr e ↦
      rw e (persist_scribe-Holds n.state.current_term n.state.current_orchestrator scribe n.store h)
]

-- The two fields after a lease is taken are those of the result, and unchanged if it says so.
pub record Reports (s t : State) (res : ApplyResult) : Type 0 where
  pub term : t.current_term ≡ res.new_term
  pub orch : t.current_orchestrator ≡ res.new_orch
  pub same_term : res.term_changed ≡ false → s.current_term ≡ res.new_term
  pub same_orch : res.orch_changed ≡ false → s.current_orchestrator ≡ res.new_orch

apply_heartbeat-Reports :
    (hb : Heartbeat) (now lease_duration : ℕ) (acceptable : Bool) (s : State) (res : ApplyResult)
    → (apply_heartbeat hb now lease_duration acceptable s).1 ≡ ok res
    → Reports s (apply_heartbeat hb now lease_duration acceptable s).0 res
unfolding apply_heartbeat take_lease push_history result_of
apply_heartbeat-Reports hb now lease_duration acceptable s res e = record {
  term = ground arith;
  orch = ground (arith, eq_iff s.current_orchestrator hb.member_id);
  same_term = λ q. ground arith;
  same_orch = λ q. ground (arith, eq_iff hb.member_id s.current_orchestrator);
}

stored-Holds :
    (s t : State) (res : ApplyResult) (st : Store)
    → Reports s t res
    → Holds s.current_term s.current_orchestrator st
    → Holds t.current_term t.current_orchestrator (
        if res.term_changed || res.orch_changed
        then persist_term_and_orch res.new_term res.new_orch st
        else st)
stored-Holds s t res st r h =
    rw (r.term, r.orch)
      (elim (Bool-cases res.term_changed) [
        | inl e ↦
            rw e (persist_term_and_orch-Holds res.new_term res.new_orch st h.readable h.writable)
        | inr e ↦ elim (Bool-cases res.orch_changed) [
          | inl f ↦
              rw (e, f)
                (persist_term_and_orch-Holds res.new_term res.new_orch st h.readable h.writable)
          | inr f ↦ rw (e, f, sym (r.same_term e), sym (r.same_orch f)) h
        ]
      ])

apply_heartbeat-refused :
    (hb : Heartbeat) (now lease_duration : ℕ) (acceptable : Bool) (s : State) (e : ElectionError)
    → (apply_heartbeat hb now lease_duration acceptable s).1 ≡ err e
    → s ≡ (apply_heartbeat hb now lease_duration acceptable s).0
unfolding apply_heartbeat
apply_heartbeat-refused hb now lease_duration acceptable s e h = ground arith

after_accept-HoldsState :
    (env : Env) (hb : Heartbeat) (sender : String) (res : ApplyResult) (t : State) (n : Node)
    → Reports n.state t res
    → HoldsState n
    → HoldsState (after_accept env hb sender res (record n { state = t }))
unfolding after_accept
after_accept-HoldsState env hb sender res t n r h =
    adopt_scribe-HoldsState hb.scribe
      (record n {
        state = t;
        registry = touch_live sender env.clock n.registry;
        store =
            if res.term_changed || res.orch_changed
            then persist_term_and_orch res.new_term res.new_orch n.store
            else n.store;
      })
      (stored-Holds n.state t res n.store r h)

-- The two ends of `OnHeartbeatReceived`.
answered-HoldsState :
    (env : Env) (hb : Heartbeat) (sender : String) (n : Node) (t : State)
    → (res : Result ElectionError ApplyResult) → ((e : ElectionError) → res ≡ err e → n.state ≡ t)
    → ((a : ApplyResult) → res ≡ ok a → Reports n.state t a)
    → HoldsState n
    → HoldsState
        (elim res as (λ r. Node × Result ElectionError ApplyResult) [
          | err e ↦ (record n { state = t }, err e)
          | ok a ↦ (after_accept env hb sender a (record n { state = t }), ok a)
        ]).0
answered-HoldsState env hb sender n t (err e) refused accepted h =
    subst (λ s. Holds s.current_term s.current_orchestrator n.store) (refused e refl) h
answered-HoldsState env hb sender n t (ok a) refused accepted h =
    after_accept-HoldsState env hb sender a t n (accepted a refl) h

received-HoldsState :
    (o : Options) (env : Env) (hb : Heartbeat) (sender : String) (n : Node)
    → HoldsState n
    → HoldsState (on_heartbeat_received o env hb sender n).0
unfolding on_heartbeat_received
received-HoldsState o env hb sender n h = elim (Bool-cases (hb.member_id == sender)) [
  | inr e ↦ rw e h
  | inl e ↦ elim (Bool-cases (hb.clan_id == o.clan_id)) [
    | inr f ↦ rw (e, f) h
    | inl f ↦
        rw (e, f)
          (let acceptable = acceptable_sender env sender n in
            let applied = apply_heartbeat hb env.now o.lease_duration acceptable n.state in
            answered-HoldsState env hb sender n applied.0 applied.1
              (apply_heartbeat-refused hb env.now o.lease_duration acceptable n.state)
              (apply_heartbeat-Reports hb env.now o.lease_duration acceptable n.state) h)
  ]
]

-- A clan on disk has the state's term and Orchestrator.
abbrev pub IsSynced : Node → Type 0
IsSynced n =
    (c : Clan)
    → n.store.clan_file ≡ some c
    → (c.current_term ≡ n.state.current_term)
      × (c.current_orchestrator ≡ n.state.current_orchestrator)

-- While clan.json can be read and written, a received heartbeat, accepted or refused, leaves the term and
-- the Orchestrator on disk equal to those of the state, if they were so before.
pub on_heartbeat_received-IsSynced :
    (o : Options) (env : Env) (hb : Heartbeat) (sender : String) (n : Node)
    → n.store.clan_readable ≡ true
    → n.store.clan_writable ≡ true
    → IsSynced n
    → IsSynced (on_heartbeat_received o env hb sender n).0
on_heartbeat_received-IsSynced o env hb sender n readable writable h =
    (received-HoldsState o env hb sender n
      (record { readable = readable; writable = writable; saved = h })).saved
