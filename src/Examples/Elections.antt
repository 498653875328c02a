-- ===== src/Examples/Elections.antt =====
-- The theorems on the election, applied to sample nodes.
use minti.Base.{
  ℕ, true, false, some, [], ◌∷◌, ◌≡◌, ◌<◌, ◌+◌, ◌≢◌, ◌↔◌, ◌⊎◌, inl, inr, refl, ap, arith, leb→le,
  length, keep, In, sort_slice, insert_sorted, str_lt,
}
use minti.Clan.{load_clan}
use minti.Peers.{Member, snapshot_members, live}
use minti.Election.{
  sender_mismatch, apply_heartbeat, take_lease, result_of, push_history, i_am_orchestrator,
  set_scribe,
}
use minti.Election.Select.{
  select_candidate, candidates, gather, peer_candidate, reasoning_enabled, get_field, is_fresh,
  choose, first_or_zero, score_less, quorum, active_count, is_active_member, tie_less, reason_of,
  as_object, as_bool, admitted_in, admitted_at_from_roster,
}
use minti.Election.Engine.{
  Node, Env, acceptable_sender, on_heartbeat_received, after_accept, adopt_scribe, stand, tick,
  prefers_other, post_all, clan_or_none, is_ok_status,
}
use minti.Election.Persistence.{IsSynced, on_heartbeat_received-IsSynced}
use minti.Election.Rounds.{
  stand-decided, on_heartbeat_received-accepts, on_heartbeat_received-refuses, tick-renews,
}
use minti.Election.Votes.{quorum_counts, post_all-accepts, accepts_it}
use minti.Election.Choice.{select-order_free, select_candidate-best}
use minti.Examples.{clan, bob, registry, ann, node, options, calm, claim}

node-IsSynced : IsSynced node
node-IsSynced c e = (ground arith, ground arith)

on_heartbeat_received-IsSynced_example :
    IsSynced (on_heartbeat_received options calm claim "bob" node).0
on_heartbeat_received-IsSynced_example =
    on_heartbeat_received-IsSynced options calm claim "bob" node refl refl node-IsSynced

stand-decided_example :
    (stand options calm 4 (ann, "reasoning_score") clan node).state.current_orchestrator ≡ "ann"
unfolding quorum active_count is_active_member keep accepts_it snapshot_members is_ok_status
stand-decided_example =
    ((stand-decided options calm 4 (ann, "reasoning_score") clan node (λ m. refl)).0
      (leb→le (quorum clan) 2 refl)).1

on_heartbeat_received-accepts_example :
    (4 < 5) ⊎ (◌≡◌ {A = ℕ} 4 5 × (acceptable_sender calm "bob" node ≡ true))
unfolding on_heartbeat_received apply_heartbeat result_of take_lease push_history
on_heartbeat_received-accepts_example =
    (on_heartbeat_received-accepts options calm claim "bob" node _ refl).2

on_heartbeat_received-refuses_example :
    (on_heartbeat_received options calm claim "eve" node).0 ≡ node
unfolding on_heartbeat_received
on_heartbeat_received-refuses_example =
    on_heartbeat_received-refuses options calm claim "eve" node sender_mismatch refl

-- While the heartbeats are sent, Bob's claim comes in.
abbrev raced : Env
raced = record calm { others = λ n. (on_heartbeat_received options calm claim "bob" n).0 }

twice : (m : Member) → In m (bob ∷ bob ∷ []) ↔ In m (bob ∷ [])
twice m = (λ h. elim h [ inl p ↦ inl p | inr q ↦ q ], λ h. inr h)

some_candidate : candidates (some clan) ann 100 (bob ∷ []) ≢ []
unfolding candidates gather
some_candidate e = ground (arith, ap length e)

ann_prefers_nobody : prefers_other options raced node ≡ false
unfolding prefers_other clan_or_none load_clan select_candidate candidates gather peer_candidate
    reasoning_enabled as_object as_bool get_field is_fresh live choose first_or_zero sort_slice
    insert_sorted score_less tie_less reason_of snapshot_members keep str_lt admitted_at_from_roster
    admitted_in
ann_prefers_nobody = refl

quorum_counts_example : quorum clan + quorum clan ≡ 2
unfolding active_count is_active_member keep
quorum_counts_example = (quorum_counts clan 2 1 refl).4 refl

post_all-accepts_example :
    (post_all options calm claim (bob ∷ bob ∷ []) registry).1
    ≡ length (keep (accepts_it options calm claim) (bob ∷ bob ∷ []))
post_all-accepts_example = post_all-accepts options calm claim (bob ∷ bob ∷ []) registry

select-order_free_example :
    (select_candidate (some clan) ann 100 (bob ∷ bob ∷ [])).0.member_id
    ≡ (select_candidate (some clan) ann 100 (bob ∷ [])).0.member_id
select-order_free_example =
    (select-order_free (some clan) ann 100 (bob ∷ bob ∷ []) (bob ∷ []) twice).0

select_candidate-best_example :
    In
      (select_candidate (some clan) ann 100 (bob ∷ [])).0
      (candidates (some clan) ann 100 (bob ∷ []))
select_candidate-best_example =
    (select_candidate-best (some clan) ann 100 (bob ∷ []) some_candidate).0

claim_self : (k : Node) → (raced.others k).state.self_id ≡ k.state.self_id
unfolding on_heartbeat_received apply_heartbeat after_accept adopt_scribe set_scribe take_lease
    push_history
claim_self k = ground arith

tick-renews_example :
    ((tick options raced node).state.current_term ≡ 4)
    × ((tick options raced node).state.current_orchestrator ≡ "ann")
    × ((tick options raced node).state.lease_expires ≡ 108)
unfolding i_am_orchestrator load_clan snapshot_members
tick-renews_example =
    tick-renews options raced node clan bob [] refl ann_prefers_nobody refl refl refl claim_self
