-- ===== src/Election/Terms.antt =====
-- src/cland/internal/election/state.go: how the term moves, and the bound of the history.
use minti.Base.{
  ℕ, ◌+◌, ◌-◌, ◌≤◌, ◌<◌, zero, suc, Bool, true, false, List, [], ◌∷◌, ◌++◌, ◌≡◌, refl, ◌⊎◌, arith,
  length, drop, ok, err,
}
use minti.Election.{
  State, Heartbeat, HistoryEntry, term_stale, anti_spoof, push_history, take_lease, result_of,
  apply_heartbeat,
}

-- `push_history` changes the history alone.
push_history_keeps :
    (e : HistoryEntry) (s : State)
    → ((push_history e s).current_term ≡ s.current_term)
      × ((push_history e s).current_orchestrator ≡ s.current_orchestrator)
      × ((push_history e s).lease_expires ≡ s.lease_expires)
      × ((push_history e s).self_id ≡ s.self_id)
      × ((push_history e s).history_cap ≡ s.history_cap)
unfolding push_history
push_history_keeps e s = (refl, refl, refl, refl, refl)

-- All three outcomes of `ApplyHeartbeat`. A heartbeat is refused as stale exactly if its term lies
-- below the current one, and as a spoof exactly if it has the current term and its sender is not
-- acceptable; either way the state stays as it was. Otherwise its sender becomes Orchestrator at its
-- term, with a lease that runs from the receiver's own clock, whatever lease the heartbeat names.
pub apply_heartbeat_outcomes :
    (hb : Heartbeat) (now lease : ℕ) (acceptable : Bool) (s : State)
    → (hb.term < s.current_term → apply_heartbeat hb now lease acceptable s ≡ (s, err term_stale))
      × (hb.term ≡ s.current_term
          → acceptable ≡ false
          → apply_heartbeat hb now lease acceptable s ≡ (s, err anti_spoof))
      × ((s.current_term < hb.term) ⊎ ((hb.term ≡ s.current_term) × (acceptable ≡ true))
          → ((apply_heartbeat hb now lease acceptable s).1 ≡ ok (result_of hb.term hb.member_id s))
            × ((apply_heartbeat hb now lease acceptable s).0.current_term ≡ hb.term)
            × ((apply_heartbeat hb now lease acceptable s).0.current_orchestrator ≡ hb.member_id)
            × ((apply_heartbeat hb now lease acceptable s).0.lease_expires ≡ now + lease))
unfolding apply_heartbeat take_lease push_history
apply_heartbeat_outcomes hb now lease acceptable s = (
  λ h. ground arith,
  λ h k. ground arith,
  λ h. (ground arith, ground arith, ground arith, ground arith),
)

length-drop {ℓ} : {A : Type ℓ} (n : ℕ) (xs : List A) → length (drop n xs) ≡ length xs - n
length-drop zero xs = omega arith
length-drop (suc n) [] = omega arith
length-drop (suc n) (x ∷ xs) = omega (arith, length-drop n xs)

-- However long the history was, after an entry it holds no more than its cap.
pub push_history-bounded :
    (e : HistoryEntry) (s : State) → length (push_history e s).history ≤ s.history_cap
unfolding push_history
push_history-bounded e s =
    ground (arith, length-drop (length (s.history ++ e ∷ []) - s.history_cap) (s.history ++ e ∷ []))
