-- ===== src/Examples/Rotations.antt =====
-- The theorems on key rotation, applied to a clan of two.
use minti.Base.{false, none, some, [], ◌∷◌, ◌≡◌, refl, ap, subst, sym, arith, In, inl, inr}
use minti.Toolexec.{KeyProvider}
use minti.Toolexec.Keys.{rotate}
use minti.Keyrotate.{handle_propose, has_id, is_blocked, put, decoded_key, propose_status}
use minti.Keyrotate.Coordinator.{
  Peer, lost, answered, send_one, broadcast, all_ok, Network, rotate_self, rotate_clan,
}
use minti.Keyrotate.Agreement.{
  keys_of, Acks, rotate_clan-aborts, rotate_clan-agrees, rotate_clan-splits,
}
use minti.Examples.{apart}

abbrev old_keys : KeyProvider
old_keys = record { current = "old"; grace = none; grace_expiry = 0 }

abbrev bob : Peer
bob = record { member_id = "bob"; holder = record { keys = old_keys; pending = none } }

abbrev network : Network
network = record {
  propose_link = λ id. answered;
  commit_link = λ id. answered;
  abort_link = λ id. answered;
  codec = record { decode = λ s. some s; byte_length = λ s. 32 };
  now = 100;
}

rotate_clan-agrees_example :
    (rotate_clan network "new" "new" "id1" 50 old_keys (bob ∷ [])).0.0.current ≡ "new"
unfolding rotate_clan broadcast send_one handle_propose put decoded_key has_id is_blocked
    propose_status all_ok rotate_self rotate
rotate_clan-agrees_example =
    (rotate_clan-agrees network "new" "new" "id1" 50 old_keys (bob ∷ []) (apart "new" "" refl) refl
      (λ id q. ground arith) only_bob refl).0
  where
    only_bob : (p : Peer) → In p (bob ∷ []) → has_id "id1" p.holder.pending ≡ false
    only_bob p (inl q) = ap (λ x. has_id "id1" x.holder.pending) q
    only_bob p (inr i) = absurd i

-- Bob cannot be reached.
abbrev cut_off : Network
cut_off = record network { propose_link = λ id. lost }

rotate_clan-aborts_example :
    keys_of (rotate_clan cut_off "new" "new" "id1" 50 old_keys (bob ∷ [])).0.1 ≡ old_keys ∷ []
unfolding rotate_clan broadcast send_one all_ok
rotate_clan-aborts_example =
    (rotate_clan-aborts cut_off "new" "new" "id1" 50 old_keys (bob ∷ []) refl).1

-- Bob answers the propose, and is gone when the commit is sent.
abbrev half_way : Network
half_way = record network { commit_link = λ id. lost }

bob-Acks : (p : Peer) → In p (bob ∷ []) → Acks half_way "new" "id1" p
unfolding send_one handle_propose put decoded_key has_id is_blocked propose_status
bob-Acks p (inl q) = subst (Acks half_way "new" "id1") (sym q) refl
bob-Acks p (inr i) = absurd i

rotate_clan-splits_example :
    keys_of (rotate_clan half_way "new" "new" "id1" 50 old_keys (bob ∷ [])).0.1 ≡ old_keys ∷ []
unfolding rotate_clan broadcast send_one handle_propose put decoded_key has_id is_blocked
    propose_status all_ok rotate_self rotate
rotate_clan-splits_example =
    (rotate_clan-splits half_way "new" "new" "id1" 50 old_keys bob [] (apart "new" "" refl)
      (λ id. refl) bob-Acks).2
