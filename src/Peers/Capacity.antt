-- ===== src/Peers/Capacity.antt =====
-- src/cland/internal/peers/peers.go: the cap on the registry, over every sequence of its operations.
use minti.Base.{
  ℕ, ◌≤◌, ◌<◌, String, Bool, true, List, Option, none, some, eq_iff, arith, ◌≡◌, refl, lookup,
  insert, lookup-insert, length-insert, leb, is_some, ◌⊎◌, inl, inr, Option-cases, Bool-cases,
}
use minti.Clan.{Revocation}
use minti.Peers.{
  Registry, Member, Advertisement, new_registry, total, set_revocations, upsert_candidate,
  check_rate_limit, add_peer_admit, add_peer, refresh, bind, bind_member, touch_live,
}

-- The registry holds at most its cap, and lists each member under the member's own id.
pub record IsValid (r : Registry) : Type 0 where
  pub capped : total r ≤ r.max_entries
  pub keyed : (id : String) (m : Member) → lookup id r.members ≡ some m → m.member_id ≡ id

pub new_registry-IsValid : IsValid new_registry
unfolding new_registry total lookup
new_registry-IsValid = record { capped = omega arith; keyed = λ id m e. ground arith }

upsert_candidate-IsValid :
    (address via : String) (now : ℕ) (r : Registry)
    → IsValid r
    → IsValid (upsert_candidate address via now r).0
unfolding upsert_candidate total
upsert_candidate-IsValid address via now r v = record {
  capped = ground (
    arith,
    v.capped,
    length-insert address (record { address = address; discovered_via = via; first_seen = now })
        r.candidates,
  );
  keyed = λ id m e. ground (arith, v.keyed id m);
}

check_rate_limit-IsValid :
    (origin : String) (now : ℕ) (r : Registry)
    → IsValid r
    → IsValid (check_rate_limit origin now r).0
unfolding check_rate_limit total
check_rate_limit-IsValid origin now r v = record { capped = v.capped; keyed = v.keyed }

add_peer_admit-IsValid :
    (origin address : String) (now : ℕ) (r : Registry)
    → IsValid r
    → IsValid (add_peer_admit origin address now r).0
unfolding add_peer_admit
add_peer_admit-IsValid origin address now r v =
    let v' = check_rate_limit-IsValid origin now r v in
    record {
      capped = ground (arith, v.capped, v'.capped);
      keyed = λ id m e. ground (arith, v.keyed id m, v'.keyed id m);
    }

set_member-IsValid :
    (k : String) (m : Member) (r : Registry)
    → IsValid r
    → m.member_id ≡ k
    → (is_some (lookup k r.members) ≡ true) ⊎ (total r < r.max_entries)
    → IsValid (record r { members = insert k m r.members })
unfolding total
set_member-IsValid k m r v e room = record {
  capped = ground (arith, v.capped, length-insert k m r.members);
  keyed = λ id n f. ground (arith, v.keyed id n, eq_iff k id, lookup-insert k id m r.members);
}

bind-IsValid :
    (ad : Advertisement) (remote : String) (now : ℕ) (r : Registry)
    → IsValid r
    → IsValid (bind ad remote now r).0
unfolding bind refresh
bind-IsValid ad remote now r v = elim (Option-cases (lookup ad.member_id r.members)) [
  | inr (m, e) ↦
      rw (e, bind)
        (set_member-IsValid ad.member_id _ r v (ground (arith, v.keyed ad.member_id m))
          (inl (rw e)))
  | inl e ↦
      rw (e, bind)
        (elim (Bool-cases (leb r.max_entries (total r))) [
          | inl full ↦ rw full v
          | inr room ↦ rw room (set_member-IsValid ad.member_id _ r v refl (inr (ground arith)))
        ])
]

bind_member-IsValid :
    (ad : Option Advertisement) (remote : String) (now : ℕ) (r : Registry)
    → IsValid r
    → IsValid (bind_member ad remote now r).0
unfolding bind_member
bind_member-IsValid none remote now r v = v
bind_member-IsValid (some ad) remote now r v =
    let v' = bind-IsValid ad remote now r v in
    record {
      capped = ground (arith, v.capped, v'.capped);
      keyed = λ id m e. ground (arith, v.keyed id m, v'.keyed id m);
    }

touch_live-IsValid :
    (id : String) (now : ℕ) (r : Registry) → IsValid r → IsValid (touch_live id now r)
unfolding touch_live
touch_live-IsValid id now r v = elim (Option-cases (lookup id r.members)) [
  | inr (m, e) ↦ rw (e, touch_live) (set_member-IsValid id _ r v (v.keyed id m e) (inl (rw e)))
  | inl e ↦ rw (e, touch_live) v
]

-- One critical section of the registry. `AddPeer` holds the lock twice, and is two of them.
pub data Step (r : Registry) : Registry → Type 0 where
  upsert : (address via : String) (now : ℕ) → Step r (upsert_candidate address via now r).0
  peer_add : (origin address : String) (now : ℕ) → Step r (add_peer_admit origin address now r).0
  bind_ad :
      (ad : Option Advertisement) (remote : String) (now : ℕ)
      → Step r (bind_member ad remote now r).0
  touch : (id : String) (now : ℕ) → Step r (touch_live id now r)
  revoke : (entries : List Revocation) → Step r (set_revocations entries r)

pub data Reach (r : Registry) : Registry → Type 0 where
  here : Reach r r
  next : {s t : Registry} → Reach r s → Step s t → Reach r t

Step-IsValid : {r s : Registry} → Step r s → IsValid r → IsValid s
unfolding set_revocations total
Step-IsValid {r} (upsert address via now) v = upsert_candidate-IsValid address via now r v
Step-IsValid {r} (peer_add origin address now) v = add_peer_admit-IsValid origin address now r v
Step-IsValid {r} (bind_ad ad remote now) v = bind_member-IsValid ad remote now r v
Step-IsValid {r} (touch id now) v = touch_live-IsValid id now r v
Step-IsValid {r} (revoke entries) v = record { capped = v.capped; keyed = v.keyed }

-- Whatever the critical sections of the registry's operations are and however they interleave,
-- a registry that started within its cap stays within it, and lists each member under its own id.
pub Reach-IsValid : {r s : Registry} → Reach r s → IsValid r → IsValid s
Reach-IsValid here v = v
Reach-IsValid (next path step) v = Step-IsValid step (Reach-IsValid path v)

-- `AddPeer` as a whole keeps the registry valid if what runs during its dial does.
pub add_peer-IsValid :
    (origin address : String) (now : ℕ) (dial_ok : Bool) (others : Registry → Registry) (later : ℕ)
    (r : Registry)
    → ((s : Registry) → IsValid s → IsValid (others s))
    → IsValid r
    → IsValid (add_peer origin address now dial_ok others later r).0
unfolding add_peer
add_peer-IsValid origin address now dial_ok others later r keep v =
    let v' = add_peer_admit-IsValid origin address now r v in
    let w = upsert_candidate-IsValid address "manual" later _ (keep _ v') in
    record {
      capped = ground (arith, v'.capped, w.capped, (keep _ v').capped);
      keyed = λ id m e. ground (arith, v'.keyed id m, w.keyed id m, (keep _ v').keyed id m);
    }
