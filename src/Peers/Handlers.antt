-- ===== src/Peers/Handlers.antt =====
-- src/cland/internal/peers/handlers.go: the endpoints of the registry. A body that does not decode is none, and
-- `promote` is the callback on the rest of the member's state, whose error is ignored.
use minti.Base.{ℕ, String, Bool, List, Option, none, some, map}
use minti.Peers.{
  Registry, Member, Candidate, Advertisement, PeersError, revoked, registry_full, rate_limited,
  bind_member, add_peer, snapshot_members,
}

unfoldable pub advertise_status : PeersError → ℕ
advertise_status revoked = 403
advertise_status registry_full = 503
advertise_status _ = 400

unfoldable pub peer_add_status : PeersError → ℕ
peer_add_status rate_limited = 429
peer_add_status _ = 503

-- After the registry, on a state of the member's own.
unfoldable pub advertised :
    {S : Type 0}
    → (promote : (member_id : String) → S → S) → Advertisement
    → S
    → Registry × Option PeersError
    → Registry × S × ℕ
advertised promote ad s (r, none) = (r, promote ad.member_id s, 200)
advertised promote ad s (r, some e) = (r, s, advertise_status e)

unfoldable pub handle_advertise :
    {S : Type 0}
    → (promote : (member_id : String) → S → S) → Option Advertisement
    → (remote : String) (now : ℕ) → Registry
    → S
    → Registry × S × ℕ
handle_advertise promote none remote now r s = (r, s, 400)
handle_advertise promote (some ad) remote now r s =
    advertised promote ad s (bind_member (some ad) remote now r)

unfoldable pub peer_added :
    {S : Type 0} → (bump : S → S) → S → Registry × Option PeersError → Registry × S × ℕ
peer_added bump s (r, none) = (r, bump s, 200)
peer_added bump s (r, some e) = (r, s, peer_add_status e)

-- The request's body is the address.
unfoldable pub handle_peer_add :
    {S : Type 0}
    → (bump : S → S) → (origin : String) → Option String
    → (now : ℕ) (dial_ok : Bool) (others : Registry → Registry) (later : ℕ) → Registry
    → S
    → Registry × S × ℕ
handle_peer_add bump origin none now dial_ok others later r s = (r, s, 400)
handle_peer_add bump origin (some address) now dial_ok others later r s =
    peer_added bump s (add_peer origin address now dial_ok others later r)

unfoldable pub handle_list_peers : Registry → List Candidate × List Member
handle_list_peers r = (map (λ e. e.1) r.candidates, snapshot_members r)
