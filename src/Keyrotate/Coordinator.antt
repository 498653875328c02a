-- ===== src/Keyrotate/Coordinator.antt =====
-- src/cland/internal/keyrotate/coordinator.go: the Orchestrator's side, with the members that it
-- talks to. The members of one broadcast are apart, so the order of its goroutines plays no part.
use minti.Base.{
  ℕ, String, Bool, true, false, none, some, List, [], ◌∷◌, map, ◌==◌, ◌&&◌, eqb, any, if◌then◌else◌,
}
use minti.Toolexec.{KeyProvider}
use minti.Toolexec.Keys.{rotate}
use minti.Keyrotate.{
  Codec, ProposeRequest, CommitRequest, Keyholder, handle_propose, handle_commit, handle_abort,
}

pub record Peer : Type 0 where
  pub member_id : String
  pub holder : Keyholder

-- What becomes of a POST: the request may be lost, or only its answer.
pub data Delivery : Type 0 where
  lost : Delivery
  unanswered : Delivery
  answered : Delivery

-- `sendOne`: the peer after it, and whether the answer is a 200.
unfoldable pub send_one : (Keyholder → Keyholder × ℕ) → Delivery → Peer → Peer × Bool
send_one handle lost p = (p, false)
send_one handle unanswered p = (record p { holder = (handle p.holder).0 }, false)
send_one handle answered p =
    (record p { holder = (handle p.holder).0 }, eqb (handle p.holder).1 200)

unfoldable pub broadcast :
    (Keyholder → Keyholder × ℕ) → (String → Delivery) → List Peer → List (Peer × Bool)
broadcast handle link [] = []
broadcast handle link (p ∷ peers) =
    send_one handle (link p.member_id) p ∷ broadcast handle link peers

abbrev pub peers_of : List (Peer × Bool) → List Peer
peers_of results = map (λ r. r.0) results

unfoldable pub all_ok : List (Peer × Bool) → Bool
all_ok [] = true
all_ok ((p, reached) ∷ results) = let rest = all_ok results in reached && rest

unfoldable pub acked : List (Peer × Bool) → List String
acked [] = []
acked ((p, reached) ∷ results) =
    let rest = acked results in if reached then p.member_id ∷ rest else rest

-- The broadcast to `peersByID`; the others are not written to.
unfoldable pub notify :
    (Keyholder → Keyholder × ℕ) → (String → Delivery) → List String → List Peer → List Peer
notify handle link ids [] = []
notify handle link ids (p ∷ peers) =
    let rest = notify handle link ids peers in
    if any (λ id. id == p.member_id) ids
    then (send_one handle (link p.member_id) p).0 ∷ rest
    else p ∷ rest

pub data RotateResult : Type 0 where
  committed : RotateResult
  aborted : RotateResult
  self_failed : RotateResult

-- What the world supplies: the deliveries of the three broadcasts, and the clock.
pub record Network : Type 0 where
  pub propose_link : String → Delivery
  pub commit_link : String → Delivery
  pub abort_link : String → Delivery
  pub codec : Codec
  pub now : ℕ

unfoldable pub rotate_self :
    (key : String) (grace now : ℕ) → KeyProvider → KeyProvider × RotateResult
rotate_self key grace now keys = elim (rotate key grace now keys) [
  | none ↦ (keys, self_failed)
  | some rotated ↦ (rotated, committed)
]

-- `Rotate`, for a key and an id that were drawn; `key_b64` is the key encoded.
unfoldable pub rotate_clan :
    Network
    → (key key_b64 propose_id : String) (grace : ℕ) → KeyProvider
    → List Peer
    → (KeyProvider × List Peer) × RotateResult
rotate_clan net key key_b64 propose_id grace self [] =
    let (keys, res) = rotate_self key grace net.now self in ((keys, []), res)
rotate_clan net key key_b64 propose_id grace self (p ∷ ps) =
    let req : ProposeRequest = record { propose_id = propose_id; new_key_b64 = key_b64 } in
    let results = broadcast (handle_propose net.codec req net.now) net.propose_link (p ∷ ps) in
    if all_ok results
    then (let commit : CommitRequest = record { propose_id = propose_id; grace_duration = grace } in
        let told =
          peers_of (broadcast (handle_commit commit net.now) net.commit_link (peers_of results)) in
        let (keys, res) = rotate_self key grace net.now self in ((keys, told), res))
    else (let told =
          notify (handle_abort propose_id) net.abort_link (acked results) (peers_of results) in
        ((self, told), aborted))
