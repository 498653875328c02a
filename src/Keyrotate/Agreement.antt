-- ===== src/Keyrotate/Agreement.antt =====
-- src/cland/internal/keyrotate: who has which key after a rotation.
use minti.Base.{
  ℕ, String, true, false, some, List, [], ◌∷◌, map, ◌≡◌, ◌≢◌, inl, inr, refl, sym, ap, ◌∙◌, ◌==◌,
  arith, eq_iff, eq_refl, eqb, any, In, Bool-cases,
}
use minti.Toolexec.{KeyProvider}
use minti.Toolexec.Keys.{rotate}
use minti.Keyrotate.{
  Codec, ProposeRequest, CommitRequest, Keyholder, handle_propose, handle_commit, handle_abort,
  has_id, put, take, decoded_key, propose_status,
}
use minti.Keyrotate.Coordinator.{
  Peer, Delivery, lost, unanswered, answered, send_one, broadcast, peers_of, all_ok, acked, notify,
  Network, committed, aborted, rotate_self, rotate_clan,
}

abbrev pub keys_of : List Peer → List KeyProvider
keys_of peers = map (λ p. p.holder.keys) peers

abbrev KeepsKeys : (Keyholder → Keyholder × ℕ) → Type 0
KeepsKeys handle = (m : Keyholder) → (handle m).0.keys ≡ m.keys

send_one-keys :
    (handle : Keyholder → Keyholder × ℕ) (d : Delivery) (p : Peer)
    → KeepsKeys handle
    → (send_one handle d p).0.holder.keys ≡ p.holder.keys
unfolding send_one
send_one-keys handle lost p keeps = refl
send_one-keys handle unanswered p keeps = keeps p.holder
send_one-keys handle answered p keeps = keeps p.holder

broadcast-keys :
    (handle : Keyholder → Keyholder × ℕ) (link : String → Delivery) (peers : List Peer)
    → KeepsKeys handle
    → keys_of (peers_of (broadcast handle link peers)) ≡ keys_of peers
unfolding broadcast
broadcast-keys handle link [] keeps = refl
broadcast-keys handle link (p ∷ peers) keeps =
    rw (send_one-keys handle (link p.member_id) p keeps, broadcast-keys handle link peers keeps)
      refl

notify-keys :
    (handle : Keyholder → Keyholder × ℕ) (link : String → Delivery) (ids : List String)
    (peers : List Peer)
    → KeepsKeys handle
    → keys_of (notify handle link ids peers) ≡ keys_of peers
unfolding notify
notify-keys handle link ids [] keeps = refl
notify-keys handle link ids (p ∷ peers) keeps =
    elim (Bool-cases (any (λ id. id == p.member_id) ids)) [
      | inl e ↦
          rw
            (
              e,
              send_one-keys handle (link p.member_id) p keeps,
              notify-keys handle link ids peers keeps,
            )
            refl
      | inr e ↦ rw (e, notify-keys handle link ids peers keeps) refl
    ]

rotate_self-not_aborted :
    (key : String) (grace now : ℕ) (keys : KeyProvider)
    → (rotate_self key grace now keys).1 ≢ aborted
unfolding rotate_self
rotate_self-not_aborted key grace now keys h = ground arith

-- A rotation that is aborted changes no key: not the Orchestrator's, and not that of any member,
-- whatever messages were lost.
pub rotate_clan-aborts :
    (net : Network) (key key_b64 propose_id : String) (grace : ℕ) (self : KeyProvider)
    → (peers : List Peer) → (rotate_clan net key key_b64 propose_id grace self peers).1 ≡ aborted
    → ((rotate_clan net key key_b64 propose_id grace self peers).0.0 ≡ self)
      × (keys_of (rotate_clan net key key_b64 propose_id grace self peers).0.1 ≡ keys_of peers)
unfolding rotate_clan handle_propose handle_abort
rotate_clan-aborts net key key_b64 propose_id grace self [] h =
    absurd (rotate_self-not_aborted key grace net.now self h)
rotate_clan-aborts net key key_b64 propose_id grace self (p ∷ ps) h =
    let req : ProposeRequest = record { propose_id = propose_id; new_key_b64 = key_b64 } in
    let results = broadcast (handle_propose net.codec req net.now) net.propose_link (p ∷ ps) in
    elim (Bool-cases (all_ok results)) [
      | inl e ↦ absurd (rotate_self-not_aborted key grace net.now self (rw e at h))
      | inr e ↦ rw e (
        refl,
        notify-keys (handle_abort propose_id) net.abort_link (acked results) (peers_of results)
              (λ m. refl)
            ∙ broadcast-keys (handle_propose net.codec req net.now) net.propose_link (p ∷ ps)
                (λ m. refl),
      )
    ]

-- A member that answers a fresh propose with a 200 holds its key.
proposed-pending :
    (c : Codec) (req : ProposeRequest) (now : ℕ) (key : String) (m : Keyholder)
    → c.decode req.new_key_b64 ≡ some key
    → has_id req.propose_id m.pending ≡ false
    → eqb (handle_propose c req now m).1 200 ≡ true
    → (handle_propose c req now m).0.pending
      ≡ some (record { propose_id = req.propose_id; new_key = key; received_at = now })
unfolding handle_propose put decoded_key propose_status
proposed-pending c req now key m decodes fresh h = ground (arith, decodes, fresh)

committed-current :
    (req : CommitRequest) (now : ℕ) (key : String) (received_at : ℕ) (m : Keyholder)
    → key ≢ ""
    → m.pending
      ≡ some (record { propose_id = req.propose_id; new_key = key; received_at = received_at })
    → (handle_commit req now m).0.keys.current ≡ key
unfolding handle_commit take rotate
committed-current req now key received_at m some_key held =
    ground (arith, held, eq_refl req.propose_id, eq_iff key "")

commit_one-current :
    (req : CommitRequest) (now : ℕ) (key : String) (received_at : ℕ) (d : Delivery) (p : Peer)
    → key ≢ ""
    → d ≢ lost
    → p.holder.pending
      ≡ some (record { propose_id = req.propose_id; new_key = key; received_at = received_at })
    → (send_one (handle_commit req now) d p).0.holder.keys.current ≡ key
unfolding send_one
commit_one-current req now key received_at lost p some_key sent held = absurd (sent refl)
commit_one-current req now key received_at unanswered p some_key sent held =
    committed-current req now key received_at p.holder some_key held
commit_one-current req now key received_at answered p some_key sent held =
    committed-current req now key received_at p.holder some_key held

propose_one-pending :
    (c : Codec) (req : ProposeRequest) (now : ℕ) (key : String) (d : Delivery) (p : Peer)
    → c.decode req.new_key_b64 ≡ some key
    → has_id req.propose_id p.holder.pending ≡ false
    → (send_one (handle_propose c req now) d p).1 ≡ true
    → (send_one (handle_propose c req now) d p).0.holder.pending
      ≡ some (record { propose_id = req.propose_id; new_key = key; received_at = now })
unfolding send_one
propose_one-pending c req now key lost p decodes fresh h = ground arith
propose_one-pending c req now key unanswered p decodes fresh h = ground arith
propose_one-pending c req now key answered p decodes fresh h =
    proposed-pending c req now key p.holder decodes fresh h

-- Both broadcasts, over all members.
all-current :
    (net : Network) (req : ProposeRequest) (commit : CommitRequest) (key : String)
    (peers : List Peer)
    → commit.propose_id ≡ req.propose_id
    → key ≢ ""
    → net.codec.decode req.new_key_b64 ≡ some key
    → ((id : String) → net.commit_link id ≢ lost)
    → ((p : Peer) → In p peers → has_id req.propose_id p.holder.pending ≡ false)
    → all_ok (broadcast (handle_propose net.codec req net.now) net.propose_link peers) ≡ true
    → (k : KeyProvider)
    → In k (
        keys_of (
          peers_of (
            broadcast (handle_commit commit net.now) net.commit_link (
              peers_of (broadcast (handle_propose net.codec req net.now) net.propose_link peers)))))
    → k.current ≡ key
unfolding broadcast all_ok
all-current net req commit key [] same some_key decodes sent fresh oks k i = absurd i
all-current net req commit key (p ∷ ps) same some_key decodes sent fresh oks k (inl q) =
    let first = send_one (handle_propose net.codec req net.now) (net.propose_link p.member_id) p in
    ap (λ x. x.current) q
    ∙ commit_one-current commit net.now key net.now (net.commit_link first.0.member_id) first.0
        some_key (sent first.0.member_id)
        (propose_one-pending net.codec req net.now key (net.propose_link p.member_id) p decodes
            (fresh p (inl refl)) (ground arith)
          ∙ ap (λ id. some (record { propose_id = id; new_key = key; received_at = net.now }))
              (sym same))
all-current net req commit key (p ∷ ps) same some_key decodes sent fresh oks k (inr i) =
    all-current net req commit key ps same some_key decodes sent (λ x m. fresh x (inr m))
      (ground arith) k i

rotate_self-current :
    (key : String) (grace now : ℕ) (keys : KeyProvider)
    → key ≢ ""
    → (rotate_self key grace now keys).0.current ≡ key
unfolding rotate_self rotate
rotate_self-current key grace now keys some_key = ground (arith, eq_iff key "")

-- A rotation that is committed ends with the new key as the current one of the Orchestrator and of
-- every member, if the key is the one that its encoding decodes to and not empty, the id is pending
-- nowhere before, and no commit request is lost; answers to it may be.
pub rotate_clan-agrees :
    (net : Network) (key key_b64 propose_id : String) (grace : ℕ) (self : KeyProvider)
    → (peers : List Peer) → key ≢ ""
    → net.codec.decode key_b64 ≡ some key
    → ((id : String) → net.commit_link id ≢ lost)
    → ((p : Peer) → In p peers → has_id propose_id p.holder.pending ≡ false)
    → (rotate_clan net key key_b64 propose_id grace self peers).1 ≡ committed
    → ((rotate_clan net key key_b64 propose_id grace self peers).0.0.current ≡ key)
      × ((k : KeyProvider)
          → In k (keys_of (rotate_clan net key key_b64 propose_id grace self peers).0.1)
          → k.current ≡ key)
unfolding rotate_clan
rotate_clan-agrees net key key_b64 propose_id grace self [] some_key decodes sent fresh h =
    (rotate_self-current key grace net.now self some_key, λ k i. absurd i)
rotate_clan-agrees net key key_b64 propose_id grace self (p ∷ ps) some_key decodes sent fresh h =
    let req : ProposeRequest = record { propose_id = propose_id; new_key_b64 = key_b64 } in
    let commit : CommitRequest = record { propose_id = propose_id; grace_duration = grace } in
    let results = broadcast (handle_propose net.codec req net.now) net.propose_link (p ∷ ps) in
    elim (Bool-cases (all_ok results)) [
      | inl e ↦ rw e (
        rotate_self-current key grace net.now self some_key,
        all-current net req commit key (p ∷ ps) refl some_key decodes sent fresh e,
      )
      | inr e ↦ absurd (aborted_not_committed (rw e at h))
    ]
  where
    aborted_not_committed : aborted ≡ committed → ⊥
    aborted_not_committed q = ground arith

broadcast-lost :
    (handle : Keyholder → Keyholder × ℕ) (link : String → Delivery) (peers : List Peer)
    → ((id : String) → link id ≡ lost)
    → peers_of (broadcast handle link peers) ≡ peers
unfolding broadcast send_one
broadcast-lost handle link [] none_sent = refl
broadcast-lost handle link (p ∷ peers) none_sent =
    rw (none_sent p.member_id, broadcast-lost handle link peers none_sent) refl

-- The coordinator gets a 200 for its proposal from the member.
abbrev pub Acks : Network → (key_b64 propose_id : String) → Peer → Type 0
Acks net key_b64 propose_id p =
    (send_one
      (handle_propose net.codec (record { propose_id = propose_id; new_key_b64 = key_b64 }) net.now)
      (net.propose_link p.member_id) p).1
    ≡ true

all_ok_of_Acks :
    (net : Network) (key_b64 propose_id : String) (peers : List Peer)
    → ((q : Peer) → In q peers → Acks net key_b64 propose_id q)
    → all_ok (
        broadcast
          (handle_propose net.codec
            (record { propose_id = propose_id; new_key_b64 = key_b64 })
            net.now)
          net.propose_link
          peers)
      ≡ true
unfolding all_ok broadcast
all_ok_of_Acks net key_b64 propose_id [] acks = refl
all_ok_of_Acks net key_b64 propose_id (p ∷ peers) acks =
    rw (acks p (inl refl), all_ok_of_Acks net key_b64 propose_id peers (λ q m. acks q (inr m))) refl

-- When every member's answer to the proposal is a 200, the rotation is reported as committed and the
-- Orchestrator has the new key even if every commit request is lost; the members then all keep the keys
-- that they had. The key is not empty, and there is a member.
pub rotate_clan-splits :
    (net : Network) (key key_b64 propose_id : String) (grace : ℕ) (self : KeyProvider)
    → (p : Peer) (ps : List Peer) → key ≢ ""
    → ((id : String) → net.commit_link id ≡ lost)
    → ((q : Peer) → In q (p ∷ ps) → Acks net key_b64 propose_id q)
    → ((rotate_clan net key key_b64 propose_id grace self (p ∷ ps)).1 ≡ committed)
      × ((rotate_clan net key key_b64 propose_id grace self (p ∷ ps)).0.0.current ≡ key)
      × (keys_of (rotate_clan net key key_b64 propose_id grace self (p ∷ ps)).0.1
          ≡ keys_of (p ∷ ps))
unfolding rotate_clan handle_propose rotate_self rotate
rotate_clan-splits net key key_b64 propose_id grace self p ps some_key none_sent acks =
    let req : ProposeRequest = record { propose_id = propose_id; new_key_b64 = key_b64 } in
    let commit : CommitRequest = record { propose_id = propose_id; grace_duration = grace } in
    let results = broadcast (handle_propose net.codec req net.now) net.propose_link (p ∷ ps) in
    let e : all_ok results ≡ true = all_ok_of_Acks net key_b64 propose_id (p ∷ ps) acks in
    rw e (
      ground (arith, eq_iff key ""),
      ground (arith, eq_iff key ""),
      ap keys_of (
            broadcast-lost (handle_commit commit net.now) net.commit_link (peers_of results)
              none_sent)
          ∙ broadcast-keys (handle_propose net.codec req net.now) net.propose_link (p ∷ ps)
              (λ m. refl),
    )
