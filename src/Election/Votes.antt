-- ===== src/Election/Votes.antt =====
-- src/cland/internal/election/engine.go, `quorum` and the count of accepts.
use minti.Base.{
  ℕ, ◌+◌, ◌*◌, ◌%◌, ◌≤◌, ◌<◌, Bool, false, List, [], ◌∷◌, none, some, ◌≡◌, refl, arith, ◌==◌, eqb,
  if◌then◌else◌, length, keep, Option-cases, inl, inr,
}
use minti.Clan.{Clan}
use minti.Peers.{Registry, Member, touch_live}
use minti.Election.{Heartbeat}
use minti.Election.Select.{active_count, quorum}
use minti.Election.Engine.{Options, Env, post_all}

-- The quorum of N active members, N counted as 1 where nobody is active: at least half of them and
-- at most all. A strict minority never reaches it. Two disjoint halves both reach it exactly if N is
-- even: for an odd N two quorums together outnumber the members, for an even N they do not.
pub quorum_counts :
    (clan : Clan) (n votes : ℕ)
    → n ≡ (if eqb (active_count clan.roster) 0 then 1 else active_count clan.roster)
    → (1 ≤ quorum clan)
      × (quorum clan ≤ n)
      × (2 * votes < n → votes < quorum clan)
      × (n % 2 ≡ 1 → n < quorum clan + quorum clan)
      × (n % 2 ≡ 0 → quorum clan + quorum clan ≡ n)
unfolding quorum
quorum_counts clan n votes e =
    (ground arith, ground arith, λ h. ground arith, λ h. ground arith, λ h. ground arith)

-- The members whose answer to the announcement is 200, the sender itself left out.
unfoldable pub accepts_it : Options → Env → Heartbeat → Member → Bool
accepts_it o env hb m = elim (if m.member_id == o.self_id then none else env.post hb m) [
  | none ↦ false
  | some status ↦ eqb status 200
]

-- The accepts that an election counts are those of every other member of the live registry that
-- answers 200. Whether the roster lists that member as active, or at all, plays no part.
pub post_all-accepts :
    (o : Options) (env : Env) (hb : Heartbeat) (ms : List Member) (r : Registry)
    → (post_all o env hb ms r).1 ≡ length (keep (accepts_it o env hb) ms)
unfolding post_all keep accepts_it
post_all-accepts o env hb [] r = refl
post_all-accepts o env hb (m ∷ ms) r =
    elim (Option-cases (if m.member_id == o.self_id then none else env.post hb m)) [
      | inl silent ↦ rw silent (ground (arith, post_all-accepts o env hb ms r))
      | inr (status, answered) ↦
          rw answered
            (ground (arith, post_all-accepts o env hb ms (touch_live m.member_id env.clock r)))
    ]
