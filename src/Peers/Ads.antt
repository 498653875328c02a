-- ===== src/Peers/Ads.antt =====
-- src/cland/internal/peers/peers.go, `BindMember`: what an advertisement changes in the registry.
use minti.Base.{
  ℕ, ◌≤◌, ◌<◌, String, false, none, some, ◌==◌, eq_iff, eq_refl, leb, if◌then◌else◌, arith, ◌≡◌,
  refl, ◌≢◌, lookup, insert, lookup-insert, Option-cases, Bool-cases, inl, inr, ◌⊎◌,
}
use minti.Peers.{
  registry_full, total, Registry, Member, Advertisement, PeersError, refresh, bind, bind_member,
  is_revoked,
}

refresh-seen :
    (ad : Advertisement) (addr : String) (now : ℕ) (m : Member)
    → (refresh ad addr now m).last_seen_at ≡ now
unfolding refresh
refresh-seen ad addr now m = ground arith

-- An accepted binding writes one member, who is then seen at that time.
bind_written :
    (ad : Advertisement) (remote : String) (now : ℕ) (r : Registry)
    → (bind ad remote now r ≡ (r, some registry_full))
      ⊎ ((m : Member) × (m.last_seen_at ≡ now)
          × (bind ad remote now r ≡ (record r { members = insert ad.member_id m r.members }, none)))
unfolding bind
bind_written ad remote now r = elim (Option-cases (lookup ad.member_id r.members)) [
  | inr (m, e) ↦ rw (e, bind) (inr (refresh ad _ now m, refresh-seen ad _ now m, refl))
  | inl e ↦
      rw (e, bind)
        (elim (Bool-cases (leb r.max_entries (total r))) [
          | inl full ↦ rw full (inl refl)
          | inr room ↦ rw room (inr (_, refl, refl))
        ])
]

-- An advertisement that is refused changes nothing; one that is accepted changes no other member,
-- and its sender is then listed as seen at that time and was not revoked.
pub bind_member_frame :
    (ad : Advertisement) (remote : String) (now : ℕ) (r : Registry)
    → ((e : PeersError)
        → (bind_member (some ad) remote now r).1 ≡ some e
        → (bind_member (some ad) remote now r).0 ≡ r)
      × ((id : String)
          → id ≢ ad.member_id
          → lookup id (bind_member (some ad) remote now r).0.members ≡ lookup id r.members)
      × ((bind_member (some ad) remote now r).1 ≡ none
          → (is_revoked ad.member_id r ≡ false)
            × ((m : Member) × (lookup ad.member_id (bind_member (some ad) remote now r).0.members
                  ≡ some m)
                × (m.last_seen_at ≡ now)))
unfolding bind_member
bind_member_frame ad remote now r = elim (Bool-cases (ad.member_id == "")) [
  | inl nobody ↦ rw nobody (λ e h. refl, λ id h. refl, λ h. ground arith)
  | inr named ↦ rw named (elim (Bool-cases (is_revoked ad.member_id r)) [
    | inl gone ↦ rw gone (λ e h. refl, λ id h. refl, λ h. ground arith)
    | inr trusted ↦ rw trusted (elim (bind_written ad remote now r) [
      | inl full ↦ rw full (λ e h. refl, λ id h. refl, λ h. ground arith)
      | inr (m, seen, written) ↦ rw written (
        λ e h. ground arith,
        λ id h. ground (arith, eq_iff ad.member_id id, lookup-insert ad.member_id id m r.members),
        λ h. (
          refl,
          (
            m,
            ground
                (arith, eq_refl ad.member_id, lookup-insert ad.member_id ad.member_id m r.members),
            seen,
          ),
        ),
      )
    ])
  ])
]

-- For an advertisement with a generation above 0, the generation on record never goes back: one
-- that is older than the one on record replaces nothing but the time at which the member was seen.
pub bind_member_generation :
    (ad : Advertisement) (remote : String) (now : ℕ) (r : Registry) (m m' : Member)
    → 0 < ad.generation
    → lookup ad.member_id r.members ≡ some m
    → lookup ad.member_id (bind_member (some ad) remote now r).0.members ≡ some m'
    → (m.ad_generation ≤ m'.ad_generation)
      × (ad.generation < m.ad_generation → m'.latest_ad ≡ m.latest_ad)
unfolding bind_member bind refresh
bind_member_generation ad remote now r m m' g e f = ground (
  arith,
  eq_refl ad.member_id,
  lookup-insert ad.member_id ad.member_id
      (refresh ad (if ad.lan_address == "" then remote else ad.lan_address) now m) r.members,
)
