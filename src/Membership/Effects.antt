-- ===== src/Membership/Effects.antt =====
-- src/cland/internal/membership/service.go: what the operations do to a member's entry.
use minti.Base.{
  String, Option, none, some, List, [], ◌∷◌, ◌≡◌, refl, ◌==◌, arith, eq_iff, if◌then◌else◌,
}
use minti.Clan.{RosterMember}
use minti.Membership.Roster.{upsert_roster, mark_revoked}

-- The first entry of a member, which every search of the source finds.
unfoldable pub entry_of : (id : String) → List RosterMember → Option RosterMember
entry_of id [] = none
entry_of id (m ∷ roster) = if m.member_id == id then some m else entry_of id roster

unfoldable pub revoked_entry : Option RosterMember → Option RosterMember
revoked_entry none = none
revoked_entry (some m) = some (record m { state = "revoked" })

unfoldable pub promoted_entry : Option RosterMember → Option RosterMember
promoted_entry none = none
promoted_entry (some m) = some (if m.state == "admitted" then record m { state = "active" } else m)

-- Joining replaces the member's entry by the new one, whatever it was before, and no other's.
pub entry_of-upsert_roster :
    (id : String) (m : RosterMember) (roster : List RosterMember)
    → entry_of id (upsert_roster roster m)
      ≡ (if m.member_id == id then some m else entry_of id roster)
unfolding entry_of upsert_roster
entry_of-upsert_roster id m [] = refl
entry_of-upsert_roster id m (e ∷ roster) = ground (
  arith,
  eq_iff m.member_id id,
  eq_iff e.member_id id,
  eq_iff e.member_id m.member_id,
  entry_of-upsert_roster id m roster,
)

pub entry_of-mark_revoked :
    (id j : String) (roster : List RosterMember)
    → entry_of j (mark_revoked id roster).0
      ≡ (if id == j then revoked_entry (entry_of j roster) else entry_of j roster)
unfolding entry_of mark_revoked revoked_entry
entry_of-mark_revoked id j [] = ground arith
entry_of-mark_revoked id j (e ∷ roster) = ground (
  arith,
  eq_iff id j,
  eq_iff e.member_id id,
  eq_iff e.member_id j,
  entry_of-mark_revoked id j roster,
)
