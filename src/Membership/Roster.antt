-- ===== src/Membership/Roster.antt =====
-- src/cland/internal/membership/service.go: what the operations do to the roster.
use minti.Base.{
  ℕ, ◌+◌, String, Bool, not, Option, none, some, List, [], ◌∷◌, ◌==◌, ◌&&◌, ltb, if◌then◌else◌,
  keep,
}
use minti.Clan.{RosterMember}

-- A joiner's entry.
abbrev pub admitted_entry : (member_id pub_key : String) (now : ℕ) → RosterMember
admitted_entry member_id pub_key now = record {
  member_id = member_id;
  pub_key_b64 = pub_key;
  state = "admitted";
  admitted_at = now;
  last_seen_at = now;
}

unfoldable pub upsert_roster : List RosterMember → RosterMember → List RosterMember
upsert_roster [] m = m ∷ []
upsert_roster (existing ∷ roster) m =
    let rest = upsert_roster roster m in
    if existing.member_id == m.member_id then m ∷ roster else existing ∷ rest

-- The loop of `Revoke`: the roster, and the public key of the member if it is there.
unfoldable pub mark_revoked : (id : String) → List RosterMember → List RosterMember × Option String
mark_revoked id [] = ([], none)
mark_revoked id (m ∷ roster) =
    let rest = mark_revoked id roster in
    if m.member_id == id
    then (record m { state = "revoked" } ∷ roster, some m.pub_key_b64)
    else (m ∷ rest.0, rest.1)

-- The loop of `PromoteToActive`: the roster, if it changed.
unfoldable pub promote : (id : String) → List RosterMember → Option (List RosterMember)
promote id [] = none
promote id (m ∷ roster) =
    let rest = promote id roster in
    if m.member_id == id && m.state == "admitted"
    then some (record m { state = "active" } ∷ roster)
    else elim rest [ none ↦ none | some promoted ↦ some (m ∷ promoted) ]

abbrev pub zombie_max_age : ℕ
zombie_max_age = 86400000000000

-- `m.State == "admitted" && now.Sub(m.AdmittedAt) > ZombieMaxAge`
abbrev pub is_zombie : (now : ℕ) → RosterMember → Bool
is_zombie now m = m.state == "admitted" && ltb (m.admitted_at + zombie_max_age) now

unfoldable pub drop_zombies : (now : ℕ) → List RosterMember → List RosterMember
drop_zombies now roster = keep (λ m. not (is_zombie now m)) roster
