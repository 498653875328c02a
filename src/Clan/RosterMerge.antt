-- ===== src/Clan/RosterMerge.antt =====
-- src/cland/internal/state/state.go: the digest of a roster, and the merge of two by progress.
use Prim.Native.String.{◌++◌ as append}
use minti.Base.{
  ℕ, String, List, [], ◌∷◌, ◌++◌, map, none, some, ltb, ◌==◌, if◌then◌else◌, lookup, insert,
  sort_slice, str_lt,
}
use minti.Clan.{RosterMember}
use minti.Clan.RevocationList.{join_lines, is_seen}

-- The bytes that `RosterDigest` hashes.
unfoldable pub digest_input : List RosterMember → String
digest_input [] = ""
digest_input (m ∷ ms) =
    join_lines (sort_slice str_lt (map (λ r. append r.member_id (append ":" r.state)) (m ∷ ms)))

unfoldable pub roster_digest : (sha256 : String → String) → List RosterMember → String
roster_digest sha256 roster = sha256 (digest_input roster)

-- The map `rank`; a state that it lacks reads as 0.
unfoldable pub rank : String → ℕ
rank s = if s == "admitted" then 1 else if s == "active" then 2 else if s == "revoked" then 3 else 0

abbrev Table : Type 0
Table = List (String × RosterMember)

-- The loop over `local` that fills `byID`.
unfoldable pub index_local : List RosterMember → Table → Table
index_local [] t = t
index_local (m ∷ ms) t = index_local ms (insert m.member_id m t)

-- One round of the loop over `other`.
unfoldable pub absorb : RosterMember → Table → Table
absorb m t = elim (lookup m.member_id t) [
  | none ↦ insert m.member_id m t
  | some existing ↦
      if ltb (rank existing.state) (rank m.state)
      then insert m.member_id (record existing { state = m.state }) t
      else t
]

unfoldable pub index_other : List RosterMember → Table → Table
index_other [] t = t
index_other (m ∷ ms) t = index_other ms (absorb m t)

abbrev zero_member : RosterMember
zero_member = record {
  member_id = "";
  pub_key_b64 = "";
  state = "";
  admitted_at = 0;
  last_seen_at = 0;
}

-- `byID[id]`, Go's zero value for a missing key.
unfoldable pub at_id : Table → String → RosterMember
at_id t id = elim (lookup id t) [ none ↦ zero_member | some m ↦ m ]

unfoldable pub emit_local : Table → List RosterMember → List RosterMember
emit_local t [] = []
emit_local t (m ∷ ms) = at_id t m.member_id ∷ emit_local t ms

unfoldable pub emit_other : Table → List String → List RosterMember → List RosterMember
emit_other t seen [] = []
emit_other t seen (m ∷ ms) =
    let again = emit_other t seen ms in
    let fresh = at_id t m.member_id ∷ emit_other t (m.member_id ∷ seen) ms in
    if is_seen m.member_id seen then again else fresh

unfoldable pub merge_roster_states : List RosterMember → List RosterMember → List RosterMember
merge_roster_states local other =
    let t = index_other other (index_local local []) in
    emit_local t local ++ emit_other t (map (λ m. m.member_id) local) other
