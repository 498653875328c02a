-- ===== src/Examples/Clans.antt =====
-- The theorems on the clan's files, the registry and the sliding window, applied to samples.
use minti.Base.{IsDistinct, List, [], ◌∷◌, ◌≡◌, inl, inr, refl, arith}
use minti.Clan.{RosterMember}
use minti.Clan.RevocationList.{ids, merge, digest}
use minti.Clan.RevocationUnion.{merge-digest_converges}
use minti.Clan.RosterMerge.{merge_roster_states, rank}
use minti.Clan.RosterProgress.{member_ids, progress, progress-merge}
use minti.Peers.{new_registry, upsert_candidate}
use minti.Peers.Capacity.{IsValid, here, next, upsert, Reach-IsValid, new_registry-IsValid}
use minti.Window.{admit_all, ideal, IsRising}
use minti.Window.Bound.{admit_all-ideal}
use minti.Examples.{entry, clan, some_revoked, others_revoked, apart}

merge-digest_converges_example :
    digest (λ s. s) (merge some_revoked others_revoked)
    ≡ digest (λ s. s) (merge others_revoked some_revoked)
merge-digest_converges_example = merge-digest_converges (λ s. s) some_revoked others_revoked

pub some_revoked-IsDistinct : IsDistinct (ids some_revoked.entries)
some_revoked-IsDistinct =
    (λ h. elim h [ inl p ↦ apart "zoe" "kim" refl p | inr q ↦ q ], (λ h. h, tt))

-- Another member saw Eve advertise, and Bob revoked.
abbrev other_roster : List RosterMember
other_roster = entry "eve" "active" ∷ entry "bob" "revoked" ∷ []

roster-IsDistinct : IsDistinct (member_ids clan.roster)
roster-IsDistinct = (
  λ h. elim h [
    | inl p ↦ apart "ann" "bob" refl p
    | inr (inl p) ↦ apart "ann" "eve" refl p
    | inr (inr q) ↦ q
  ],
  (λ h. elim h [ inl p ↦ apart "bob" "eve" refl p | inr q ↦ q ], (λ h. h, tt)),
)

progress-merge_example :
    progress "bob" (merge_roster_states clan.roster other_roster) ≡ progress "bob" other_roster
unfolding progress rank
progress-merge_example = progress-merge "bob" clan.roster other_roster roster-IsDistinct

Reach-IsValid_example : IsValid (upsert_candidate "10.0.0.9:7946" "manual" 3 new_registry).0
Reach-IsValid_example =
    Reach-IsValid (next here (upsert "10.0.0.9:7946" "manual" 3)) new_registry-IsValid

rising : IsRising 0 (1 ∷ 2 ∷ 3 ∷ 8 ∷ [])
rising = (omega arith, (omega arith, (omega arith, (omega arith, tt))))

admit_all-ideal_example :
    (admit_all 2 5 (1 ∷ 2 ∷ 3 ∷ 8 ∷ []) ([], [])).1 ≡ ideal 2 5 (1 ∷ 2 ∷ 3 ∷ 8 ∷ []) []
admit_all-ideal_example = admit_all-ideal 2 5 (1 ∷ 2 ∷ 3 ∷ 8 ∷ []) rising
