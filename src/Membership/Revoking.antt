-- ===== src/Membership/Revoking.antt =====
-- src/cland/internal/membership/service.go: revoking a member, and joining after that.
use minti.Base.{
  ◌||◌, ℕ, String, Option, none, some, List, [], ◌∷◌, ◌++◌, ◌≡◌, inl, inr, refl, sym, ap, ◌∙◌,
  subst, ◌==◌, arith, if◌then◌else◌, Bool-cases, Option-cases, ok,
}
use minti.Clan.{
  RosterMember, Clan, Revocation, Revocations, load_clan, save_clan, load_revocations,
  save_revocations, or_empty,
}
use minti.Membership.{MembershipError, Service, unaffiliated, not_in_clan}
use minti.Membership.Roster.{admitted_entry, upsert_roster, mark_revoked}
use minti.Membership.Operations.{
  Outcome, with_clan, with_saved, admit_member, welcome, record_revocation, revoke, revoke_in,
}
use minti.Membership.Effects.{
  entry_of, entry_of-upsert_roster, entry_of-mark_revoked, revoked_entry,
}

-- The roster on disk.
unfoldable pub saved_roster : Option Clan → List RosterMember
saved_roster none = []
saved_roster (some c) = c.roster

unfoldable pub saved_revocations : Option Revocations → List Revocation
saved_revocations none = []
saved_revocations (some r) = r.entries

abbrev pub roster_of : Service → List RosterMember
roster_of s = saved_roster s.store.clan_file

abbrev pub revocations_of : Service → List Revocation
revocations_of s = saved_revocations s.store.revocations_file

-- An operation on an active clan succeeds only as its body does.
with_clan-ok :
    {A : Type 0} (e : MembershipError) (body : Clan → Service → Outcome A) (s : Service) (a : A)
    → (with_clan e body s).1 ≡ ok a
    → (clan : Clan) × (s.store.clan_file ≡ some clan) × (with_clan e body s ≡ body clan s)
unfolding with_clan load_clan
with_clan-ok e body s a h = elim (Bool-cases s.store.clan_readable) [
  | inr r ↦ ground arith
  | inl r ↦ elim (Option-cases s.store.clan_file) [
    | inl f ↦ ground arith
    | inr (clan, f) ↦ (clan, f, ground arith)
  ]
]

with_saved-ok :
    {A : Type 0} (roster : List RosterMember) (clan : Clan) (body : Service → Outcome A)
    (s : Service) (a : A)
    → (with_saved roster clan body s).1 ≡ ok a
    → with_saved roster clan body s
      ≡ body (record s {
        store = record s.store { clan_file = some (record clan { roster = roster }) };
      })
unfolding with_saved save_clan
with_saved-ok roster clan body s a h = ground arith

admit_member-saves :
    (tool id pub_key : String) (now : ℕ) (clan : Clan) (s : Service) (r : List RosterMember)
    → (admit_member tool id pub_key now clan s).1 ≡ ok r
    → (roster_of (admit_member tool id pub_key now clan s).0
        ≡ upsert_roster clan.roster (admitted_entry id pub_key now))
      × (revocations_of (admit_member tool id pub_key now clan s).0 ≡ revocations_of s)
unfolding admit_member saved_roster
admit_member-saves tool id pub_key now clan s r h =
    let saved =
      with_saved-ok (upsert_roster clan.roster (admitted_entry id pub_key now)) clan _ s r h in
    (ap (λ x. roster_of x.0) saved, ap (λ x. revocations_of x.0) saved)

welcome-saves :
    (id pub_key : String) (now : ℕ) (s : Service) (r : List RosterMember)
    → (welcome id pub_key now s).1 ≡ ok r
    → (roster_of (welcome id pub_key now s).0
        ≡ upsert_roster (roster_of s) (admitted_entry id pub_key now))
      × (revocations_of (welcome id pub_key now s).0 ≡ revocations_of s)
unfolding welcome saved_roster
welcome-saves id pub_key now s r h = elim (Bool-cases (id == "" || pub_key == "")) [
  | inl e ↦ ground arith
  | inr e ↦
      let body = admit_member "membership.welcome" id pub_key now in
      let inner : (with_clan not_in_clan body s).1 ≡ ok r = rw e at h in
      let (clan, f, q) = with_clan-ok not_in_clan body s r inner in
      let (a, b) =
        admit_member-saves "membership.welcome" id pub_key now clan s r
          (ap (λ x. x.1) (sym q) ∙ inner) in
      rw e (
        rw q
          (a ∙ ap (λ o. upsert_roster (saved_roster o) (admitted_entry id pub_key now)) (sym f), b))
]

record_revocation-saves :
    (entry : Revocation) (s : Service)
    → (record_revocation entry s).1 ≡ ok tt
    → (roster_of (record_revocation entry s).0 ≡ roster_of s)
      × (revocations_of (record_revocation entry s).0 ≡ revocations_of s ++ entry ∷ [])
unfolding record_revocation load_revocations save_revocations or_empty saved_revocations
    saved_roster
record_revocation-saves entry s h = elim (Option-cases s.store.revocations_file) [
  | inl f ↦ (ground arith, ground arith)
  | inr (r, f) ↦ (ground arith, ground arith)
]

-- What a successful revocation leaves on disk.
abbrev Revokes : String → List RosterMember → Service → Service → Type 0
Revokes id roster s t =
    (roster_of t ≡ (mark_revoked id roster).0)
    × ((entry : Revocation) × (entry.member_id ≡ id)
        × (revocations_of t ≡ revocations_of s ++ entry ∷ []))

revoke_in-saves :
    (pub_hash : String → String) (id reason revoker : String) (now : ℕ) (clan : Clan) (s : Service)
    → (revoke_in pub_hash id reason revoker now clan s).1 ≡ ok tt
    → Revokes id clan.roster s (revoke_in pub_hash id reason revoker now clan s).0
unfolding revoke_in saved_roster
revoke_in-saves pub_hash id reason revoker now clan s h =
    elim (Option-cases (mark_revoked id clan.roster).1) [
      | inl g ↦ ground arith
      | inr (pub_key, g) ↦
          let entry : Revocation = record {
            member_id = id;
            pub_key_hash = pub_hash pub_key;
            revoked_at = now;
            revoked_by = revoker;
            reason = reason;
          } in
          let roster = (mark_revoked id clan.roster).0 in
          let saved =
            with_saved-ok roster clan (record_revocation entry) s tt (rw (g, revoke_in) at h) in
          let (a, b) =
            record_revocation-saves entry
              (record s {
                store = record s.store { clan_file = some (record clan { roster = roster }) };
              })
              (ap (λ x. x.1) (sym saved) ∙ rw (g, revoke_in) at h) in
          let step : revoke_in pub_hash id reason revoker now clan s
              ≡ with_saved roster clan (record_revocation entry) s =
            rw (g, revoke_in) refl in
          subst (λ x. Revokes id clan.roster s x.0) (sym (step ∙ saved)) (a, (entry, refl, b))
    ]

revoke-saves :
    (pub_hash : String → String) (id reason revoker : String) (now : ℕ) (s : Service)
    → (revoke pub_hash id reason revoker now s).1 ≡ ok tt
    → Revokes id (roster_of s) s (revoke pub_hash id reason revoker now s).0
unfolding revoke saved_roster
revoke-saves pub_hash id reason revoker now s h = elim (Bool-cases (id == "")) [
  | inl e ↦ ground arith
  | inr e ↦
      let body = revoke_in pub_hash id reason revoker now in
      let inner : (with_clan unaffiliated body s).1 ≡ ok tt = rw e at h in
      let (clan, f, q) = with_clan-ok unaffiliated body s tt inner in
      let start : revoke pub_hash id reason revoker now s ≡ with_clan unaffiliated body s =
        rw e refl in
      subst (λ o. Revokes id (saved_roster o) s (revoke pub_hash id reason revoker now s).0) (sym f)
        (subst (λ x. Revokes id clan.roster s x.0) (sym (start ∙ q))
          (revoke_in-saves pub_hash id reason revoker now clan s (ap (λ x. x.1) (sym q) ∙ inner)))
]

-- A revocation that succeeds turns the member's entry on disk to revoked, leaves every other entry
-- as it is, and adds to the revocation list one entry, for that member.
pub revoke-effect :
    (pub_hash : String → String) (id reason revoker j : String) (now : ℕ) (s : Service)
    → (revoke pub_hash id reason revoker now s).1 ≡ ok tt
    → (entry_of j (roster_of (revoke pub_hash id reason revoker now s).0)
        ≡ (if id == j then revoked_entry (entry_of j (roster_of s)) else entry_of j (roster_of s)))
      × ((entry : Revocation) × (entry.member_id ≡ id)
          × (revocations_of (revoke pub_hash id reason revoker now s).0
              ≡ revocations_of s ++ entry ∷ []))
revoke-effect pub_hash id reason revoker j now s h =
    let (a, b) = revoke-saves pub_hash id reason revoker now s h in
    (ap (entry_of j) a ∙ entry_of-mark_revoked id j (roster_of s), b)

-- A welcome that succeeds gives the member an admitted entry, whatever its entry was, leaves every
-- other entry as it is, and leaves the revocation list alone.
pub welcome-effect :
    (id pub_key j : String) (now : ℕ) (s : Service) (r : List RosterMember)
    → (welcome id pub_key now s).1 ≡ ok r
    → (entry_of j (roster_of (welcome id pub_key now s).0)
        ≡ (if id == j then some (admitted_entry id pub_key now) else entry_of j (roster_of s)))
      × (revocations_of (welcome id pub_key now s).0 ≡ revocations_of s)
welcome-effect id pub_key j now s r h =
    let (a, b) = welcome-saves id pub_key now s r h in
    (ap (entry_of j) a ∙ entry_of-upsert_roster j (admitted_entry id pub_key now) (roster_of s), b)
