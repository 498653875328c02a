-- ===== src/Membership/Operations.antt =====
-- src/cland/internal/membership/service.go: the operations of the service.
use minti.Base.{
  ℕ, ◌-◌, String, not, Option, none, some, List, [], ◌∷◌, ◌++◌, ◌==◌, ◌||◌, eqb, if◌then◌else◌,
  length, Result, ok, err,
}
use minti.Clan.{
  RosterMember, Clan, zero_clan, Revocation, is_active, load_clan, save_clan, load_revocations,
  save_revocations,
}
use minti.Membership.{
  MembershipError, fields_required, not_in_clan, unaffiliated, already_unaffiliated, clan_changed,
  not_in_roster, store_failed, InviteToken, Service,
}
use minti.Membership.Invites.{issue, redeem}
use minti.Membership.Roster.{admitted_entry, upsert_roster, mark_revoked, promote, drop_zombies}

-- A service after an operation, with the operation's error or result.
abbrev pub Outcome : Type 0 → Type 0
Outcome A = Service × Result MembershipError A

abbrev pub audited : (tool decision id : String) → Service → Service
audited tool decision id s = record s {
  audit_log = s.audit_log ++ (record { tool = tool; decision = decision; subject = id }) ∷ [];
}

abbrev pub fired : (kind id : String) → Service → Service
fired kind id s = record s { events = s.events ++ (kind, id) ∷ [] }

-- Load the clan, give up with the error if it is not active, or go on with it.
unfoldable pub with_clan :
    {A : Type 0} → MembershipError → (Clan → Service → Outcome A) → Service → Outcome A
with_clan inactive body s = elim (load_clan s.store) [
  | err e ↦ (s, err (store_failed e))
  | ok none ↦ (s, err inactive)
  | ok (some clan) ↦ if is_active (some clan) then body clan s else (s, err inactive)
]

-- Save the roster, and go on if that succeeds.
unfoldable pub with_saved :
    {A : Type 0} → List RosterMember → Clan → (Service → Outcome A) → Service → Outcome A
with_saved roster clan body s =
    let (st, failed) = save_clan (record clan { roster = roster }) s.store in
    elim failed [
      | some e ↦ (record s { store = st }, err (store_failed e))
      | none ↦ body (record s { store = st })
    ]

unfoldable pub issue_invite :
    (issuer : String) (ttl : ℕ) (random : Option String) (now : ℕ) → Service → Outcome InviteToken
issue_invite issuer ttl random now s =
    with_clan not_in_clan
      (λ clan s.
        let (tokens, res) = issue clan.clan_id issuer ttl random now s.invites in
        elim res [
          | err e ↦ (record s { invites = tokens }, err e)
          | ok tok ↦
              (audited "membership.invite" "allow" issuer (record s { invites = tokens }), ok tok)
        ])
      s

-- The end that all ways of joining share: the roster with the joiner's new entry.
unfoldable pub admit_member :
    (tool id pub_key : String) (now : ℕ) → Clan → Service → Outcome (List RosterMember)
admit_member tool id pub_key now clan s =
    let updated = upsert_roster clan.roster (admitted_entry id pub_key now) in
    with_saved updated clan
      (λ s. (fired "member_joined" id (audited tool "allow" id s), ok updated)) s

unfoldable pub redeem_invite :
    (token id pub_key : String) (now : ℕ) → Service → Outcome (List RosterMember)
redeem_invite token id pub_key now s =
    if token == "" || id == "" || pub_key == ""
    then (s, err fields_required)
    else (let (tokens, res) = redeem token now s.invites in
        let taken = record s { invites = tokens } in
        elim res [
          | err e ↦ (audited "membership.join_token" "deny" id taken, err e)
          | ok tok ↦
              with_clan clan_changed
                (λ clan s.
                  if not (clan.clan_id == tok.clan_id)
                  then (s, err clan_changed)
                  else admit_member "membership.join_token" id pub_key now clan s)
                taken
        ])

unfoldable pub welcome : (id pub_key : String) (now : ℕ) → Service → Outcome (List RosterMember)
welcome id pub_key now s =
    if id == "" || pub_key == ""
    then (s, err fields_required)
    else with_clan not_in_clan (admit_member "membership.welcome" id pub_key now) s

unfoldable pub members : Service → Outcome (List RosterMember)
members s = with_clan unaffiliated (λ clan s. (s, ok clan.roster)) s

unfoldable pub leave : Service → Outcome Unit
leave s =
    with_clan already_unaffiliated
      (λ clan s.
        let (st, failed) = save_clan zero_clan s.store in
        elim failed [
          | some e ↦ (record s { store = st }, err (store_failed e))
          | none ↦
              (audited "membership.leave" "allow" clan.clan_id (record s { store = st }), ok tt)
        ])
      s

-- The end of `Revoke`, once the roster is saved. `pub_hash` is `memberPubHash`.
unfoldable pub record_revocation : Revocation → Service → Outcome Unit
record_revocation entry s = elim (load_revocations s.store) [
  | err e ↦ (s, err (store_failed e))
  | ok revs ↦
      let (st, failed) =
        save_revocations (record revs { entries = revs.entries ++ entry ∷ [] }) s.store in
      elim failed [
        | some e ↦ (record s { store = st }, err (store_failed e))
        | none ↦ (
          fired "member_revoked" entry.member_id
              (audited "membership.revoke" "allow" entry.member_id (record s { store = st })),
          ok tt,
        )
      ]
]

-- `Revoke` in an active clan.
unfoldable pub revoke_in :
    (pub_hash : String → String) (id reason revoker : String) (now : ℕ)
    → Clan
    → Service
    → Outcome Unit
revoke_in pub_hash id reason revoker now clan s = elim (mark_revoked id clan.roster).1 [
  | none ↦ (s, err not_in_roster)
  | some pub_key ↦
      with_saved (mark_revoked id clan.roster).0 clan
        (record_revocation (record {
          member_id = id;
          pub_key_hash = pub_hash pub_key;
          revoked_at = now;
          revoked_by = revoker;
          reason = reason;
        }))
        s
]

unfoldable pub revoke :
    (pub_hash : String → String) (id reason revoker : String) (now : ℕ) → Service → Outcome Unit
revoke pub_hash id reason revoker now s =
    if id == ""
    then (s, err fields_required)
    else with_clan unaffiliated (revoke_in pub_hash id reason revoker now) s

-- Unaffiliated is no error here.
unfoldable pub promote_to_active : (id : String) → Service → Outcome Unit
promote_to_active id s = if id == "" then (s, ok tt) else elim (load_clan s.store) [
  | err e ↦ (s, err (store_failed e))
  | ok none ↦ (s, ok tt)
  | ok (some clan) ↦
      if not (is_active (some clan)) then (s, ok tt) else elim (promote id clan.roster) [
        | none ↦ (s, ok tt)
        | some roster ↦
            with_saved roster clan (λ s. (audited "membership.promote" "allow" id s, ok tt)) s
      ]
]

unfoldable pub sweep_zombies : (now : ℕ) → Service → Outcome ℕ
sweep_zombies now s = elim (load_clan s.store) [
  | err e ↦ (s, err (store_failed e))
  | ok none ↦ (s, ok 0)
  | ok (some clan) ↦
      let kept = drop_zombies now clan.roster in
      let purged = length clan.roster - length kept in
      if not (is_active (some clan)) || eqb purged 0
      then (s, ok 0)
      else with_saved kept clan (λ s. (audited "membership.zombie_sweep" "allow" "" s, ok purged)) s
]
