-- ===== src/Examples/Members.antt =====
-- The theorems on membership, applied to a sample service.
use minti.Base.{IsDistinct, String, false, some, List, [], ◌∷◌, ◌≡◌, refl, err, is_ok}
use minti.Clan.{is_active, load_clan, save_clan, load_revocations, save_revocations, or_empty}
use minti.Clan.RosterProgress.{member_ids}
use minti.Membership.{InviteToken, PendingKnock, KnockStore, Service, invite_unknown}
use minti.Membership.Invites.{redeem}
use minti.Membership.Knocks.{consume}
use minti.Membership.Roster.{admitted_entry, upsert_roster, mark_revoked}
use minti.Membership.Operations.{
  revoke, revoke_in, record_revocation, welcome, admit_member, with_clan, with_saved,
}
use minti.Membership.SingleUse.{run_ops, redeem_op, sweep_op, redeem-once}
use minti.Membership.Decided
use minti.Membership.Effects.{entry_of, revoked_entry}
use minti.Membership.Revoking.{roster_of, revoke-effect, welcome-effect, saved_roster}
use minti.Membership.Distinct.{founded, then_step, joined, Reach-IsDistinct}
use minti.Examples.{entry, store, apart}

abbrev invite : InviteToken
invite = record {
  token = "t1";
  clan_id = "clan";
  issued_by = "ann";
  issued_at = 10;
  expires_at = 70;
}

abbrev invites : List (String × InviteToken)
invites = ("t1", invite) ∷ []

redeem-once_example :
    redeem "t1" 30 (run_ops (redeem_op "t2" 21 ∷ sweep_op 25 ∷ []) (redeem "t1" 20 invites).0) ≡ (
      run_ops (redeem_op "t2" 21 ∷ sweep_op 25 ∷ []) (redeem "t1" 20 invites).0,
      err invite_unknown,
    )
redeem-once_example = redeem-once "t1" 20 30 (redeem_op "t2" 21 ∷ sweep_op 25 ∷ []) invites tt

abbrev pending : PendingKnock
pending = record {
  knock_id = "k1";
  clan_id = "clan";
  joiner_member_id = "joe";
  joiner_pub_key_b64 = "key";
  joiner_lan_address = "10.0.0.7:1";
  expires_at = 300;
  state = "pending";
}

abbrev knocks : KnockStore
knocks = record { knocks = ("k1", pending) ∷ []; rl_src = []; rl_clan = [] }

consume-once_example :
    is_ok (consume "k1" "denied" 30 (consume "k1" "accepted" 20 knocks).0).1 ≡ false
unfolding Decided.run_ops
consume-once_example =
    Decided.consume-once "k1" "accepted" "denied" 20 30 [] knocks (apart "accepted" "pending" refl)
      tt

abbrev service : Service
service = record { store = store; invites = invites; knocks = knocks; audit_log = []; events = [] }

revoke-effect_example :
    entry_of "bob" (roster_of (revoke (λ s. s) "bob" "lost" "ann" 50 service).0)
    ≡ some (entry "bob" "revoked")
unfolding revoke revoke_in with_clan with_saved record_revocation mark_revoked load_clan save_clan
    is_active load_revocations save_revocations or_empty entry_of revoked_entry saved_roster
revoke-effect_example = (revoke-effect (λ s. s) "bob" "lost" "ann" "bob" 50 service refl).0

-- Bob, revoked, is welcomed again.
welcome-effect_example :
    entry_of "bob"
      (roster_of (welcome "bob" "key" 60 (revoke (λ s. s) "bob" "lost" "ann" 50 service).0).0)
    ≡ some (admitted_entry "bob" "key" 60)
unfolding revoke revoke_in with_clan with_saved record_revocation mark_revoked load_clan save_clan
    is_active load_revocations save_revocations or_empty welcome admit_member upsert_roster
welcome-effect_example =
    (welcome-effect "bob" "key" "bob" 60 (revoke (λ s. s) "bob" "lost" "ann" 50 service).0 _ refl).0

Reach-IsDistinct_example :
    IsDistinct (member_ids (upsert_roster (entry "ann" "active" ∷ []) (entry "bob" "admitted")))
Reach-IsDistinct_example =
    Reach-IsDistinct (upsert_roster (entry "ann" "active" ∷ []) (entry "bob" "admitted")) (
      then_step (entry "ann" "active" ∷ []) _ (founded (entry "ann" "active"))
        (joined (entry "bob" "admitted") (entry "ann" "active" ∷ [])))
