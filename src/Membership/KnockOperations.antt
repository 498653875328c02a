-- ===== src/Membership/KnockOperations.antt =====
-- src/cland/internal/membership/knock.go and service.go: the operations of the service on knocks, and
-- the sweep of all its stores.
use minti.Base.{
  ℕ, ◌+◌, String, Bool, true, false, Option, none, some, List, not, ◌||◌, ◌==◌, if◌then◌else◌, ok,
  err,
}
use minti.Clan.{RosterMember, Clan}
use minti.Membership.{
  fields_required, not_in_clan, unaffiliated, knock_clan_id, invalid_key, rand_failed, seal_failed,
  delivery_failed, PendingKnock, Service,
}
use minti.Membership.Invites.{sweep}
use minti.Membership.Knocks.{knock_ttl, consume, list_knocks, store_knock, sweep_knocks}
use minti.Membership.Operations.{Outcome, audited, with_clan, admit_member, sweep_zombies}

-- One round of `StartZombieSweep`.
unfoldable pub sweep_all : (now : ℕ) → Service → Service
sweep_all now s =
    let t = (sweep_zombies now s).0 in
    record t { invites = (sweep now t.invites).0; knocks = (sweep_knocks now t.knocks).0 }

pub record KnockRequest : Type 0 where
  pub clan_id : String
  pub joiner_member_id : String
  pub joiner_pub_key_b64 : String
  pub joiner_x25519_pub_b64 : String
  pub joiner_lan_address : String

-- The knock that `Knock` stores.
abbrev pub pending_knock : KnockRequest → (knock_id : String) (now : ℕ) → PendingKnock
pending_knock req knock_id now = record {
  knock_id = knock_id;
  clan_id = req.clan_id;
  joiner_member_id = req.joiner_member_id;
  joiner_pub_key_b64 = req.joiner_pub_key_b64;
  joiner_lan_address = req.joiner_lan_address;
  expires_at = now + knock_ttl;
  state = "pending";
}

abbrev pub is_incomplete : KnockRequest → Bool
is_incomplete req =
    req.clan_id == ""
    || req.joiner_member_id == ""
    || req.joiner_pub_key_b64 == ""
    || req.joiner_x25519_pub_b64 == ""
    || req.joiner_lan_address == ""

-- `is_key` tells whether a text decodes to 32 bytes; `random` is the id that is drawn, none if
-- crypto/rand or the derivation of the keys fails.
unfoldable pub knock :
    (is_key : String → Bool) (random : Option String)
    → KnockRequest
    → (source_ip : String) (now : ℕ) → Service
    → Outcome PendingKnock
knock is_key random req source_ip now s =
    if is_incomplete req
    then (s, err fields_required)
    else with_clan not_in_clan
        (λ clan s.
          if not (clan.clan_id == req.clan_id)
          then (s, err knock_clan_id)
          else if not (is_key req.joiner_x25519_pub_b64)
          then (s, err invalid_key)
          else elim random [
            | none ↦ (s, err rand_failed)
            | some knock_id ↦
                let pk = pending_knock req knock_id now in
                let (store, refused) = store_knock pk source_ip now s.knocks in
                let counted = record s { knocks = store } in
                elim refused [
                  | some e ↦ (counted, err e)
                  | none ↦ (audited "membership.knock" "allow" pk.joiner_member_id counted, ok pk)
                ]
          ])
        s

unfoldable pub knock_list : (now : ℕ) → Service → Outcome (List PendingKnock)
knock_list now s = with_clan unaffiliated (λ clan s. (s, ok (list_knocks now s.knocks))) s

-- `deliver` tells whether the sealed welcome reaches the joiner, none if the sealing fails.
unfoldable pub knock_accept :
    (deliver : PendingKnock → Clan → Option Bool) (knock_id : String) (now : ℕ)
    → Service
    → Outcome (List RosterMember)
knock_accept deliver knock_id now s =
    let (store, res) = consume knock_id "accepted" now s.knocks in
    let taken = record s { knocks = store } in
    elim res [
      | err e ↦ (taken, err e)
      | ok pk ↦
          with_clan unaffiliated
            (λ clan s. elim (deliver pk clan) [
              | none ↦ (s, err seal_failed)
              | some false ↦ (
                audited "membership.knock_accept" "deny" pk.joiner_member_id s,
                err delivery_failed,
              )
              | some true ↦
                  admit_member "membership.knock_accept" pk.joiner_member_id pk.joiner_pub_key_b64
                    now clan s
            ])
            taken
    ]

unfoldable pub knock_deny : (knock_id : String) (now : ℕ) → Service → Outcome Unit
knock_deny knock_id now s =
    let (store, res) = consume knock_id "denied" now s.knocks in
    let taken = record s { knocks = store } in
    elim res [
      | err e ↦ (taken, err e)
      | ok pk ↦ (audited "membership.knock_deny" "allow" pk.joiner_member_id taken, ok tt)
    ]
