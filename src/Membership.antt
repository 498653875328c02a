-- ===== src/Membership.antt =====
-- src/cland/internal/membership: how members come into the clan and leave it. Times are nanoseconds,
-- 0 for Go's zero time; each operation takes the clock that it reads. What crypto/rand returns is an
-- argument, none for its error.
pub mod Invites
pub mod Knocks
pub mod Roster
pub mod Operations
pub mod KnockOperations
pub mod SingleUse
pub mod Decided
pub mod Handlers
pub mod Distinct
pub mod Effects
pub mod Revoking
use minti.Base.{ℕ, String, List, []}
use minti.Clan.{Store, StoreError}

pub data MembershipError : Type 0 where
  fields_required : MembershipError
  not_in_clan : MembershipError
  unaffiliated : MembershipError
  already_unaffiliated : MembershipError
  clan_changed : MembershipError
  not_in_roster : MembershipError
  rand_failed : MembershipError
  invite_unknown : MembershipError
  invite_expired : MembershipError
  invite_ttl : MembershipError
  knock_not_found : MembershipError
  knock_expired : MembershipError
  knock_not_pending : MembershipError
  knock_rate_limit : MembershipError
  knock_clan_id : MembershipError
  invalid_key : MembershipError
  seal_failed : MembershipError
  delivery_failed : MembershipError
  store_failed : StoreError → MembershipError

pub record InviteToken : Type 0 where
  pub token : String
  pub clan_id : String
  pub issued_by : String
  pub issued_at : ℕ
  pub expires_at : ℕ

-- The fields that the store and the operations use; the keys of the exchange stay opaque.
pub record PendingKnock : Type 0 where
  pub knock_id : String
  pub clan_id : String
  pub joiner_member_id : String
  pub joiner_pub_key_b64 : String
  pub joiner_lan_address : String
  pub expires_at : ℕ
  pub state : String  -- pending | accepted | denied

pub record RlBucket : Type 0 where
  pub count : ℕ
  pub window_end : ℕ

pub record KnockStore : Type 0 where
  pub knocks : List (String × PendingKnock)
  pub rl_src : List (String × RlBucket)
  pub rl_clan : List (String × RlBucket)

-- `subject` is the member or the clan that the entry's arguments name first, if any.
pub record AuditEvent : Type 0 where
  pub tool : String
  pub decision : String
  pub subject : String

-- `Service`, with the audit log and the events that it has fired.
pub record Service : Type 0 where
  pub store : Store
  pub invites : List (String × InviteToken)
  pub knocks : KnockStore
  pub audit_log : List AuditEvent
  pub events : List (String × String)
