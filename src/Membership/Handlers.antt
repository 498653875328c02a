-- ===== src/Membership/Handlers.antt =====
-- src/cland/internal/membership/handlers.go: the endpoints of membership. A body that does not decode is none, an
-- origin that is not authenticated is "".
use minti.Base.{
  ℕ, ◌*◌, ◌-◌, ◌%◌, ◌^◌, String, Option, none, some, List, ◌==◌, eqb, ltb, if◌then◌else◌, Result,
  ok, err, ℤ, pos, negsuc, suc,
}
use minti.Clan.{RosterMember}
use minti.Membership.{
  InviteToken, Service, MembershipError, invite_unknown, invite_expired, invite_ttl,
  knock_not_found, knock_expired, knock_not_pending, knock_rate_limit, knock_clan_id,
}
use minti.Membership.Operations.{issue_invite, redeem_invite, welcome, members, leave, revoke}

unfoldable pub status_for_err : MembershipError → ℕ
status_for_err invite_unknown = 403
status_for_err invite_expired = 403
status_for_err invite_ttl = 400
status_for_err knock_not_found = 404
status_for_err knock_expired = 410
status_for_err knock_not_pending = 409
status_for_err knock_rate_limit = 429
status_for_err knock_clan_id = 403
status_for_err _ = 400

-- The status, and what the body carries if the operation succeeded.
unfoldable pub answer : {A : Type 0} → Service × Result MembershipError A → Service × ℕ × Option A
answer (s, ok a) = (s, 200, some a)
answer (s, err e) = (s, status_for_err e, none)

-- `time.Duration(seconds) * time.Second` in int64, and one hour for 0. A negative duration, which is
-- below the least that an invite may have, is read as 0, which is so too.
unfoldable pub invite_duration : ℤ → ℕ
invite_duration (negsuc n) =
    let wrapped = (suc n * 1000000000) % 2 ^ 64 in
    if eqb wrapped 0 then 3600000000000 else if ltb (2 ^ 63) wrapped then 2 ^ 64 - wrapped else 0
invite_duration (pos n) =
    let wrapped = (n * 1000000000) % 2 ^ 64 in
    if eqb wrapped 0 then 3600000000000 else if ltb wrapped (2 ^ 63) then wrapped else 0

unfoldable pub handle_invite :
    (origin : String)
    → Option ℤ
    → (random : Option String) (now : ℕ) → Service
    → Service × ℕ × Option InviteToken
handle_invite origin none random now s = (s, 400, none)
handle_invite origin (some ttl_seconds) random now s =
    if origin == ""
    then (s, 401, none)
    else answer (issue_invite origin (invite_duration ttl_seconds) random now s)

-- Token, member id and public key. No authentication stands before this one.
unfoldable pub handle_join :
    Option (String × String × String)
    → (now : ℕ) → Service
    → Service × ℕ × Option (List RosterMember)
handle_join none now s = (s, 400, none)
handle_join (some (token, id, pub_key)) now s = answer (redeem_invite token id pub_key now s)

-- Member id and public key.
unfoldable pub handle_welcome :
    Option (String × String) → (now : ℕ) → Service → Service × ℕ × Option (List RosterMember)
handle_welcome none now s = (s, 400, none)
handle_welcome (some (id, pub_key)) now s = answer (welcome id pub_key now s)

unfoldable pub handle_members : Service → Service × ℕ × Option (List RosterMember)
handle_members s = answer (members s)

unfoldable pub handle_leave : Service → Service × ℕ × Option {0} Unit
handle_leave s = answer (leave s)

-- Member id and reason.
unfoldable pub handle_revoke :
    (pub_hash : String → String) (origin : String)
    → Option (String × String)
    → (now : ℕ) → Service
    → Service × ℕ × Option {0} Unit
handle_revoke pub_hash origin none now s = (s, 400, none)
handle_revoke pub_hash origin (some (id, reason)) now s =
    if origin == "" then (s, 401, none) else answer (revoke pub_hash id reason origin now s)
