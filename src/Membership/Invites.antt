-- ===== src/Membership/Invites.antt =====
-- src/cland/internal/membership/invite.go: the store of invite tokens.
use minti.Base.{
  ℕ, ◌+◌, ◌-◌, String, Option, none, some, List, ltb, not, ◌||◌, if◌then◌else◌, Result, ok, err,
  keep, length, lookup, insert, delete,
}
use minti.Membership.{
  InviteToken, MembershipError, rand_failed, invite_unknown, invite_expired, invite_ttl,
}

abbrev pub invite_ttl_min : ℕ
invite_ttl_min = 60000000000

abbrev pub invite_ttl_max : ℕ
invite_ttl_max = 86400000000000

unfoldable pub issue :
    (clan_id issued_by : String) (ttl : ℕ) (random : Option String) (now : ℕ)
    → List (String × InviteToken)
    → List (String × InviteToken) × Result MembershipError InviteToken
issue clan_id issued_by ttl random now tokens =
    if ltb ttl invite_ttl_min || ltb invite_ttl_max ttl
    then (tokens, err invite_ttl)
    else elim random [
      | none ↦ (tokens, err rand_failed)
      | some token ↦
          let tok : InviteToken = record {
            token = token;
            clan_id = clan_id;
            issued_by = issued_by;
            issued_at = now;
            expires_at = now + ttl;
          } in
          (insert token tok tokens, ok tok)
    ]

unfoldable pub redeem :
    (token : String) (now : ℕ)
    → List (String × InviteToken)
    → List (String × InviteToken) × Result MembershipError InviteToken
redeem token now tokens = elim (lookup token tokens) [
  | none ↦ (tokens, err invite_unknown)
  | some tok ↦
      if ltb tok.expires_at now
      then (delete token tokens, err invite_expired)
      else (delete token tokens, ok tok)
]

-- The tokens that are left, and the number purged.
unfoldable pub sweep : (now : ℕ) → List (String × InviteToken) → List (String × InviteToken) × ℕ
sweep now tokens =
    let kept = keep (λ e. not (ltb e.1.expires_at now)) tokens in
    (kept, length tokens - length kept)
