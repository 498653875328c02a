-- ===== src/Toolexec/Signing.antt =====
-- src/cland/internal/toolexec/token.go: signing a token, and the checks on a token alone.
use minti.Base.{
  ℕ, String, Bool, true, false, Option, none, some, List, [], ◌∷◌, ◌==◌, not, ◌&&◌, ltb,
  if◌then◌else◌,
}
use minti.Clan.RevocationList.{join_lines}
use minti.Toolexec.{
  Token, ToolError, Crypto, sig_mismatch, wrong_target, expired, approved_in_future,
  malformed_token, is_later_by, is_after, is_ahead_by, clock_skew_tolerance,
}

abbrev pub canonical : Crypto → Token → String
canonical c t = join_lines (
    t.request_id
    ∷ t.origin_member
    ∷ t.target_member
    ∷ t.tool
    ∷ t.args_hash
    ∷ c.format_int t.approved_at
    ∷ c.format_int t.exp
    ∷ [])

unfoldable pub sign : Crypto → (key : String) → Token → Token
sign c key t = record t { sig = c.hex_encode (c.hmac key (canonical c t)) }

-- The loop over the keys. A nil key is the empty one.
unfoldable pub matches_any : Crypto → (message provided : String) → List String → Bool
matches_any c message provided [] = false
matches_any c message provided (k ∷ ks) =
    if k == ""
    then matches_any c message provided ks
    else if c.hmac k message == provided
    then true
    else matches_any c message provided ks

-- The error, if there is one.
unfoldable pub verify_hmac : Crypto → (keys : List String) → Token → Option ToolError
verify_hmac c keys t =
    if t.sig == "" then some sig_mismatch else elim (c.hex_decode (c.to_lower t.sig)) [
      | none ↦ some malformed_token
      | some provided ↦
          if matches_any c (canonical c t) provided keys then none else some sig_mismatch
    ]

unfoldable pub verify_claims :
    (self_member_id : String) (now max_lifetime : ℕ) → Token → Option ToolError
verify_claims self_member_id now max_lifetime t =
    if not (t.target_member == self_member_id)
    then some wrong_target
    else if not (is_after t.exp now)
    then some expired
    else if is_ahead_by clock_skew_tolerance t.approved_at now
    then some approved_in_future
    else if ltb 0 max_lifetime && is_later_by max_lifetime t.exp t.approved_at
    then some malformed_token
    else none

abbrev pub hash_args : Crypto → String → String
hash_args c raw_args = c.sha256 raw_args
