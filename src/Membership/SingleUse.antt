-- ===== src/Membership/SingleUse.antt =====
-- src/cland/internal/membership/invite.go: an invite is redeemed once.
use minti.Base.{
  ℕ, ◌+◌, String, Bool, Option, none, some, List, [], ◌∷◌, ◌≡◌, ◌≢◌, refl, arith, eq_iff, eq_refl,
  err, lookup, lookup-insert, lookup-delete, keep,
}
use minti.Membership.{InviteToken, invite_unknown}
use minti.Membership.Invites.{issue, redeem, sweep}

-- What happens to the invite store, with the arguments of the calls.
pub data InviteOp : Type 0 where
  issue_op : (clan_id issued_by : String) (ttl : ℕ) (random : Option String) (now : ℕ) → InviteOp
  redeem_op : (token : String) (now : ℕ) → InviteOp
  sweep_op : (now : ℕ) → InviteOp

unfoldable pub run_op : InviteOp → List (String × InviteToken) → List (String × InviteToken)
run_op (issue_op clan_id issued_by ttl random now) s = (issue clan_id issued_by ttl random now s).0
run_op (redeem_op token now) s = (redeem token now s).0
run_op (sweep_op now) s = (sweep now s).0

unfoldable pub run_ops : List InviteOp → List (String × InviteToken) → List (String × InviteToken)
run_ops [] s = s
run_ops (o ∷ os) s = run_ops os (run_op o s)

-- No issue draws this token: 32 random bytes do not come twice.
abbrev pub IsNeverDrawn : String → List InviteOp → Type 0
IsNeverDrawn token [] = Unit
IsNeverDrawn token (issue_op clan_id issued_by ttl random now ∷ os) =
    (random ≢ some token) × IsNeverDrawn token os
IsNeverDrawn token (redeem_op t now ∷ os) = IsNeverDrawn token os
IsNeverDrawn token (sweep_op now ∷ os) = IsNeverDrawn token os

pub lookup-keep-none {ℓ} :
    {V : Type ℓ} (k : String) (p : String × V → Bool) (m : List (String × V))
    → lookup k m ≡ none
    → lookup k (keep p m) ≡ none
unfolding lookup keep
lookup-keep-none k p [] h = refl
lookup-keep-none k p ((j, v) ∷ m) h = ground (arith, lookup-keep-none k p m)

issue-absent :
    (token clan_id issued_by : String) (ttl : ℕ) (random : Option String) (now : ℕ)
    → (s : List (String × InviteToken)) → random ≢ some token
    → lookup token s ≡ none
    → lookup token (issue clan_id issued_by ttl random now s).0 ≡ none
unfolding issue
issue-absent token clan_id issued_by ttl none now s other h = ground (arith, h)
issue-absent token clan_id issued_by ttl (some r) now s other h =
    let tok : InviteToken = record {
      token = r;
      clan_id = clan_id;
      issued_by = issued_by;
      issued_at = now;
      expires_at = now + ttl;
    } in
    ground (arith, h, other, eq_iff r token, lookup-insert r token tok s)

redeem-absent :
    (token t : String) (now : ℕ) (s : List (String × InviteToken))
    → lookup token s ≡ none
    → lookup token (redeem t now s).0 ≡ none
unfolding redeem
redeem-absent token t now s h = ground (arith, h, eq_iff t token, lookup-delete t token s)

redeem-removes :
    (token : String) (now : ℕ) (s : List (String × InviteToken))
    → lookup token (redeem token now s).0 ≡ none
unfolding redeem
redeem-removes token now s = ground (arith, eq_refl token, lookup-delete token token s)

redeem-unknown :
    (token : String) (now : ℕ) (s : List (String × InviteToken))
    → lookup token s ≡ none
    → redeem token now s ≡ (s, err invite_unknown)
unfolding redeem
redeem-unknown token now s h = rw (h, redeem) refl

run_ops-absent :
    (token : String) (ops : List InviteOp) (s : List (String × InviteToken))
    → IsNeverDrawn token ops
    → lookup token s ≡ none
    → lookup token (run_ops ops s) ≡ none
unfolding run_ops run_op sweep
run_ops-absent token [] s u h = h
run_ops-absent token (issue_op clan_id issued_by ttl random now ∷ os) s u h =
    run_ops-absent token os _ u.1 (issue-absent token clan_id issued_by ttl random now s u.0 h)
run_ops-absent token (redeem_op t now ∷ os) s u h =
    run_ops-absent token os _ u (redeem-absent token t now s h)
run_ops-absent token (sweep_op now ∷ os) s u h =
    run_ops-absent token os _ u (lookup-keep-none token _ s h)

-- After a token was presented, whatever the answer, it is unknown for good: over any sequence of
-- issues, redemptions and sweeps in which that token is not drawn again.
pub redeem-once :
    (token : String) (now later : ℕ) (ops : List InviteOp) (s : List (String × InviteToken))
    → IsNeverDrawn token ops
    → redeem token later (run_ops ops (redeem token now s).0)
      ≡ (run_ops ops (redeem token now s).0, err invite_unknown)
redeem-once token now later ops s u =
    redeem-unknown token later _
      (run_ops-absent token ops (redeem token now s).0 u (redeem-removes token now s))
