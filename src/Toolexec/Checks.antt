-- ===== src/Toolexec/Checks.antt =====
-- src/cland/internal/toolexec/handlers.go: what holds of a request that reaches the executor.
use minti.Base.{
  ℕ, String, true, false, Option, none, some, [], ◌∷◌, ◌++◌, ◌≡◌, ◌≢◌, ◌⊎◌, inl, inr, refl, arith,
  eq_iff, Result, ok, err, Bool-cases, Option-cases, lookup, ◌<◌, ap, ◌∙◌, ◌==◌,
}
use minti.Toolexec.{
  Token, Crypto, ReplayCache, is_after, is_ahead_by, is_later_by, clock_skew_tolerance,
}
use minti.Toolexec.Signing.{verify_hmac, verify_claims, hash_args, canonical, matches_any}
use minti.Toolexec.Keys.{grace_key}
use minti.Toolexec.Replay.{check_and_store, is_remembered}
use minti.Toolexec.Limits.{allow}
use minti.Toolexec.Execute.{
  ExecuteRequest, Env, Handler, Response, deny, audit, key_or_nil, run_tool, limit, check_replay,
  handle_execute,
}

-- The signature is an HMAC of the token under the key.
abbrev pub IsSignedBy : Crypto → (key : String) → Token → Type 0
IsSignedBy c key t =
    (key ≢ "") × (c.hex_decode (c.to_lower t.sig) ≡ some (c.hmac key (canonical c t)))

-- The token's claims at `now` on the member `self_id`.
pub record IsTimely (self_id : String) (now max_lifetime : ℕ) (t : Token) : Type 0 where
  pub here : t.target_member ≡ self_id
  pub unexpired : is_after t.exp now ≡ true
  pub approved : is_ahead_by clock_skew_tolerance t.approved_at now ≡ false
  pub short_lived : 0 < max_lifetime → is_later_by max_lifetime t.exp t.approved_at ≡ false

pub verify_claims-IsTimely :
    (self_id : String) (now max_lifetime : ℕ) (t : Token)
    → verify_claims self_id now max_lifetime t ≡ none
    → IsTimely self_id now max_lifetime t
unfolding verify_claims
verify_claims-IsTimely self_id now max_lifetime t h = record {
  here = ground (arith, eq_iff t.target_member self_id);
  unexpired = ground arith;
  approved = ground arith;
  short_lived = λ p. ground arith;
}

matches_any-IsSignedBy :
    (c : Crypto) (message provided current grace : String)
    → matches_any c message provided (current ∷ grace ∷ []) ≡ true
    → ((current ≢ "") × (provided ≡ c.hmac current message))
      ⊎ ((grace ≢ "") × (provided ≡ c.hmac grace message))
unfolding matches_any
matches_any-IsSignedBy c message provided current grace h = ground (
  arith,
  eq_iff current "",
  eq_iff grace "",
  eq_iff (c.hmac current message) provided,
  eq_iff (c.hmac grace message) provided,
)

pub verify_hmac-IsSignedBy :
    (c : Crypto) (current grace : String) (t : Token)
    → verify_hmac c (current ∷ grace ∷ []) t ≡ none
    → IsSignedBy c current t ⊎ IsSignedBy c grace t
unfolding verify_hmac
verify_hmac-IsSignedBy c current grace t h = elim (Option-cases (c.hex_decode (c.to_lower t.sig))) [
  | inl e ↦ ground arith
  | inr (provided, e) ↦
      elim (Bool-cases (matches_any c (canonical c t) provided (current ∷ grace ∷ []))) [
        | inr f ↦ ground arith
        | inl f ↦ elim (matches_any-IsSignedBy c (canonical c t) provided current grace f) [
          | inl (p, q) ↦ inl (p, e ∙ ap some q)
          | inr (p, q) ↦ inr (p, e ∙ ap some q)
        ]
      ]
]

-- The nil that stands for no grace key signs nothing.
IsSignedBy-a_key :
    (c : Crypto) (current : String) (grace : Option String) (t : Token)
    → verify_hmac c (current ∷ key_or_nil grace ∷ []) t ≡ none
    → IsSignedBy c current t ⊎ ((k : String) × (grace ≡ some k) × IsSignedBy c k t)
unfolding key_or_nil
IsSignedBy-a_key c current none t h = elim (verify_hmac-IsSignedBy c current "" t h) [
  | inl p ↦ inl p
  | inr p ↦ absurd (p.0 refl)
]
IsSignedBy-a_key c current (some k) t h = elim (verify_hmac-IsSignedBy c current k t h) [
  | inl p ↦ inl p
  | inr p ↦ inr (k, refl, p)
]

-- Nothing was called, or this request was and the condition held.
abbrev Calls : ExecuteRequest → Handler → Handler × Response → Type 0 → Type 0
Calls req h x Condition = (x.0.calls ≡ h.calls) ⊎ ((x.0.calls ≡ h.calls ++ req ∷ []) × Condition)

run_tool-Calls :
    (env : Env) (req : ExecuteRequest) (h : Handler) → Calls req h (run_tool env req h) Unit
unfolding run_tool deny audit
run_tool-Calls env req h = ground arith

limit-Calls : (env : Env) (req : ExecuteRequest) (h : Handler) → Calls req h (limit env req h) Unit
unfolding limit deny
limit-Calls env req h = elim (Option-cases h.rate_limiter) [
  | inl e ↦ rw (e, limit) (run_tool-Calls env req h)
  | inr (l, e) ↦
      let allowed = allow req.token.origin_member env.limiter_clock l in
      elim (Bool-cases allowed.1) [
        | inl f ↦
            rw (e, limit, f) (run_tool-Calls env req (record h { rate_limiter = some allowed.0 }))
        | inr f ↦ rw (e, limit, f) (inl refl)
      ]
]

check_and_store-fresh :
    (id : String) (now : ℕ) (c : ReplayCache)
    → (check_and_store id now c).1 ≡ true
    → is_remembered now (lookup id c.entries) ≡ false
unfolding check_and_store
check_and_store-fresh id now c h = ground arith

check_replay-Calls :
    (env : Env) (req : ExecuteRequest) (h : Handler)
    → Calls req h
        (check_replay env req h)
        (is_remembered env.now (lookup req.token.request_id h.replay.entries) ≡ false)
unfolding check_replay deny
check_replay-Calls env req h =
    let stored = check_and_store req.token.request_id env.now h.replay in
    elim (Bool-cases stored.1) [
      | inr e ↦ rw e (inl refl)
      | inl e ↦ rw e (elim (limit-Calls env req (record h { replay = stored.0 })) [
        | inl q ↦ inl q
        | inr (q, u) ↦ inr (q, check_and_store-fresh req.token.request_id env.now h.replay e)
      ])
    ]

-- Everything that stands between a request and the executor.
pub record IsApproved (env : Env) (h : Handler) (req : ExecuteRequest) : Type 0 where
  pub args : hash_args env.crypto req.args ≡ req.token.args_hash
  pub signed :
      IsSignedBy env.crypto env.keys.current req.token
      ⊎ ((k : String) × (grace_key env.key_clock env.keys ≡ some k)
          × IsSignedBy env.crypto k req.token)
  pub timely : IsTimely h.self_id env.now h.max_lifetime req.token
  pub fresh : is_remembered env.now (lookup req.token.request_id h.replay.entries) ≡ false

-- A request calls the executor at most once, and calls it only if its arguments are those that the
-- token's hash names, the token is signed under the current key or a grace key that is still open,
-- it is for this member, neither expired, nor approved too far ahead, nor too long-lived, and its
-- request id is not remembered. In every other case the calls are as before.
pub handle_execute-guarded :
    (env : Env) (r : Result Token ExecuteRequest) (h : Handler)
    → ((handle_execute env r h).0.calls ≡ h.calls)
      ⊎ ((req : ExecuteRequest) × (r ≡ ok req)
          × ((handle_execute env r h).0.calls ≡ h.calls ++ req ∷ [])
          × IsApproved env h req)
unfolding handle_execute deny
handle_execute-guarded env (err t) h = inl refl
handle_execute-guarded env (ok req) h =
    elim (Bool-cases (hash_args env.crypto req.args == req.token.args_hash)) [
      | inr e ↦ rw e (inl refl)
      | inl e ↦
          elim (Option-cases (
            verify_hmac env.crypto
              (env.keys.current ∷ key_or_nil (grace_key env.key_clock env.keys) ∷ []) req.token)) [
                | inr (d, f) ↦ rw (e, f) (inl refl)
                | inl f ↦
                    elim (Option-cases (verify_claims h.self_id env.now h.max_lifetime req.token)) [
                      | inr (d, g) ↦ rw (e, f, g) (inl refl)
                      | inl g ↦
                          rw (e, f, g)
                            (elim (check_replay-Calls env req h) [
                              | inl q ↦ inl q
                              | inr (q, fresh) ↦ inr (
                                req,
                                refl,
                                q,
                                record {
                                  args = ground (
                                    arith,
                                    eq_iff (hash_args env.crypto req.args) req.token.args_hash,
                                  );
                                  signed =
                                      IsSignedBy-a_key env.crypto env.keys.current
                                        (grace_key env.key_clock env.keys) req.token f;
                                  timely =
                                      verify_claims-IsTimely h.self_id env.now h.max_lifetime
                                        req.token g;
                                  fresh = fresh;
                                },
                              )
                            ])
                    ]
              ]
    ]
