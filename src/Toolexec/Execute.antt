-- ===== src/Toolexec/Execute.antt =====
-- src/cland/internal/toolexec/handlers.go: the endpoint that checks a token and runs its tool.
use minti.Base.{
  ℕ, String, Bool, Option, none, some, List, [], ◌∷◌, ◌++◌, ◌==◌, not, ◌&&◌, eqb, if◌then◌else◌,
  Result, ok, err,
}
use minti.Toolexec.{
  Token, ToolError, Crypto, ReplayCache, RateLimiter, KeyProvider, sig_mismatch, wrong_target,
  expired, approved_in_future, malformed_token, default_max_token_lifetime,
}
use minti.Toolexec.Signing.{verify_hmac, verify_claims, hash_args}
use minti.Toolexec.Keys.{grace_key}
use minti.Toolexec.Replay.{check_and_store, new_replay_cache}
use minti.Toolexec.Limits.{allow}

pub record ExecuteRequest : Type 0 where
  pub token : Token
  pub args : String

-- What `Execute` of the executor returns: the server and the tool that it found, and the result.
pub record Execution : Type 0 where
  pub server : String
  pub tool : String
  pub outcome : Result String String

-- The world during one request. The three clocks are read in this order.
pub record Env : Type 0 where
  pub crypto : Crypto
  pub keys : KeyProvider
  pub key_clock : ℕ
  pub now : ℕ
  pub limiter_clock : ℕ
  pub is_object : (args : String) → Bool
  pub execute : (tool args : String) → Execution

pub record AuditEvent : Type 0 where
  pub member_id : String
  pub server : String
  pub tool : String
  pub decision : String
  pub reason : String
  pub request_id : String
  pub origin_member : String

-- The handler's options with the state behind them: the audit log, and the calls that reached the
-- executor, oldest first.
pub record Handler : Type 0 where
  pub self_id : String
  pub max_lifetime : ℕ
  pub replay : ReplayCache
  pub rate_limiter : Option RateLimiter
  pub audit_log : List AuditEvent
  pub calls : List ExecuteRequest

-- `NewHandler`, for options whose key provider, executor and audit log are given.
unfoldable pub new_handler :
    (self_id : String) (max_lifetime : ℕ) → Option ReplayCache → Option RateLimiter → Option Handler
new_handler self_id max_lifetime replay limiter =
    if self_id == ""
    then none
    else some (record {
      self_id = self_id;
      max_lifetime = if eqb max_lifetime 0 then default_max_token_lifetime else max_lifetime;
      replay = elim replay [ none ↦ new_replay_cache 0 0 | some c ↦ c ];
      rate_limiter = limiter;
      audit_log = [];
      calls = [];
    })

-- The status, and the error of the body if there is one.
pub record Response : Type 0 where
  pub status : ℕ
  pub error : String

unfoldable pub deny : (status : ℕ) (reason : String) → Token → Handler → Handler × Response
deny status reason t h = (
  record h {
    audit_log =
        h.audit_log
        ++ (record {
          member_id = h.self_id;
          server = "minti-cland";
          tool = "toolexec.execute";
          decision = "deny";
          reason = reason;
          request_id = t.request_id;
          origin_member = t.origin_member;
        })
          ∷ [];
  },
  record { status = status; error = reason },
)

unfoldable pub audit : Token → (server tool outcome : String) → Handler → Handler
audit t server tool outcome h = record h {
  audit_log =
      h.audit_log
      ++ (record {
        member_id = h.self_id;
        server = server;
        tool = tool;
        decision = if outcome == "ok" then "allow" else "deny";
        reason = outcome;
        request_id = t.request_id;
        origin_member = t.origin_member;
      })
        ∷ [];
}

-- The status and the reason for each error of `VerifyClaims`.
unfoldable pub claim_denial : ToolError → ℕ × String
claim_denial sig_mismatch = (401, "malformed_token")
claim_denial wrong_target = (403, "wrong_target")
claim_denial expired = (401, "expired")
claim_denial approved_in_future = (401, "approved_in_future")
claim_denial malformed_token = (401, "malformed_token")

unfoldable pub key_or_nil : Option String → String
key_or_nil none = ""
key_or_nil (some k) = k

-- From step 5 on: the arguments are parsed and the tool is run.
unfoldable pub run_tool : Env → ExecuteRequest → Handler → Handler × Response
run_tool env req h =
    if not (req.args == "") && not (env.is_object req.args)
    then deny 400 "args_not_object" req.token h
    else (let ran = record h { calls = h.calls ++ req ∷ [] } in
        let x = env.execute req.token.tool req.args in
        elim x.outcome [
          | err e ↦ (
            audit req.token x.server x.tool "execute_failed" ran,
            record { status = 502; error = "executor failed" },
          )
          | ok r ↦ (audit req.token x.server x.tool "ok" ran, record { status = 200; error = "" })
        ])

-- Step 4b.
unfoldable pub limit : Env → ExecuteRequest → Handler → Handler × Response
limit env req h = elim h.rate_limiter [
  | none ↦ run_tool env req h
  | some l ↦
      let (l', allowed) = allow req.token.origin_member env.limiter_clock l in
      let counted = record h { rate_limiter = some l' } in
      if allowed then run_tool env req counted else deny 429 "rate_limited" req.token counted
]

-- Step 4.
unfoldable pub check_replay : Env → ExecuteRequest → Handler → Handler × Response
check_replay env req h =
    let (c, fresh) = check_and_store req.token.request_id env.now h.replay in
    let stored = record h { replay = c } in
    if fresh then limit env req stored else deny 401 "replay" req.token stored

-- The body's decoding is a request, or an error with as much of the token as was read.
unfoldable pub handle_execute : Env → Result Token ExecuteRequest → Handler → Handler × Response
handle_execute env (err token) h = deny 400 "decode" token h
handle_execute env (ok req) h =
    if not (hash_args env.crypto req.args == req.token.args_hash)
    then deny 401 "args_hash_mismatch" req.token h
    else elim (verify_hmac env.crypto
        (env.keys.current ∷ key_or_nil (grace_key env.key_clock env.keys) ∷ []) req.token) [
          | some e ↦ deny 401 "hmac_mismatch" req.token h
          | none ↦ elim (verify_claims h.self_id env.now h.max_lifetime req.token) [
            | some e ↦ deny (claim_denial e).0 (claim_denial e).1 req.token h
            | none ↦ check_replay env req h
          ]
        ]
