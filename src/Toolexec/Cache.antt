-- ===== src/Toolexec/Cache.antt =====
-- src/cland/internal/toolexec: what a request leaves in the replay cache.
use minti.Base.{
  ℕ, ◌+◌, ◌≤◌, ◌<◌, String, true, some, List, [], ◌∷◌, ◌≡◌, ◌⊎◌, inl, inr, refl, arith, eq_iff,
  eq_refl, Result, ok, err, Bool-cases, Option-cases, lookup, lookup-insert, length-insert,
  length-keep-le, keep, ltb, length, ◌==◌,
}
use minti.Toolexec.{Token, ReplayCache}
use minti.Toolexec.Signing.{verify_hmac, verify_claims, hash_args}
use minti.Toolexec.Keys.{grace_key}
use minti.Toolexec.Replay.{check_and_store, is_remembered, make_room, sweep}
use minti.Toolexec.Limits.{allow}
use minti.Toolexec.Execute.{
  ExecuteRequest, Env, Handler, deny, audit, key_or_nil, run_tool, limit, check_replay,
  handle_execute,
}

-- The sweep keeps what is not past.
lookup-sweep :
    (id : String) (now e : ℕ) (m : List (String × ℕ))
    → lookup id m ≡ some e
    → now < e
    → lookup id (sweep now m) ≡ some e
unfolding lookup sweep keep
lookup-sweep id now e [] h lt = ground arith
lookup-sweep id now e ((j, v) ∷ m) h lt = ground (arith, lookup-sweep id now e m, eq_iff j id)

length-sweep-le : (now : ℕ) (m : List (String × ℕ)) → length (sweep now m) ≤ length m
unfolding sweep
length-sweep-le now m = length-keep-le (λ e. ltb now e.1) m

-- A cache that is within its size stays within it at every request.
pub check_and_store-bounded :
    (id : String) (now : ℕ) (c : ReplayCache)
    → length c.entries ≤ c.max_size
    → length (check_and_store id now c).0.entries ≤ (check_and_store id now c).0.max_size
unfolding check_and_store make_room
check_and_store-bounded id now c h = ground (
  arith,
  length-sweep-le now c.entries,
  length-insert id (now + c.ttl) c.entries,
  length-insert id (now + c.ttl) (sweep now c.entries),
)

-- An id that is remembered is refused, and until its time it stays so whatever else is stored.
pub check_and_store-keeps :
    (id other : String) (now e : ℕ) (c : ReplayCache)
    → lookup id c.entries ≡ some e
    → now < e
    → lookup id (check_and_store other now c).0.entries ≡ some e
unfolding check_and_store make_room is_remembered
check_and_store-keeps id other now e c h lt = ground (
  arith,
  eq_iff other id,
  lookup-sweep id now e c.entries h lt,
  lookup-insert other id (now + c.ttl) c.entries,
  lookup-insert other id (now + c.ttl) (sweep now c.entries),
)

pub check_and_store-stores :
    (id : String) (now : ℕ) (c : ReplayCache)
    → (check_and_store id now c).1 ≡ true
    → lookup id (check_and_store id now c).0.entries ≡ some (now + c.ttl)
unfolding check_and_store make_room is_remembered
check_and_store-stores id now c h = ground (
  arith,
  eq_refl id,
  lookup-insert id id (now + c.ttl) c.entries,
  lookup-insert id id (now + c.ttl) (sweep now c.entries),
)

-- What the request leaves in the cache: the later steps do not touch it.
run_tool-replay :
    (env : Env) (req : ExecuteRequest) (h : Handler) → (run_tool env req h).0.replay ≡ h.replay
unfolding run_tool deny audit
run_tool-replay env req h = ground arith

limit-replay :
    (env : Env) (req : ExecuteRequest) (h : Handler) → (limit env req h).0.replay ≡ h.replay
unfolding limit deny
limit-replay env req h = elim (Option-cases h.rate_limiter) [
  | inl e ↦ rw (e, limit) (run_tool-replay env req h)
  | inr (l, e) ↦
      let allowed = allow req.token.origin_member env.limiter_clock l in
      elim (Bool-cases allowed.1) [
        | inl f ↦
            rw (e, limit, f) (run_tool-replay env req (record h { rate_limiter = some allowed.0 }))
        | inr f ↦ rw (e, limit, f) refl
      ]
]

abbrev pub Stored : Env → ExecuteRequest → Handler → Handler → Type 0
Stored env req h h' =
    let stored = check_and_store req.token.request_id env.now h.replay in
    (h'.replay ≡ stored.0) × ((h'.calls ≡ h.calls) ⊎ (stored.1 ≡ true))

check_replay-Stored :
    (env : Env) (req : ExecuteRequest) (h : Handler) → Stored env req h (check_replay env req h).0
unfolding check_replay deny
check_replay-Stored env req h =
    let stored = check_and_store req.token.request_id env.now h.replay in
    elim (Bool-cases stored.1) [
      | inr e ↦ rw e (refl, inl refl)
      | inl e ↦ rw e (limit-replay env req (record h { replay = stored.0 }), inr refl)
    ]

pub handle_execute-Stored :
    (env : Env) (r : Result Token ExecuteRequest) (h : Handler)
    → (((handle_execute env r h).0.replay ≡ h.replay)
        × ((handle_execute env r h).0.calls ≡ h.calls))
      ⊎ ((req : ExecuteRequest) × (r ≡ ok req) × Stored env req h (handle_execute env r h).0)
unfolding handle_execute deny
handle_execute-Stored env (err t) h = inl (refl, refl)
handle_execute-Stored env (ok req) h =
    elim (Bool-cases (hash_args env.crypto req.args == req.token.args_hash)) [
      | inr e ↦ rw e (inl (refl, refl))
      | inl e ↦
          elim (Option-cases (
            verify_hmac env.crypto
              (env.keys.current ∷ key_or_nil (grace_key env.key_clock env.keys) ∷ []) req.token)) [
                | inr (d, f) ↦ rw (e, f) (inl (refl, refl))
                | inl f ↦
                    elim (Option-cases (verify_claims h.self_id env.now h.max_lifetime req.token)) [
                      | inr (d, g) ↦ rw (e, f, g) (inl (refl, refl))
                      | inl g ↦ rw (e, f, g) (inr (req, refl, check_replay-Stored env req h))
                    ]
              ]
    ]
