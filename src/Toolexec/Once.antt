-- ===== src/Toolexec/Once.antt =====
-- src/cland/internal/toolexec: a token is good for one call.
use minti.Base.{
  ℕ, ◌+◌, ◌≤◌, ◌<◌, String, true, false, some, List, [], ◌∷◌, ◌++◌, ◌≡◌, ◌⊎◌, inl, inr, sym, ap,
  ◌∙◌, subst, arith, Result, ok, err, Bool-cases, ltb-false→le, lookup, ltb, length, length-append,
  ℤ,
}
use minti.Toolexec.{Token, is_after, clock_skew_tolerance}
use minti.Toolexec.Replay.{check_and_store, is_remembered}
use minti.Toolexec.Execute.{ExecuteRequest, Env, Handler, handle_execute}
use minti.Toolexec.Checks.{IsTimely, IsApproved, handle_execute-guarded}
use minti.Toolexec.Cache.{handle_execute-Stored, check_and_store-keeps, check_and_store-stores}

abbrev pub Event : Type 0
Event = Env × Result Token ExecuteRequest

unfoldable pub run_all : List Event → Handler → Handler
run_all [] h = h
run_all ((env, r) ∷ events) h = run_all events (handle_execute env r h).0

-- The clock does not go back from `start` over the events to `end`.
abbrev pub IsOrdered : (start : ℕ) → List Event → (end : ℕ) → Type 0
IsOrdered start [] end = start ≤ end
IsOrdered start ((env, r) ∷ events) end = (start ≤ env.now) × IsOrdered env.now events end

-- From `t` on, a token with this id and this `exp` is remembered or expired.
abbrev pub IsSpent : (id : String) (exp : ℤ) (t : ℕ) → Handler → Type 0
IsSpent id exp t h =
    ((e : ℕ) × (lookup id h.replay.entries ≡ some e) × (is_after exp e ≡ false))
    ⊎ (is_after exp t ≡ false)

is_after-later : (exp : ℤ) (t now : ℕ) → t ≤ now → is_after exp t ≡ false → is_after exp now ≡ false
is_after-later exp t now le h = ground arith

IsSpent-step :
    (id : String) (exp : ℤ) (t : ℕ) (env : Env) (r : Result Token ExecuteRequest) (h : Handler)
    → t ≤ env.now
    → IsSpent id exp t h
    → IsSpent id exp env.now (handle_execute env r h).0
IsSpent-step id exp t env r h le (inr past) = inr (is_after-later exp t env.now le past)
IsSpent-step id exp t env r h le (inl (e, found, past)) = elim (Bool-cases (ltb env.now e)) [
  | inr f ↦ inr (is_after-later exp e env.now (ground arith) past)
  | inl f ↦ elim (handle_execute-Stored env r h) [
    | inl (same, calls) ↦ inl (e, ap (λ c. lookup id c.entries) same ∙ found, past)
    | inr (req, q, (stored, calls)) ↦ inl (
      e,
      ap (λ c. lookup id c.entries) stored
          ∙ check_and_store-keeps id req.token.request_id env.now e h.replay found (ground arith),
      past,
    )
  ]
]

IsSpent-run :
    (id : String) (exp : ℤ) (t end : ℕ) (events : List Event) (h : Handler)
    → IsOrdered t events end
    → IsSpent id exp t h
    → IsSpent id exp end (run_all events h)
unfolding run_all
IsSpent-run id exp t end [] h le (inl s) = inl s
IsSpent-run id exp t end [] h le (inr past) = inr (is_after-later exp t end le past)
IsSpent-run id exp t end ((env, r) ∷ events) h (le, o) s =
    IsSpent-run id exp env.now end events (handle_execute env r h).0 o
      (IsSpent-step id exp t env r h le s)

-- A spent token is not fresh any more, or not timely.
spent_refused :
    (env : Env) (req : ExecuteRequest) (h : Handler)
    → IsSpent req.token.request_id req.token.exp env.now h
    → IsApproved env h req
    → ⊥
unfolding is_remembered
spent_refused env req h (inr past) a = ground (arith, a.timely.unexpired)
spent_refused env req h (inl (e, found, past)) a =
    let over : ltb env.now e ≡ false = ap (is_remembered env.now) (sym found) ∙ a.fresh in
    let expired = is_after-later req.token.exp e env.now (ltb-false→le env.now e over) past in
    ground (arith, a.timely.unexpired, expired)

length-snoc : (xs : List ExecuteRequest) (x : ExecuteRequest) → xs ≡ xs ++ x ∷ [] → ⊥
length-snoc xs x e = ground (arith, ap length e, length-append xs (x ∷ []))

-- The time until which the cache remembers an accepted token is past its `exp`.
remembered_long_enough :
    (self_id : String) (now max_lifetime ttl : ℕ) (t : Token)
    → 0 < max_lifetime
    → max_lifetime + clock_skew_tolerance ≤ ttl
    → IsTimely self_id now max_lifetime t
    → is_after t.exp (now + ttl) ≡ false
remembered_long_enough self_id now max_lifetime ttl t pos_life enough timely =
    ground (arith, timely.approved, timely.short_lived pos_life)

request_or : ExecuteRequest → Result Token ExecuteRequest → ExecuteRequest
request_or req (ok r) = r
request_or req (err t) = req

ok_injective : (r q : ExecuteRequest) → ◌≡◌ {A = Result Token ExecuteRequest} (ok r) (ok q) → r ≡ q
unfolding request_or
ok_injective r q e = ap (request_or r) e

accepted-IsSpent :
    (env : Env) (req : ExecuteRequest) (h : Handler)
    → 0 < h.max_lifetime
    → h.max_lifetime + clock_skew_tolerance ≤ h.replay.ttl
    → (handle_execute env (ok req) h).0.calls ≡ h.calls ++ req ∷ []
    → IsSpent req.token.request_id req.token.exp env.now (handle_execute env (ok req) h).0
accepted-IsSpent env req h pos_life enough called = elim (handle_execute-Stored env (ok req) h) [
  | inl (same, calls) ↦ absurd (length-snoc h.calls req (sym calls ∙ called))
  | inr (req', q, (stored, inl calls)) ↦ absurd (length-snoc h.calls req (sym calls ∙ called))
  | inr (req', q, (stored, inr fresh)) ↦ elim (handle_execute-guarded env (ok req) h) [
    | inl calls ↦ absurd (length-snoc h.calls req (sym calls ∙ called))
    | inr (req'', q', called', a) ↦
        let own = subst (IsApproved env h) (sym (ok_injective req req'' q')) a in
        inl (
          env.now + h.replay.ttl,
          ap (λ c. lookup req.token.request_id c.entries) stored
              ∙ subst
                  (λ r.
                    lookup req.token.request_id
                      (check_and_store r.token.request_id env.now h.replay).0.entries
                    ≡ some (env.now + h.replay.ttl))
                  (ok_injective req req' q)
                  (check_and_store-stores req.token.request_id env.now h.replay (
                    subst (λ r. (check_and_store r.token.request_id env.now h.replay).1 ≡ true)
                      (sym (ok_injective req req' q)) fresh)),
          remembered_long_enough h.self_id env.now h.max_lifetime h.replay.ttl req.token pos_life
              enough own.timely,
        )
  ]
]

-- A token whose call reached the executor never reaches it a second time, whatever requests come
-- in between and whatever arguments come with it, if the clock does not go back, a maximal lifetime
-- is set, and the cache's ttl is at least that lifetime and the tolerated skew together.
pub handle_execute-once :
    (env : Env) (req : ExecuteRequest) (h : Handler)
    → (events : List Event) → (env' : Env) (req' : ExecuteRequest) → 0 < h.max_lifetime
    → h.max_lifetime + clock_skew_tolerance ≤ h.replay.ttl
    → (handle_execute env (ok req) h).0.calls ≡ h.calls ++ req ∷ []
    → IsOrdered env.now events env'.now
    → req'.token ≡ req.token
    → (handle_execute env' (ok req') (run_all events (handle_execute env (ok req) h).0)).0.calls
      ≡ (run_all events (handle_execute env (ok req) h).0).calls
handle_execute-once env req h events env' req' pos_life enough called o same =
    let later = run_all events (handle_execute env (ok req) h).0 in
    let spent =
      IsSpent-run req.token.request_id req.token.exp env.now env'.now events
        (handle_execute env (ok req) h).0 o (accepted-IsSpent env req h pos_life enough called) in
    elim (handle_execute-guarded env' (ok req') later) [
      | inl calls ↦ calls
      | inr (r, q, called', a) ↦ absurd (
          spent_refused env' req' later
            (subst (λ t. IsSpent t.request_id t.exp env'.now later) (sym same) spent)
            (subst (IsApproved env' later) (sym (ok_injective req' r q)) a))
    ]
