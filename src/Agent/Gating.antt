-- ===== src/Agent/Gating.antt =====
-- src/cland/internal/agent/loop.go: a call that changes the system reaches the executor only after its approval,
-- and the loop ends.
use minti.Base.{
  ℕ, ◌+◌, ◌≤◌, suc, zero, String, false, List, [] as nil, ◌∷◌, ◌++◌, Option, none, some, ◌==◌, ◌||◌,
  eqb, if◌then◌else◌, ◌≡◌, ◌⊎◌, inl, inr, refl, arith, Bool-cases, Option-cases, lookup,
}
use minti.Agent.{
  classify, is_change, Event, approval_required, ToolCall, Turn, ModelReply, Decision, deny,
  approve, Session, ExecResult, Env, finish_call, execute_call, decided, gated, classified,
  run_tool_call, run_calls, with_preamble, rounds, new_session, run, default_max_iters,
  assistant_turn, results_turn, prompt_turn,
}

-- When the executor has run the calls `before`, this one may run next: its tool only reads, or the approver,
-- asked after those calls and with the request for the approval as the last event, answers to approve it.
abbrev pub MayRun : Env → (before : List (String × String)) → String × String → Type 0
MayRun e before call =
    (is_change (classify call.1) ≡ false)
    ⊎ ((await : Session → ToolCall → String → Option Decision) × (w : Session) × (tc : ToolCall)
        × (earlier : List Event) × (e.approver ≡ some await)
        × (w.executed ≡ before)
        × (w.events ≡ earlier ++ approval_required tc.id call.1 (classify call.1) tc.input ∷ nil)
        × (tc.id ≡ call.0)
        × (await w tc call.1 ≡ some approve))

-- Of the calls that the executor ran, each might run when it did.
pub data IsGated (e : Env) : List (String × String) → Type 0 where
  nothing_ran : IsGated e nil
  ran :
      (before : List (String × String)) (call : String × String)
      → IsGated e before
      → MayRun e before call
      → IsGated e (before ++ call ∷ nil)

-- The same, after a number of calls of the model.
abbrev IsAfter : Env → ℕ → Session → Type 0
IsAfter e k s = IsGated e s.executed × (s.model_calls ≡ k)

finish-IsAfter :
    (e : Env) (k : ℕ) (s : Session) (tc : ToolCall) (wire : String) (r : Option ExecResult)
    → IsAfter e k s
    → IsAfter e k (finish_call e.cut s tc wire r).0
unfolding finish_call
finish-IsAfter e k s tc wire none h = h
finish-IsAfter e k s tc wire (some r) h = h

execute-IsAfter :
    (e : Env) (k : ℕ) (s : Session) (tc : ToolCall) (wire : String)
    → IsAfter e k s
    → MayRun e s.executed (tc.id, wire)
    → IsAfter e k (execute_call e s tc wire).0
unfolding execute_call
execute-IsAfter e k s tc wire h may = elim (Bool-cases (tc.input == "" || e.parses tc.input)) [
  | inr p ↦ rw p h
  | inl p ↦ rw p (finish-IsAfter e k _ tc wire _ (ran s.executed (tc.id, wire) h.0 may, h.1))
]

decided-IsAfter :
    (e : Env) (k : ℕ) (s : Session) (tc : ToolCall) (wire : String) (answer : Option Decision)
    → IsAfter e k s
    → (answer ≡ some approve → MayRun e s.executed (tc.id, wire))
    → IsAfter e k (decided e s tc wire answer).0
unfolding decided
decided-IsAfter e k s tc wire none h may = h
decided-IsAfter e k s tc wire (some deny) h may = h
decided-IsAfter e k s tc wire (some approve) h may = execute-IsAfter e k s tc wire h (may refl)

gated-IsAfter :
    (e : Env) (k : ℕ) (s : Session) (tc : ToolCall) (wire : String)
    → (approver : Option (Session → ToolCall → String → Option Decision)) → e.approver ≡ approver
    → IsAfter e k s
    → IsAfter e k (gated e s tc wire approver).0
unfolding gated
gated-IsAfter e k s tc wire none q h = h
gated-IsAfter e k s tc wire (some await) q h =
    decided-IsAfter e k _ tc wire _ h
      (λ yes. inr (await, _, tc, s.events, q, refl, refl, refl, yes))

classified-IsAfter :
    (e : Env) (k : ℕ) (s : Session) (tc : ToolCall) (wire : String)
    → IsAfter e k s
    → IsAfter e k (classified e s tc wire).0
unfolding classified
classified-IsAfter e k s tc wire h = elim (Bool-cases (is_change (classify wire))) [
  | inr p ↦ rw p (execute-IsAfter e k _ tc wire h (inl p))
  | inl p ↦ rw p (gated-IsAfter e k _ tc wire e.approver refl h)
]

call-IsAfter :
    (e : Env) (k : ℕ) (s : Session) (tc : ToolCall)
    → IsAfter e k s
    → IsAfter e k (run_tool_call e s tc).0
unfolding run_tool_call
call-IsAfter e k s tc h = elim (Option-cases (lookup tc.name e.catalog.wire_by_name)) [
  | inl p ↦ rw (run_tool_call, p) h
  | inr (wire, p) ↦ rw (run_tool_call, p) (classified-IsAfter e k s tc wire h)
]

calls-IsAfter :
    (e : Env) (k : ℕ) (s : Session) (tcs : List ToolCall)
    → IsAfter e k s
    → IsAfter e k (run_calls e s tcs).0
unfolding run_calls
calls-IsAfter e k s nil h = h
calls-IsAfter e k s (tc ∷ rest) h =
    calls-IsAfter e k (run_tool_call e s tc).0 rest (call-IsAfter e k s tc h)

preamble-IsAfter :
    (e : Env) (k : ℕ) (reply : ModelReply) (s : Session)
    → IsAfter e k s
    → IsAfter e k (with_preamble reply s)
preamble-IsAfter e k reply s h = elim (Bool-cases (reply.text == "")) [
  | inl p ↦ rw p h
  | inr p ↦ rw p h
]

list_cases : {A : Type 0} (xs : List A) → (xs ≡ nil) ⊎ ((x : A) × (rest : List A) × (xs ≡ x ∷ rest))
list_cases nil = inl refl
list_cases (x ∷ rest) = inr (x, rest, refl)

-- What the rounds leave.
abbrev IsDone : Env → ℕ → Session → Type 0
IsDone e most s = IsGated e s.executed × (s.model_calls ≤ most)

rounds-IsDone :
    (e : Env) (left k : ℕ) (s : Session) (transcript : List Turn)
    → IsAfter e k s
    → IsDone e (k + left) (rounds e left s transcript).0
unfolding rounds
rounds-IsDone e zero k s transcript h = (h.0, ground (arith, h.1))
rounds-IsDone e (suc left) k s transcript h =
    let asked : Session = record s { model_calls = suc s.model_calls } in
    let h' : IsAfter e (suc k) asked = (h.0, ground (arith, h.1)) in
    elim (Option-cases (e.call asked transcript)) [
      | inl p ↦ rw (rounds, p) (h.0, ground (arith, h.1))
      | inr (reply, p) ↦ elim (list_cases reply.tool_calls) [
        | inl q ↦ rw (rounds, p, q) (h.0, ground (arith, h.1))
        | inr (tc, rest, q) ↦
            let next =
              rounds-IsDone e left (suc k) (run_calls e (with_preamble reply asked) (tc ∷ rest)).0
                (transcript
                  ++ assistant_turn reply.text (tc ∷ rest)
                    ∷ results_turn (run_calls e (with_preamble reply asked) (tc ∷ rest)).1
                    ∷ nil)
                (calls-IsAfter e (suc k) _ (tc ∷ rest)
                  (preamble-IsAfter e (suc k) reply asked h')) in
            rw (rounds, p, q) (next.0, ground (arith, next.1))
      ]
    ]

-- How many rounds `Run` allows.
abbrev pub cap_of : ℕ → ℕ
cap_of max_iters = if eqb max_iters 0 then default_max_iters else max_iters

-- Whatever the model asks for: when a call reaches the executor, its tool is known to be read-only or the
-- approver, asked about it after all calls that the executor ran before, answered to approve it. The model is
-- called at most as often as the cap says.
pub run-IsGated :
    (e : Env) (max_iters : ℕ) (prompt : String)
    → IsGated e (run e max_iters prompt).0.executed
      × ((run e max_iters prompt).0.model_calls ≤ cap_of max_iters)
unfolding run
run-IsGated e max_iters prompt =
    let done =
      rounds-IsDone e (cap_of max_iters) 0 new_session (prompt_turn prompt ∷ nil)
        (nothing_ran, refl) in
    (done.0, ground (arith, done.1))
