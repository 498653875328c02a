-- ===== src/Membership/Decided.antt =====
-- src/cland/internal/membership/knock.go: a knock is decided once.
use minti.Base.{
  ℕ, String, Bool, true, false, Option, none, some, List, [], ◌∷◌, ◌≡◌, ◌≢◌, inl, inr, ◌==◌, arith,
  eq_iff, eq_refl, is_ok, Option-cases, lookup, lookup-insert, lookup-delete, not,
}
use minti.Membership.{PendingKnock, KnockStore}
use minti.Membership.Knocks.{consume, store_knock}

pub data KnockOp : Type 0 where
  store_op : (pk : PendingKnock) (source_ip : String) (now : ℕ) → KnockOp
  consume_op : (knock_id target_state : String) (now : ℕ) → KnockOp

unfoldable pub run_op : KnockOp → KnockStore → KnockStore
run_op (store_op pk source_ip now) s = (store_knock pk source_ip now s).0
run_op (consume_op knock_id target_state now) s = (consume knock_id target_state now s).0

unfoldable pub run_ops : List KnockOp → KnockStore → KnockStore
run_ops [] s = s
run_ops (o ∷ os) s = run_ops os (run_op o s)

-- The id, 16 random bytes, is not stored again, and every decision decides.
abbrev pub Decide : (id : String) → List KnockOp → Type 0
Decide id [] = Unit
Decide id (store_op pk source_ip now ∷ os) = (pk.knock_id ≢ id) × Decide id os
Decide id (consume_op knock_id target_state now ∷ os) = (target_state ≢ "pending") × Decide id os

-- No knock with this id is pending.
unfoldable is_settled : Option PendingKnock → Bool
is_settled none = true
is_settled (some pk) = not (pk.state == "pending")

store-settled :
    (id : String) (pk : PendingKnock) (source_ip : String) (now : ℕ) (s : KnockStore)
    → pk.knock_id ≢ id
    → is_settled (lookup id s.knocks) ≡ true
    → is_settled (lookup id (store_knock pk source_ip now s).0.knocks) ≡ true
unfolding store_knock
store-settled id pk source_ip now s other h =
    ground (arith, eq_iff pk.knock_id id, lookup-insert pk.knock_id id pk s.knocks)

consume-settled :
    (id other target : String) (now : ℕ) (s : KnockStore)
    → target ≢ "pending"
    → is_settled (lookup id s.knocks) ≡ true
    → is_settled (lookup id (consume other target now s).0.knocks) ≡ true
unfolding consume is_settled
consume-settled id other target now s decides h = elim (Option-cases (lookup other s.knocks)) [
  | inl e ↦ rw (e, consume) h
  | inr (pk, e) ↦ ground (
    arith,
    eq_iff other id,
    eq_iff target "pending",
    lookup-insert other id (record pk { state = target }) s.knocks,
    lookup-delete other id s.knocks,
  )
]

run_ops-settled :
    (id : String) (ops : List KnockOp) (s : KnockStore)
    → Decide id ops
    → is_settled (lookup id s.knocks) ≡ true
    → is_settled (lookup id (run_ops ops s).knocks) ≡ true
unfolding run_ops run_op
run_ops-settled id [] s d h = h
run_ops-settled id (store_op pk source_ip now ∷ os) s d h =
    run_ops-settled id os _ d.1 (store-settled id pk source_ip now s d.0 h)
run_ops-settled id (consume_op other target now ∷ os) s d h =
    run_ops-settled id os _ d.1 (consume-settled id other target now s d.0 h)

consume-settles :
    (id target : String) (now : ℕ) (s : KnockStore)
    → target ≢ "pending"
    → is_settled (lookup id (consume id target now s).0.knocks) ≡ true
unfolding consume is_settled
consume-settles id target now s decides = elim (Option-cases (lookup id s.knocks)) [
  | inl e ↦ ground (arith, e)
  | inr (pk, e) ↦ ground (
    arith,
    eq_refl id,
    eq_iff target "pending",
    lookup-insert id id (record pk { state = target }) s.knocks,
    lookup-delete id id s.knocks,
  )
]

settled_refused :
    (id target : String) (now : ℕ) (s : KnockStore)
    → is_settled (lookup id s.knocks) ≡ true
    → is_ok (consume id target now s).1 ≡ false
unfolding consume is_settled
settled_refused id target now s h = elim (Option-cases (lookup id s.knocks)) [
  | inl e ↦ ground (arith, e)
  | inr (pk, e) ↦ ground (arith, e)
]

-- Of all decisions on a knock, accepting or denying, only the first can succeed: after one was made,
-- another fails at every later time, whatever decisions and stores of other knocks come in between.
pub consume-once :
    (id target target' : String) (now later : ℕ) (ops : List KnockOp) (s : KnockStore)
    → target ≢ "pending"
    → Decide id ops
    → is_ok (consume id target' later (run_ops ops (consume id target now s).0)).1 ≡ false
consume-once id target target' now later ops s decides d =
    settled_refused id target' later _
      (run_ops-settled id ops _ d (consume-settles id target now s decides))
