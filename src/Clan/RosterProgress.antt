-- ===== src/Clan/RosterProgress.antt =====
-- src/cland/internal/state/state.go, `MergeRosterStates`: the merge of two rosters brings every member
-- to the more progressed of its two states, and never back.
use Prim.Native.Nat.{max}
use minti.Base.{
  IsDistinct, ℕ, suc, ◌<◌, String, List, [], ◌∷◌, map, Option, none, some, ◌≡◌, refl, sym, ap, inl,
  inr, arith, ◌==◌, eq_iff, if◌then◌else◌, lookup, insert, lookup-insert, Bool-cases, Option-cases,
  In, any, ltb, subst, ◌++◌, not, ◌&&◌, false,
}
use minti.Clan.{RosterMember}
use minti.Clan.RevocationList.{is_seen}
use minti.Clan.RevocationUnion.{is_seen_iff, not_seen}
use minti.Clan.RosterMerge.{
  rank, index_local, absorb, index_other, at_id, emit_local, emit_other, merge_roster_states,
}

abbrev pub member_ids : List RosterMember → List String
member_ids = map (λ m. m.member_id)

-- How far a roster has brought a member: 0 if it is not listed, else one more than the rank of the
-- most progressed of its entries.
unfoldable pub progress : String → List RosterMember → ℕ
progress id [] = 0
progress id (m ∷ ms) =
    let rest = progress id ms in if m.member_id == id then max (suc (rank m.state)) rest else rest

unfoldable pub level : Option RosterMember → ℕ
level none = 0
level (some m) = suc (rank m.state)

abbrev pub Table : Type 0
Table = List (String × RosterMember)

level-absorb :
    (id : String) (m : RosterMember) (t : Table)
    → level (lookup id (absorb m t)) ≡ (
        if m.member_id == id
        then max (suc (rank m.state)) (level (lookup id t))
        else level (lookup id t))
unfolding absorb level
level-absorb id m t = elim (Option-cases (lookup m.member_id t)) [
  | inl absent ↦
      rw (absent, absorb) (ground (arith, eq_iff m.member_id id, lookup-insert m.member_id id m t))
  | inr (existing, found) ↦
      rw (found, absorb)
        (ground (
          arith,
          eq_iff m.member_id id,
          lookup-insert m.member_id id (record existing { state = m.state }) t,
        ))
]

level-index_other :
    (id : String) (ms : List RosterMember) (t : Table)
    → level (lookup id (index_other ms t)) ≡ max (progress id ms) (level (lookup id t))
unfolding index_other progress
level-index_other id [] t = omega arith
level-index_other id (m ∷ ms) t =
    ground (arith, level-index_other id ms (absorb m t), level-absorb id m t)

progress_absent :
    (id : String) (ms : List RosterMember) → ¬ (In id (member_ids ms)) → progress id ms ≡ 0
unfolding progress
progress_absent id [] h = refl
progress_absent id (m ∷ ms) h = ground (
  arith,
  eq_iff m.member_id id,
  progress_absent id ms (λ k. h (inr k)),
  λ (p : id ≡ m.member_id). h (inl p),
)

pub progress_present :
    (id : String) (ms : List RosterMember) → In id (member_ids ms) → 0 < progress id ms
unfolding progress
progress_present id (m ∷ ms) (inl p) = ground (arith, eq_iff m.member_id id)
progress_present id (m ∷ ms) (inr k) = ground (arith, progress_present id ms k)
progress_present id [] h = absurd h

lookup-index_local :
    (id : String) (ms : List RosterMember) (t : Table)
    → ¬ (In id (member_ids ms))
    → lookup id (index_local ms t) ≡ lookup id t
unfolding index_local
lookup-index_local id [] t h = refl
lookup-index_local id (m ∷ ms) t h = ground (
  arith,
  eq_iff m.member_id id,
  lookup-index_local id ms (insert m.member_id m t) (λ k. h (inr k)),
  lookup-insert m.member_id id m t,
  λ (p : id ≡ m.member_id). h (inl p),
)

level-index_local :
    (id : String) (ms : List RosterMember) (t : Table)
    → IsDistinct (member_ids ms)
    → In id (member_ids ms)
    → level (lookup id (index_local ms t)) ≡ progress id ms
unfolding index_local progress level
level-index_local id [] t d h = absurd h
level-index_local id (m ∷ ms) t d (inl p) =
    let absent : ¬ (In id (member_ids ms)) = λ k. d.0 (subst (λ w. In w (member_ids ms)) p k) in
    ground (
      arith,
      eq_iff m.member_id id,
      lookup-index_local id ms (insert m.member_id m t) absent,
      lookup-insert m.member_id id m t,
      progress_absent id ms absent,
    )
level-index_local id (m ∷ ms) t d (inr k) =
    let differ : ¬ (m.member_id ≡ id) = λ p. d.0 (subst (λ w. In w (member_ids ms)) (sym p) k) in
    ground
      (arith, eq_iff m.member_id id, level-index_local id ms (insert m.member_id m t) d.1 k, differ)

-- Before the merge emits, its table holds each member at the more progressed of its states.
pub level_table :
    (id : String) (local other : List RosterMember)
    → IsDistinct (member_ids local)
    → level (lookup id (index_other other (index_local local [])))
      ≡ max (progress id local) (progress id other)
unfolding lookup level
level_table id local other d = elim (Bool-cases (is_seen id (member_ids local))) [
  | inl old ↦ omega (
    arith,
    level-index_other id other (index_local local []),
    level-index_local id local [] d ((is_seen_iff id _).0 old),
  )
  | inr new ↦
      let absent = not_seen id (member_ids local) new in
      omega (
        arith,
        level-index_other id other (index_local local []),
        ap level (lookup-index_local id local [] absent),
        progress_absent id local absent,
      )
]

-- An entry stands under its own id.
abbrev pub IsKeyed : Table → Type 0
IsKeyed t = (id : String) (m : RosterMember) → lookup id t ≡ some m → m.member_id ≡ id

pub empty-IsKeyed : IsKeyed []
unfolding lookup
empty-IsKeyed k m e = ground arith

insert-IsKeyed :
    (k : String) (m : RosterMember) (t : Table)
    → IsKeyed t
    → m.member_id ≡ k
    → IsKeyed (insert k m t)
insert-IsKeyed k m t h p id n e = ground (arith, eq_iff k id, lookup-insert k id m t, h id n)

absorb-IsKeyed : (m : RosterMember) (t : Table) → IsKeyed t → IsKeyed (absorb m t)
unfolding absorb
absorb-IsKeyed m t h = elim (Option-cases (lookup m.member_id t)) [
  | inl absent ↦ rw (absent, absorb) (insert-IsKeyed m.member_id m t h refl)
  | inr (existing, found) ↦
      rw (found, absorb)
        (elim (Bool-cases (ltb (rank existing.state) (rank m.state))) [
          | inl e ↦ rw e (
              insert-IsKeyed m.member_id (record existing { state = m.state }) t h
                (h m.member_id existing found))
          | inr e ↦ rw e h
        ])
]

pub index_other-IsKeyed :
    (ms : List RosterMember) (t : Table) → IsKeyed t → IsKeyed (index_other ms t)
unfolding index_other
index_other-IsKeyed [] t h = h
index_other-IsKeyed (m ∷ ms) t h = index_other-IsKeyed ms (absorb m t) (absorb-IsKeyed m t h)

pub index_local-IsKeyed :
    (ms : List RosterMember) (t : Table) → IsKeyed t → IsKeyed (index_local ms t)
unfolding index_local
index_local-IsKeyed [] t h = h
index_local-IsKeyed (m ∷ ms) t h =
    index_local-IsKeyed ms (insert m.member_id m t) (insert-IsKeyed m.member_id m t h refl)

progress-at_id :
    (id k : String) (t : Table) (rest : List RosterMember)
    → IsKeyed t
    → 0 < level (lookup k t)
    → progress id (at_id t k ∷ rest)
      ≡ (if k == id then max (level (lookup id t)) (progress id rest) else progress id rest)
unfolding progress at_id level
progress-at_id id k t rest h present = elim (Option-cases (lookup k t)) [
  | inl absent ↦ absurd (ground arith)
  | inr (m, found) ↦ ground (arith, h k m found, eq_iff k id, eq_iff m.member_id id)
]

-- What a loop of the merge emits for a member that it meets.
progress-emit_local :
    (id : String) (t : Table) (ms : List RosterMember)
    → IsKeyed t
    → ((k : String) → In k (member_ids ms) → 0 < level (lookup k t))
    → progress id (emit_local t ms)
      ≡ (if is_seen id (member_ids ms) then level (lookup id t) else 0)
unfolding emit_local progress is_seen any
progress-emit_local id t [] h present = refl
progress-emit_local id t (m ∷ ms) h present = ground (
  arith,
  progress-at_id id m.member_id t (emit_local t ms) h (present m.member_id (inl refl)),
  progress-emit_local id t ms h (λ k i. present k (inr i)),
)

progress-emit_other :
    (id : String) (t : Table) (seen : List String) (ms : List RosterMember)
    → IsKeyed t
    → ((k : String) → In k (member_ids ms) → 0 < level (lookup k t))
    → progress id (emit_other t seen ms)
      ≡ (if is_seen id (member_ids ms) && not (is_seen id seen) then level (lookup id t) else 0)
unfolding emit_other progress is_seen any
progress-emit_other id t seen [] h present = refl
progress-emit_other id t seen (m ∷ ms) h present = ground (
  arith,
  eq_iff m.member_id id,
  progress-at_id id m.member_id t (emit_other t (m.member_id ∷ seen) ms) h
      (present m.member_id (inl refl)),
  progress-emit_other id t seen ms h (λ k i. present k (inr i)),
  progress-emit_other id t (m.member_id ∷ seen) ms h (λ k i. present k (inr i)),
)

progress-append :
    (id : String) (xs ys : List RosterMember)
    → progress id (xs ++ ys) ≡ max (progress id xs) (progress id ys)
unfolding progress
progress-append id [] ys = omega arith
progress-append id (m ∷ xs) ys = ground (arith, progress-append id xs ys)

-- In the merge of a roster without repeats with any other, each member is exactly as far as the
-- further of its two states: a member of either roster is in the merge, and a revocation or an
-- activation is never undone.
pub progress-merge :
    (id : String) (local other : List RosterMember)
    → IsDistinct (member_ids local)
    → progress id (merge_roster_states local other) ≡ max (progress id local) (progress id other)
unfolding merge_roster_states
progress-merge id local other d =
    let t = index_other other (index_local local []) in
    ground (
      arith,
      progress-append id (emit_local t local) (emit_other t (member_ids local) other),
      progress-emit_local id t local keyed local_present,
      progress-emit_other id t (member_ids local) other keyed other_present,
      level_table id local other d,
      progress_of_unseen id local,
      progress_of_unseen id other,
    )
  where
    keyed : IsKeyed (index_other other (index_local local []))
    keyed =
        index_other-IsKeyed other (index_local local [])
          (index_local-IsKeyed local [] empty-IsKeyed)

    local_present :
        (k : String)
        → In k (member_ids local)
        → 0 < level (lookup k (index_other other (index_local local [])))
    local_present k i = omega (arith, level_table k local other d, progress_present k local i)

    other_present :
        (k : String)
        → In k (member_ids other)
        → 0 < level (lookup k (index_other other (index_local local [])))
    other_present k i = omega (arith, level_table k local other d, progress_present k other i)

    progress_of_unseen :
        (k : String) (ms : List RosterMember)
        → is_seen k (member_ids ms) ≡ false
        → progress k ms ≡ 0
    progress_of_unseen k ms h = progress_absent k ms (not_seen k (member_ids ms) h)
