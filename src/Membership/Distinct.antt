-- ===== src/Membership/Distinct.antt =====
-- src/cland/internal/membership/service.go: a roster lists no member twice.
use minti.Base.{
  IsDistinct, ℕ, String, Bool, Option, none, some, List, [], ◌∷◌, ◌≡◌, ◌⊎◌, inl, inr, refl, sym, ap,
  ◌∙◌, subst, ◌==◌, ◌&&◌, arith, eq_iff, keep, Bool-cases, Option-cases, In,
}
use minti.Clan.{RosterMember}
use minti.Clan.RosterMerge.{merge_roster_states}
use minti.Clan.RosterProgress.{member_ids}
use minti.Clan.RosterIds.{merge_roster_states-IsDistinct}
use minti.Membership.Roster.{upsert_roster, mark_revoked, promote, drop_zombies}

In-of_upsert :
    (id : String) (m : RosterMember) (roster : List RosterMember)
    → In id (member_ids (upsert_roster roster m))
    → In id (member_ids roster) ⊎ (id ≡ m.member_id)
unfolding upsert_roster
In-of_upsert id m [] h = elim h [ inl p ↦ inr p | inr q ↦ absurd q ]
In-of_upsert id m (e ∷ roster) h = elim (Bool-cases (e.member_id == m.member_id)) [
  | inl f ↦ replaced (ground (arith, eq_iff e.member_id m.member_id)) (rw f at h)
  | inr f ↦ kept (In-of_upsert id m roster) (rw f at h)
]
  where
    replaced :
        e.member_id ≡ m.member_id
        → (id ≡ m.member_id) ⊎ In id (member_ids roster)
        → In id (member_ids (e ∷ roster)) ⊎ (id ≡ m.member_id)
    replaced same (inl p) = inr p
    replaced same (inr i) = inl (inr i)

    kept :
        (In id (member_ids (upsert_roster roster m))
          → In id (member_ids roster) ⊎ (id ≡ m.member_id))
        → (id ≡ e.member_id) ⊎ In id (member_ids (upsert_roster roster m))
        → In id (member_ids (e ∷ roster)) ⊎ (id ≡ m.member_id)
    kept back (inl p) = inl (inl p)
    kept back (inr i) = elim (back i) [ inl k ↦ inl (inr k) | inr q ↦ inr q ]

upsert_roster-IsDistinct :
    (m : RosterMember) (roster : List RosterMember)
    → IsDistinct (member_ids roster)
    → IsDistinct (member_ids (upsert_roster roster m))
unfolding upsert_roster
upsert_roster-IsDistinct m [] d = (λ i. i, tt)
upsert_roster-IsDistinct m (e ∷ roster) d = elim (Bool-cases (e.member_id == m.member_id)) [
  | inl f ↦
      let same : e.member_id ≡ m.member_id = ground (arith, eq_iff e.member_id m.member_id) in
      rw f (subst (λ w. ¬ (In w (member_ids roster))) same d.0, d.1)
  | inr f ↦ rw f (
    λ i. elim (In-of_upsert e.member_id m roster i) [
      | inl k ↦ d.0 k
      | inr q ↦ ground (arith, eq_iff e.member_id m.member_id)
    ],
    upsert_roster-IsDistinct m roster d.1,
  )
]

mark_revoked-ids :
    (id : String) (roster : List RosterMember)
    → member_ids (mark_revoked id roster).0 ≡ member_ids roster
unfolding mark_revoked
mark_revoked-ids id [] = refl
mark_revoked-ids id (m ∷ roster) = elim (Bool-cases (m.member_id == id)) [
  | inl e ↦ rw e refl
  | inr e ↦ rw e (ap (λ l. m.member_id ∷ l) (mark_revoked-ids id roster))
]

ids_or : List String → Option (List RosterMember) → List String
ids_or ids none = ids
ids_or ids (some roster) = member_ids roster

promote-ids :
    (id : String) (roster : List RosterMember)
    → ids_or (member_ids roster) (promote id roster) ≡ member_ids roster
unfolding promote ids_or
promote-ids id [] = refl
promote-ids id (m ∷ roster) = elim (Bool-cases (m.member_id == id && m.state == "admitted")) [
  | inl e ↦ rw e refl
  | inr e ↦ elim (Option-cases (promote id roster)) [
    | inl f ↦ rw (e, f) refl
    | inr (r, f) ↦
        let same : member_ids r ≡ member_ids roster =
          ap (ids_or (member_ids roster)) (sym f) ∙ promote-ids id roster in
        rw (e, f) (ap (λ l. m.member_id ∷ l) same)
  ]
]

promoted-ids :
    (id : String) (roster roster' : List RosterMember)
    → promote id roster ≡ some roster'
    → member_ids roster' ≡ member_ids roster
unfolding ids_or
promoted-ids id roster roster' h = ap (ids_or (member_ids roster)) (sym h) ∙ promote-ids id roster

In-of_kept :
    (id : String) (p : RosterMember → Bool) (roster : List RosterMember)
    → In id (member_ids (keep p roster))
    → In id (member_ids roster)
unfolding keep
In-of_kept id p [] h = h
In-of_kept id p (m ∷ roster) h = elim (Bool-cases (p m)) [
  | inl e ↦ pick (rw e at h) (In-of_kept id p roster)
  | inr e ↦ inr (In-of_kept id p roster (rw e at h))
]
  where
    pick :
        (id ≡ m.member_id) ⊎ In id (member_ids (keep p roster))
        → (In id (member_ids (keep p roster)) → In id (member_ids roster))
        → In id (member_ids (m ∷ roster))
    pick (inl q) back = inl q
    pick (inr i) back = inr (back i)

keep-IsDistinct :
    (p : RosterMember → Bool) (roster : List RosterMember)
    → IsDistinct (member_ids roster)
    → IsDistinct (member_ids (keep p roster))
unfolding keep
keep-IsDistinct p [] d = tt
keep-IsDistinct p (m ∷ roster) d = elim (Bool-cases (p m)) [
  | inl e ↦ rw e (λ i. d.0 (In-of_kept m.member_id p roster i), keep-IsDistinct p roster d.1)
  | inr e ↦ rw e (keep-IsDistinct p roster d.1)
]

-- What the operations and a synchronisation, whatever list it fetched, do to a roster.
pub data Step : List RosterMember → List RosterMember → Type 0 where
  joined : (m : RosterMember) (roster : List RosterMember) → Step roster (upsert_roster roster m)
  revoked : (id : String) (roster : List RosterMember) → Step roster (mark_revoked id roster).0
  promoted :
      (id : String) (roster roster' : List RosterMember)
      → promote id roster ≡ some roster'
      → Step roster roster'
  swept : (now : ℕ) (roster : List RosterMember) → Step roster (drop_zombies now roster)
  left : (roster : List RosterMember) → Step roster []
  synced : (roster fetched : List RosterMember) → Step roster (merge_roster_states roster fetched)

-- A joiner writes down the roster that the member admitting it sends, which is one that was reached there.
pub data Reach : List RosterMember → Type 0 where
  founded : (m : RosterMember) → Reach (m ∷ [])
  then_step :
      (roster roster' : List RosterMember) → Reach roster → Step roster roster' → Reach roster'

step-IsDistinct :
    (roster roster' : List RosterMember)
    → Step roster roster'
    → IsDistinct (member_ids roster)
    → IsDistinct (member_ids roster')
unfolding drop_zombies
step-IsDistinct roster roster' (joined m r) d = upsert_roster-IsDistinct m roster d
step-IsDistinct roster roster' (revoked id r) d =
    subst IsDistinct (sym (mark_revoked-ids id roster)) d
step-IsDistinct roster roster' (promoted id r r' e) d =
    subst IsDistinct (sym (promoted-ids id roster roster' e)) d
step-IsDistinct roster roster' (swept now r) d = keep-IsDistinct _ roster d
step-IsDistinct roster roster' (left r) d = tt
step-IsDistinct roster roster' (synced r fetched) d =
    merge_roster_states-IsDistinct roster fetched d

-- Whatever joins, revocations, promotions, sweeps, departures and merges with fetched rosters a roster
-- went through since its clan was founded with one member, it lists no member twice.
pub Reach-IsDistinct : (roster : List RosterMember) → Reach roster → IsDistinct (member_ids roster)
Reach-IsDistinct roster (founded m) = (λ i. i, tt)
Reach-IsDistinct roster' (then_step roster r reach step) =
    step-IsDistinct roster roster' step (Reach-IsDistinct roster reach)
