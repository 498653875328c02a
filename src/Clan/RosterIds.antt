-- ===== src/Clan/RosterIds.antt =====
-- src/cland/internal/state/state.go, `MergeRosterStates`: whom a merged roster lists.
use minti.Base.{
  IsDistinct, ◌<◌, String, List, [], ◌∷◌, ◌++◌, ◌≡◌, ◌⊎◌, refl, sym, ◌∙◌, inl, inr, arith, lookup,
  Bool-cases, Option-cases, In, subst,
}
use minti.Clan.{RosterMember}
use minti.Clan.RevocationList.{is_seen}
use minti.Clan.RevocationUnion.{not_seen}
use minti.Clan.RosterMerge.{
  index_local, index_other, at_id, emit_local, emit_other, merge_roster_states,
}
use minti.Clan.RosterProgress.{
  member_ids, level, Table, IsKeyed, level_table, progress_present, empty-IsKeyed,
  index_local-IsKeyed, index_other-IsKeyed,
}

at_id-member_id :
    (k : String) (t : Table) → IsKeyed t → 0 < level (lookup k t) → (at_id t k).member_id ≡ k
unfolding at_id level
at_id-member_id k t h present = elim (Option-cases (lookup k t)) [
  | inl absent ↦ absurd (ground arith)
  | inr (m, found) ↦ rw (at_id, found) (h k m found)
]

-- The table has an entry for each member of the list.
abbrev IsIn : Table → List RosterMember → Type 0
IsIn t ms = (k : String) → In k (member_ids ms) → (at_id t k).member_id ≡ k

emit_other-IsFresh :
    (t : Table) (seen : List String) (ms : List RosterMember)
    → IsIn t ms
    → IsDistinct (member_ids (emit_other t seen ms))
      × ((k : String) → In k (member_ids (emit_other t seen ms)) → ¬ (In k seen))
unfolding emit_other
emit_other-IsFresh t seen [] h = (tt, λ k i. absurd i)
emit_other-IsFresh t seen (m ∷ ms) h = elim (Bool-cases (is_seen m.member_id seen)) [
  | inl old ↦ rw old (emit_other-IsFresh t seen ms (λ k i. h k (inr i)))
  | inr new ↦
      let rest = emit_other-IsFresh t (m.member_id ∷ seen) ms (λ k i. h k (inr i)) in
      let own = h m.member_id (inl refl) in
      rw new (
        (λ i. rest.1 (at_id t m.member_id).member_id i (inl own), rest.0),
        λ k i. elim i [
          | inl p ↦ subst (λ w. ¬ (In w seen)) (sym own ∙ sym p) (not_seen m.member_id seen new)
          | inr j ↦ λ s. rest.1 k j (inr s)
        ],
      )
]

In-of_emit_local :
    (k : String) (t : Table) (ms more : List RosterMember)
    → IsIn t ms
    → In k (member_ids (emit_local t ms ++ more))
    → In k (member_ids ms) ⊎ In k (member_ids more)
unfolding emit_local
In-of_emit_local k t [] more h i = inr i
In-of_emit_local k t (m ∷ ms) more h (inl p) = inl (inl (p ∙ h m.member_id (inl refl)))
In-of_emit_local k t (m ∷ ms) more h (inr i) =
    elim (In-of_emit_local k t ms more (λ j q. h j (inr q)) i) [
      | inl j ↦ inl (inr j)
      | inr j ↦ inr j
    ]

emit_local-IsDistinct :
    (t : Table) (ms more : List RosterMember)
    → IsIn t ms
    → IsDistinct (member_ids ms)
    → IsDistinct (member_ids more)
    → ((k : String) → In k (member_ids more) → ¬ (In k (member_ids ms)))
    → IsDistinct (member_ids (emit_local t ms ++ more))
unfolding emit_local
emit_local-IsDistinct t [] more h d e apart = e
emit_local-IsDistinct t (m ∷ ms) more h d e apart =
    let own = h m.member_id (inl refl) in
    (
      subst (λ w. ¬ (In w (member_ids (emit_local t ms ++ more)))) (sym own)
          (λ i. elim (In-of_emit_local m.member_id t ms more (λ j q. h j (inr q)) i) [
            | inl j ↦ d.0 j
            | inr j ↦ apart m.member_id j (inl refl)
          ]),
      emit_local-IsDistinct t ms more (λ j q. h j (inr q)) d.1 e (λ k i j. apart k i (inr j)),
    )

-- The merge of a roster that lists nobody twice with any other lists nobody twice.
pub merge_roster_states-IsDistinct :
    (local other : List RosterMember)
    → IsDistinct (member_ids local)
    → IsDistinct (member_ids (merge_roster_states local other))
unfolding merge_roster_states
merge_roster_states-IsDistinct local other d =
    let t = index_other other (index_local local []) in
    let fresh = emit_other-IsFresh t (member_ids local) other other_in in
    emit_local-IsDistinct t local (emit_other t (member_ids local) other) local_in d fresh.0 fresh.1
  where
    keyed : IsKeyed (index_other other (index_local local []))
    keyed =
        index_other-IsKeyed other (index_local local [])
          (index_local-IsKeyed local [] empty-IsKeyed)

    local_in : IsIn (index_other other (index_local local [])) local
    local_in k i =
        at_id-member_id k _ keyed
          (omega (arith, level_table k local other d, progress_present k local i))

    other_in : IsIn (index_other other (index_local local [])) other
    other_in k i =
        at_id-member_id k _ keyed
          (omega (arith, level_table k local other d, progress_present k other i))
