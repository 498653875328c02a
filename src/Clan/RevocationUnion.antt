-- ===== src/Clan/RevocationUnion.antt =====
-- src/cland/internal/state/state.go, `Merge` and `Digest` of revocation lists: the merge is the union of
-- the revoked members, and two members that have merged agree on the digest.
use mathlib.Core.List.{map-append}
use minti.Base.{
  String, true, false, List, [], ◌∷◌, ◌++◌, ◌≡◌, refl, sym, ap, ◌↔◌, ◌⊎◌, inl, inr, arith, ◌==◌,
  eq_iff, any, In, In-append_left, In-append_right, In-of_append, Bool-cases, sort_slice, str_lt,
  str_lt-IsStrict, IsDistinct, IsDistinct-IsApart, IsAscending-unique, sort_slice-IsAscending,
  In-sort_slice, subst,
}
use minti.Clan.{Revocation, Revocations}
use minti.Clan.RevocationList.{
  ids, join_lines, digest_input, digest, is_seen, fresh_entries, seen_after, merge,
}

-- `is_seen` decides membership.
pub is_seen_iff : (id : String) (seen : List String) → (is_seen id seen ≡ true) ↔ In id seen
unfolding is_seen any
is_seen_iff id [] = (λ h. ground arith, λ h. absurd h)
is_seen_iff id (s ∷ seen) = (
  λ h. ground (arith, eq_iff s id, (is_seen_iff id seen).0),
  λ h. ground (arith, eq_iff s id, (is_seen_iff id seen).1),
)

pub not_seen : (id : String) (seen : List String) → is_seen id seen ≡ false → ¬ (In id seen)
not_seen id seen h m = ground (arith, (is_seen_iff id seen).1 m)

-- Which ids a loop of `Merge` appends: those of the list that were not seen.
fresh_ids :
    (id : String) (seen : List String) (es : List Revocation)
    → In id (ids (fresh_entries seen es)) ↔ (In id (ids es) × ¬ (In id seen))
unfolding fresh_entries
fresh_ids id seen [] = (λ h. absurd h, λ h. h.0)
fresh_ids id seen (e ∷ es) = elim (Bool-cases (is_seen e.member_id seen)) [
  | inl old ↦ rw old (
    λ h. let (m, n) = (fresh_ids id seen es).0 h in (inr m, n),
    λ h. (fresh_ids id seen es).1 (
      later h.0 (λ p. h.1 (subst (λ w. In w seen) (sym p) ((is_seen_iff e.member_id seen).0 old))),
      h.1,
    ),
  )
  | inr new ↦ rw new (
    λ h. elim h [
      | inl p ↦ (inl p, λ m. not_seen e.member_id seen new (subst (λ w. In w seen) p m))
      | inr m ↦ let (m', n) = (fresh_ids id (e.member_id ∷ seen) es).0 m in (inr m', λ k. n (inr k))
    ],
    λ h. place h.0 h.1 (Bool-cases (id == e.member_id)) (fresh_ids id (e.member_id ∷ seen) es).1,
  )
]
  where
    later : In id (ids (e ∷ es)) → ¬ (id ≡ e.member_id) → In id (ids es)
    later (inl p) n = absurd (n p)
    later (inr m) n = m

    other : In id (e.member_id ∷ seen) → ¬ (In id seen) → id ≡ e.member_id
    other (inl p) n = p
    other (inr m) n = absurd (n m)

    place :
        In id (ids (e ∷ es))
        → ¬ (In id seen)
        → ((id == e.member_id) ≡ true) ⊎ ((id == e.member_id) ≡ false)
        → (In id (ids es) × ¬ (In id (e.member_id ∷ seen))
            → In id (ids (fresh_entries (e.member_id ∷ seen) es)))
        → (id ≡ e.member_id) ⊎ In id (ids (fresh_entries (e.member_id ∷ seen) es))
    place m n (inl p) ih = inl ((eq_iff id e.member_id).0 p)
    place m n (inr p) ih =
        let differ : ¬ (id ≡ e.member_id) = λ q. ground (arith, (eq_iff id e.member_id).1 q) in
        inr (ih (later m differ, λ k. differ (other k n)))

seen_ids :
    (id : String) (seen : List String) (es : List Revocation)
    → In id (seen_after seen es) ↔ (In id seen ⊎ In id (ids es))
unfolding seen_after
seen_ids id seen [] = (λ h. inl h, λ h. elim h [ inl m ↦ m | inr m ↦ absurd m ])
seen_ids id seen (e ∷ es) = elim (Bool-cases (is_seen e.member_id seen)) [
  | inl old ↦ rw old (
    λ h. elim ((seen_ids id seen es).0 h) [ inl m ↦ inl m | inr m ↦ inr (inr m) ],
    λ h. (seen_ids id seen es).1 (elim h [
      | inl m ↦ inl m
      | inr (inl p) ↦ inl (subst (λ w. In w seen) (sym p) ((is_seen_iff e.member_id seen).0 old))
      | inr (inr m) ↦ inr m
    ]),
  )
  | inr new ↦ rw new (
    λ h. elim ((seen_ids id (e.member_id ∷ seen) es).0 h) [
      | inl (inl p) ↦ inr (inl p)
      | inl (inr m) ↦ inl m
      | inr m ↦ inr (inr m)
    ],
    λ h.
        (seen_ids id (e.member_id ∷ seen) es).1
          (elim h [ inl m ↦ inl (inr m) | inr (inl p) ↦ inl (inl p) | inr (inr m) ↦ inr m ]),
  )
]

fresh-IsDistinct :
    (seen : List String) (es : List Revocation) → IsDistinct (ids (fresh_entries seen es))
unfolding fresh_entries
fresh-IsDistinct seen [] = tt
fresh-IsDistinct seen (e ∷ es) = elim (Bool-cases (is_seen e.member_id seen)) [
  | inl old ↦ rw old (fresh-IsDistinct seen es)
  | inr new ↦ rw new (
    λ m. ((fresh_ids e.member_id (e.member_id ∷ seen) es).0 m).1 (inl refl),
    fresh-IsDistinct (e.member_id ∷ seen) es,
  )
]

append-IsDistinct :
    (xs ys : List String)
    → IsDistinct xs
    → IsDistinct ys
    → ((z : String) → In z xs → ¬ (In z ys))
    → IsDistinct (xs ++ ys)
append-IsDistinct [] ys h k apart = k
append-IsDistinct (x ∷ xs) ys h k apart = (
  λ m. elim (In-of_append x xs ys m) [ inl n ↦ h.0 n | inr n ↦ apart x (inl refl) n ],
  append-IsDistinct xs ys h.1 k (λ z n. apart z (inr n)),
)

-- The members that a merge revokes are those that either list revokes.
pub merge_union :
    (id : String) (r other : Revocations)
    → In id (ids (merge r other).entries) ↔ (In id (ids r.entries) ⊎ In id (ids other.entries))
unfolding merge
merge_union id r other = rw map-append (
  λ h. elim (In-of_append id _ _ h) [
    | inl m ↦ inl ((fresh_ids id [] r.entries).0 m).0
    | inr m ↦ inr ((fresh_ids id (seen_after [] r.entries) other.entries).0 m).0
  ],
  λ h. elim (Bool-cases (is_seen id (seen_after [] r.entries))) [
    | inl old ↦ In-append_left id _ _ (
        (fresh_ids id [] r.entries).1
          (first ((seen_ids id [] r.entries).0 ((is_seen_iff id _).0 old)), λ m. m))
    | inr new ↦
        let unseen = not_seen id (seen_after [] r.entries) new in
        In-append_right id _ _ (
          (fresh_ids id (seen_after [] r.entries) other.entries).1
            (second h (λ m. unseen ((seen_ids id [] r.entries).1 (inr m))), unseen))
  ],
)
  where
    first : In id [] ⊎ In id (ids r.entries) → In id (ids r.entries)
    first (inl m) = absurd m
    first (inr m) = m

    second :
        In id (ids r.entries) ⊎ In id (ids other.entries)
        → ¬ (In id (ids r.entries))
        → In id (ids other.entries)
    second (inl m) n = absurd (n m)
    second (inr m) n = m

-- A merge lists no member twice.
pub merge-IsDistinct : (r other : Revocations) → IsDistinct (ids (merge r other).entries)
unfolding merge
merge-IsDistinct r other = rw map-append (
    append-IsDistinct _ _ (fresh-IsDistinct [] r.entries)
      (fresh-IsDistinct (seen_after [] r.entries) other.entries)
      (λ z m n.
        ((fresh_ids z (seen_after [] r.entries) other.entries).0 n).1
          ((seen_ids z [] r.entries).1 (inr ((fresh_ids z [] r.entries).0 m).0))))

digest_input_sorted :
    (es : List Revocation) → digest_input es ≡ join_lines (sort_slice str_lt (ids es))
unfolding digest_input join_lines sort_slice
digest_input_sorted [] = refl
digest_input_sorted (e ∷ es) = refl

-- Two lists without repeats that revoke the same members have one digest, whatever the order of
-- the entries and whatever else the entries say.
pub digest_of_same_members :
    (sha256 : String → String) (r other : Revocations)
    → IsDistinct (ids r.entries)
    → IsDistinct (ids other.entries)
    → ((id : String) → In id (ids r.entries) ↔ In id (ids other.entries))
    → digest sha256 r ≡ digest sha256 other
unfolding digest
digest_of_same_members sha256 r other h k same =
    rw (digest_input_sorted, digest_input_sorted)
      (ap (λ l. sha256 (join_lines l))
        (IsAscending-unique str_lt str_lt-IsStrict _ _
          (sort_slice-IsAscending str_lt str_lt-IsStrict _ (IsDistinct-IsApart _ h))
          (sort_slice-IsAscending str_lt str_lt-IsStrict _ (IsDistinct-IsApart _ k))
          (λ z. (
            λ m. (In-sort_slice str_lt z _).1 ((same z).0 ((In-sort_slice str_lt z _).0 m)),
            λ m. (In-sort_slice str_lt z _).1 ((same z).1 ((In-sort_slice str_lt z _).0 m)),
          ))))

-- Two members that each merge the other's revocation list then have one digest, whatever the hash.
pub merge-digest_converges :
    (sha256 : String → String) (r other : Revocations)
    → digest sha256 (merge r other) ≡ digest sha256 (merge other r)
merge-digest_converges sha256 r other =
    digest_of_same_members sha256 (merge r other) (merge other r) (merge-IsDistinct r other)
      (merge-IsDistinct other r)
      (λ id. (
        λ m. (merge_union id other r).1 (swap ((merge_union id r other).0 m)),
        λ m. (merge_union id r other).1 (swap ((merge_union id other r).0 m)),
      ))
  where
    swap : {A B : Type 0} → A ⊎ B → B ⊎ A
    swap (inl a) = inr a
    swap (inr b) = inl b

-- For a list without repeats, a merge with one that revokes nobody new leaves the digest as it was.
pub merge-digest_stable :
    (sha256 : String → String) (r other : Revocations)
    → IsDistinct (ids r.entries)
    → ((id : String) → In id (ids other.entries) → In id (ids r.entries))
    → digest sha256 (merge r other) ≡ digest sha256 r
merge-digest_stable sha256 r other h known =
    digest_of_same_members sha256 (merge r other) r (merge-IsDistinct r other) h (λ id. (
      λ m. elim ((merge_union id r other).0 m) [ inl k ↦ k | inr k ↦ known id k ],
      λ m. (merge_union id r other).1 (inl m),
    ))
