-- ===== src/Sync/Settling.antt =====
-- src/cland/internal/revocations/sync.go, `MaybeSync`: what a member has revoked after a synchronisation,
-- and that the registry follows the file.
use minti.Base.{
  String, true, false, List, [], ◌∷◌, ◌++◌, none, some, ◌==◌, ltb, length, length-append, ◌≡◌, ◌↔◌,
  ◌⊎◌, inl, inr, refl, ap, subst, arith, In, IsDistinct, Bool-cases, Option-cases,
}
use minti.Clan.{
  Revocation, Revocations, Store, write_failed, load_revocations, save_revocations, or_empty,
}
use minti.Clan.RevocationList.{ids, merge, digest, fresh_entries, seen_after, is_seen}
use minti.Clan.RevocationUnion.{merge_union, is_seen_iff}
use minti.Peers.{set_revocations, revoked_set}
use minti.Sync.{fetch, busy, enter}
use minti.Sync.RevocationSync.{Syncer, Env, finish, apply, ask, maybe_sync}

-- The list in the file, a missing file being an empty list.
abbrev pub held : Syncer → Revocations
held s = or_empty s.store.revocations_file

-- The registry refuses the members that the file revokes.
abbrev pub IsFollowed : Syncer → Type 0
IsFollowed s = s.registry.revocations ≡ revoked_set (held s).entries

saved :
    (r : Revocations) (s : Store)
    → s.revocations_writable ≡ true
    → save_revocations r s ≡ (record s { revocations_file = some r }, none)
unfolding save_revocations
saved r s w = rw w refl

not_saved :
    (r : Revocations) (s : Store)
    → s.revocations_writable ≡ false
    → save_revocations r s ≡ (s, some write_failed)
unfolding save_revocations
not_saved r s w = rw w refl

apply-IsFollowed :
    (e : Env) (s : Syncer) (sender : String) (old fetched : Revocations)
    → IsFollowed s
    → IsFollowed (apply e s sender old fetched)
unfolding apply finish set_revocations or_empty
apply-IsFollowed e s sender old fetched h =
    elim (Bool-cases (ltb (length old.entries) (length (merge old fetched).entries))) [
      | inr p ↦ rw p h
      | inl p ↦ elim (Bool-cases s.store.revocations_writable) [
        | inl w ↦ rw (p, saved (merge old fetched) s.store w) refl
        | inr w ↦ rw (p, not_saved (merge old fetched) s.store w) h
      ]
    ]

ask-IsFollowed :
    (e : Env) (s : Syncer) (sender addr : String) (old : Revocations)
    → ((t : Syncer) → IsFollowed t → IsFollowed (e.meanwhile t))
    → IsFollowed s
    → IsFollowed (ask e s sender addr old)
unfolding ask
ask-IsFollowed e s sender addr old others h =
    let t : IsFollowed (e.meanwhile (record s { inflight = enter sender s.inflight })) =
      others _ h in
    elim (Option-cases (fetch (e.answer addr))) [
      | inl p ↦ rw (ask, p) t
      | inr (fetched, p) ↦ rw (ask, p) (apply-IsFollowed e _ sender old fetched t)
    ]

-- A synchronisation, failed ones included, keeps the registry refusing the members that the file
-- revokes, if what other goroutines do meanwhile does.
pub maybe_sync-IsFollowed :
    (e : Env) (s : Syncer) (sender their_digest : String)
    → ((t : Syncer) → IsFollowed t → IsFollowed (e.meanwhile t))
    → IsFollowed s
    → IsFollowed (maybe_sync e s sender their_digest).0
unfolding maybe_sync load_revocations
maybe_sync-IsFollowed e s sender their_digest others h = elim (Bool-cases (their_digest == "")) [
  | inl p ↦ rw p h
  | inr p ↦ elim (Bool-cases s.store.revocations_readable) [
    | inr r ↦ rw (p, r) h
    | inl r ↦ elim (Bool-cases (digest e.sha256 (held s) == their_digest)) [
      | inl d ↦ rw (p, r, d) h
      | inr d ↦ elim (Bool-cases (busy sender s.inflight)) [
        | inl b ↦ rw (p, r, d, b) h
        | inr b ↦ elim (Bool-cases (e.lookup_addr sender == "")) [
          | inl a ↦ rw (p, r, d, b, a) h
          | inr a ↦ rw (p, r, d, b, a) (ask-IsFollowed e s sender _ _ others h)
        ]
      ]
    ]
  ]
]

-- A list without repeats is what the first loop of a merge keeps.
fresh_all :
    (seen : List String) (es : List Revocation)
    → IsDistinct (ids es)
    → ((id : String) → In id (ids es) → ¬ (In id seen))
    → fresh_entries seen es ≡ es
unfolding fresh_entries
fresh_all seen [] h k = refl
fresh_all seen (r ∷ es) h k = elim (Bool-cases (is_seen r.member_id seen)) [
  | inl p ↦ absurd (k r.member_id (inl refl) ((is_seen_iff r.member_id seen).0 p))
  | inr p ↦ rw p (ap (λ l. r ∷ l) (fresh_all (r.member_id ∷ seen) es h.1 later))
]
  where
    later : (id : String) → In id (ids es) → ¬ (In id (r.member_id ∷ seen))
    later id m (inl q) = h.0 (subst (λ w. In w (ids es)) q m)
    later id m (inr n) = k id (inr m) n

empty_of_length : {A : Type 0} (xs : List A) → length xs ≡ 0 → xs ≡ []
empty_of_length [] h = refl
empty_of_length (x ∷ xs) h = absurd (omega (arith, h))

-- A merge that is no longer than a list without repeats is that list.
merge_no_longer :
    (old fetched : Revocations)
    → IsDistinct (ids old.entries)
    → ltb (length old.entries) (length (merge old fetched).entries) ≡ false
    → (merge old fetched).entries ≡ old.entries
unfolding merge
merge_no_longer old fetched h k =
    let all = fresh_all [] old.entries h (λ id m n. n) in
    let more = fresh_entries (seen_after [] old.entries) fetched.entries in
    let none_more : more ≡ [] =
      empty_of_length more
        (ground (arith, length-append (fresh_entries [] old.entries) more, ap length all)) in
    rw (all, none_more) (append_nil old.entries)
  where
    append_nil : {A : Type 0} (xs : List A) → xs ++ [] ≡ xs
    append_nil [] = refl
    append_nil (x ∷ xs) = ap (λ l. x ∷ l) (append_nil xs)

apply_union :
    (e : Env) (s : Syncer) (sender id : String) (fetched : Revocations)
    → s.store.revocations_writable ≡ true
    → IsDistinct (ids (held s).entries)
    → In id (ids (held (apply e s sender (held s) fetched)).entries)
      ↔ (In id (ids (held s).entries) ⊎ In id (ids fetched.entries))
unfolding apply finish or_empty
apply_union e s sender id fetched w h =
    elim (Bool-cases (ltb (length (held s).entries) (length (merge (held s) fetched).entries))) [
      | inl p ↦ rw (p, saved (merge (held s) fetched) s.store w) (merge_union id (held s) fetched)
      | inr p ↦ rw p (
          subst (λ l. In id (ids l) ↔ (In id (ids (held s).entries) ⊎ In id (ids fetched.entries)))
            (merge_no_longer (held s) fetched h p) (merge_union id (held s) fetched))
    ]

-- Let the digests differ, the file be readable and writable and list nobody twice, no other fetch from the
-- sender be running, its address be known, its answer be a 200 with `fetched`, and no other goroutine change
-- the state meanwhile. Then a synchronisation tries the fetch, and afterwards the file revokes exactly those
-- members that it or the fetched list revoked.
pub maybe_sync-union :
    (e : Env) (s : Syncer) (sender their_digest : String) (fetched : Revocations) (id : String)
    → (their_digest == "") ≡ false
    → s.store.revocations_readable ≡ true
    → s.store.revocations_writable ≡ true
    → IsDistinct (ids (held s).entries)
    → (digest e.sha256 (held s) == their_digest) ≡ false
    → busy sender s.inflight ≡ false
    → (e.lookup_addr sender == "") ≡ false
    → fetch (e.answer (e.lookup_addr sender)) ≡ some fetched
    → ((t : Syncer) → e.meanwhile t ≡ t)
    → ((maybe_sync e s sender their_digest).1 ≡ true)
      × (In id (ids (held (maybe_sync e s sender their_digest).0).entries)
          ↔ (In id (ids (held s).entries) ⊎ In id (ids fetched.entries)))
unfolding maybe_sync load_revocations ask
maybe_sync-union e s sender their_digest fetched id given readable writable distinct differs free
      known answers undisturbed =
    rw (given, readable, differs, free, known)
      (
        refl,
        rw (ask, answers, undisturbed (record s { inflight = enter sender s.inflight }))
            (apply_union e (record s { inflight = enter sender s.inflight }) sender id fetched
              writable distinct),
      )
