-- ===== src/Transport/Replays.antt =====
-- src/cland/internal/transport/nonce.go, sequences of calls: every bucket stays bounded, and a nonce is
-- refused for as long as it is remembered.
use minti.Base.{
  ℕ, String, true, false, List, [], ◌∷◌, ◌+◌, ◌≤◌, ◌<◌, suc, length, if◌then◌else◌, lookup,
  lookup-insert, is_some, ◌≡◌, ◌⊎◌, inl, inr, refl, sym, ◌∙◌, subst, arith, ◌==◌, eq_iff, eq_refl,
  In, All, Bool-cases,
}
use minti.Transport.Nonces.{
  NonceEntry, Bucket, NonceCache, new_bucket, bucket_of, with_bucket, sweep, push, check_and_store,
  new_nonce_cache,
}
use minti.Transport.Recent.{
  nonces, IsPaired, IsRecent, evict-bounded, sweep-shorter, sweep-IsPaired, push-IsPaired,
  sweep-IsRecent, evict-IsRecent, append-IsRecent, last-IsRecent, IsRecent-In,
}

pub record Call : Type 0 where
  pub member : String
  pub nonce : String
  pub now : ℕ

abbrev pub after : Call → NonceCache → NonceCache
after call c = (check_and_store call.member call.nonce call.now c).0

abbrev pub run : List Call → NonceCache → NonceCache
run [] c = c
run (call ∷ calls) c = run calls (after call c)

-- In every bucket the map and the list are paired, and there are no more nonces than the cap.
abbrev pub IsValid : NonceCache → Type 0
IsValid c =
    (member : String)
    → IsPaired (bucket_of member c) × (length (bucket_of member c).lru ≤ c.cap_per_member)

bucket_of-with_bucket :
    (member asked : String) (b : Bucket) (c : NonceCache)
    → bucket_of asked (with_bucket member b c) ≡ (if member == asked then b else bucket_of asked c)
unfolding bucket_of
bucket_of-with_bucket member asked b c = elim (Bool-cases (member == asked)) [
  | inl p ↦ rw (p, bucket_of, lookup-insert member asked b c.members, p) refl
  | inr p ↦ rw (p, bucket_of, lookup-insert member asked b c.members, p) refl
]

abbrev swept : (member : String) (now : ℕ) → NonceCache → Bucket
swept member now c = sweep c.ttl now (bucket_of member c).entries (bucket_of member c).lru

-- The bucket that a call leaves.
abbrev stored : (member nonce : String) (now : ℕ) → NonceCache → Bucket
stored member nonce now c =
    if is_some (lookup nonce (swept member now c).entries)
    then swept member now c
    else push c.cap_per_member (record { nonce = nonce; added = now }) (swept member now c)

check_and_store_bucket :
    (member nonce : String) (now : ℕ) (c : NonceCache)
    → (check_and_store member nonce now c).0 ≡ with_bucket member (stored member nonce now c) c
unfolding check_and_store
check_and_store_bucket member nonce now c =
    elim (Bool-cases (is_some (lookup nonce (swept member now c).entries))) [
      | inl p ↦ rw p refl
      | inr p ↦ rw p refl
    ]

bucket_of_new :
    (member : String) (cap ttl : ℕ) → bucket_of member (new_nonce_cache cap ttl) ≡ new_bucket
unfolding bucket_of new_nonce_cache lookup
bucket_of_new member cap ttl = refl

new_bucket-IsPaired : IsPaired new_bucket
unfolding lookup
new_bucket-IsPaired = record { same = λ n. (λ q. ground arith, λ m. absurd m); distinct = tt }

pub new_nonce_cache-IsValid : (cap ttl : ℕ) → IsValid (new_nonce_cache cap ttl)
new_nonce_cache-IsValid cap ttl member =
    rw (bucket_of_new member cap ttl) (new_bucket-IsPaired, omega arith)

stored-IsValid :
    (member nonce : String) (now : ℕ) (c : NonceCache)
    → IsValid c
    → IsPaired (stored member nonce now c)
      × (length (stored member nonce now c).lru ≤ c.cap_per_member)
unfolding push
stored-IsValid member nonce now c h =
    let (paired, bounded) = h member in
    let b = bucket_of member c in
    let kept = sweep-IsPaired c.ttl now b.entries b.lru paired in
    elim (Bool-cases (is_some (lookup nonce (swept member now c).entries))) [
      | inl p ↦ rw p (kept, ground (arith, sweep-shorter c.ttl now b.entries b.lru))
      | inr p ↦ rw p (
        push-IsPaired c.cap_per_member (record { nonce = nonce; added = now }) _ kept p,
        evict-bounded c.cap_per_member _ _,
      )
    ]

-- What holds of the bucket that a call leaves and of the others' buckets holds of every bucket.
every_bucket :
    (P : Bucket → Type 0) (member nonce : String) (now : ℕ) (c : NonceCache) (asked : String)
    → (member ≡ asked → P (stored member nonce now c))
    → (((member == asked) ≡ false) → P (bucket_of asked c))
    → P (bucket_of asked (check_and_store member nonce now c).0)
every_bucket P member nonce now c asked own other =
    rw
      (
        check_and_store_bucket member nonce now c,
        bucket_of-with_bucket member asked (stored member nonce now c) c,
      )
      (elim (Bool-cases (member == asked)) [
        | inl p ↦ rw p (own ((eq_iff member asked).0 p))
        | inr p ↦ rw p (other p)
      ])

cap_unchanged :
    (member nonce : String) (now : ℕ) (c : NonceCache)
    → ((check_and_store member nonce now c).0.cap_per_member ≡ c.cap_per_member)
      × ((check_and_store member nonce now c).0.ttl ≡ c.ttl)
cap_unchanged member nonce now c = rw (check_and_store_bucket member nonce now c) (refl, refl)

check_and_store-IsValid :
    (member nonce : String) (now : ℕ) (c : NonceCache)
    → IsValid c
    → IsValid (check_and_store member nonce now c).0
check_and_store-IsValid member nonce now c h asked = rw ((cap_unchanged member nonce now c).0) (
    every_bucket (λ b. IsPaired b × (length b.lru ≤ c.cap_per_member)) member nonce now c asked
      (λ p. stored-IsValid member nonce now c h) (λ p. h asked))

-- Along any sequence of calls, in every member's bucket the map and the list hold the same nonces, each
-- once, and there are no more of them than the cap.
pub run-IsValid : (calls : List Call) (c : NonceCache) → IsValid c → IsValid (run calls c)
run-IsValid [] c h = h
run-IsValid (call ∷ calls) c h =
    run-IsValid calls (after call c) (check_and_store-IsValid call.member call.nonce call.now c h)

-- How many of the calls are for the member.
unfoldable pub calls_of : (member : String) → List Call → ℕ
calls_of member [] = 0
calls_of member (call ∷ calls) =
    let rest = calls_of member calls in if call.member == member then suc rest else rest

weaken :
    (e : NonceEntry) (k : ℕ) (lru : List NonceEntry) → IsRecent e k lru → IsRecent e (suc k) lru
weaken e k [] h = h
weaken e k (x ∷ rest) (inl q) = inl (q.0, ground (arith, q.1))
weaken e k (x ∷ rest) (inr h) = inr (weaken e k rest h)

stored-IsRecent :
    (member nonce : String) (now : ℕ) (c : NonceCache) (e : NonceEntry) (k : ℕ)
    → now ≤ e.added + c.ttl
    → suc k < c.cap_per_member
    → IsRecent e k (bucket_of member c).lru
    → IsRecent e (suc k) (stored member nonce now c).lru
unfolding push
stored-IsRecent member nonce now c e k fresh room h =
    let b = bucket_of member c in
    let kept : IsRecent e k (swept member now c).lru =
      sweep-IsRecent c.ttl now b.entries e k b.lru fresh h in
    elim (Bool-cases (is_some (lookup nonce (swept member now c).entries))) [
      | inl p ↦ rw p (weaken e k _ kept)
      | inr p ↦ rw p (
          evict-IsRecent c.cap_per_member _ e (suc k) _ room
            (append-IsRecent e (record { nonce = nonce; added = now }) k _ kept))
    ]

-- A call within the time to live keeps the entry; one for the member may put one more after it.
after-IsRecent :
    (member : String) (e : NonceEntry) (call : Call) (c : NonceCache) (k : ℕ)
    → (call.member ≡ member → call.now ≤ e.added + c.ttl)
    → (if call.member == member then suc k else k) < c.cap_per_member
    → IsRecent e k (bucket_of member c).lru
    → IsRecent e (if call.member == member then suc k else k) (bucket_of member (after call c)).lru
after-IsRecent member e call c k fresh room h =
    every_bucket (λ b. IsRecent e (if call.member == member then suc k else k) b.lru) call.member
      call.nonce call.now c member own other
  where
    own :
        call.member ≡ member
        → IsRecent e
            (if call.member == member then suc k else k)
            (stored call.member call.nonce call.now c).lru
    own p =
        let q = (eq_iff call.member member).1 p in
        let room' : suc k < c.cap_per_member = rw q at room in
        let h' : IsRecent e k (bucket_of call.member c).lru =
          subst (λ w. IsRecent e k (bucket_of w c).lru) (sym p) h in
        rw q (stored-IsRecent call.member call.nonce call.now c e k (fresh p) room' h')

    other :
        (call.member == member) ≡ false
        → IsRecent e (if call.member == member then suc k else k) (bucket_of member c).lru
    other q = rw q h

-- What is asked of calls that come between: those for the member come within the time to live.
abbrev pub AreWithin : (member : String) (deadline : ℕ) → List Call → Type 0
AreWithin member deadline = All (λ call. call.member ≡ member → call.now ≤ deadline)

-- Calls for the member that come within the time to live and are few enough keep the entry.
run-IsRecent :
    (member : String) (e : NonceEntry) (calls : List Call) (c : NonceCache) (k : ℕ)
    → AreWithin member (e.added + c.ttl) calls
    → k + calls_of member calls < c.cap_per_member
    → IsRecent e k (bucket_of member c).lru
    → IsRecent e (k + calls_of member calls) (bucket_of member (run calls c)).lru
unfolding calls_of
run-IsRecent member e [] c k fresh room h = let p : k + 0 ≡ k = omega arith in rw p h
run-IsRecent member e (call ∷ calls) c k fresh room h =
    let (cap, ttl) = cap_unchanged call.member call.nonce call.now c in
    let next : ℕ = if call.member == member then suc k else k in
    let total : next + calls_of member calls ≡ k + calls_of member (call ∷ calls) = ground arith in
    let step = after-IsRecent member e call c k fresh.0 (ground arith) h in
    let rest =
      run-IsRecent member e calls (after call c) next
        (subst (λ w. AreWithin member (e.added + w) calls) (sym ttl) fresh.1)
        (ground (arith, cap, total)) step in
    subst (λ w. IsRecent e w (bucket_of member (run calls (after call c))).lru) total rest

-- A nonce that is in the bucket and not out of date is refused.
recent_refused :
    (member nonce : String) (now : ℕ) (c : NonceCache) (e : NonceEntry) (k : ℕ)
    → IsValid c
    → e.nonce ≡ nonce
    → now ≤ e.added + c.ttl
    → IsRecent e k (bucket_of member c).lru
    → (check_and_store member nonce now c).1 ≡ false
unfolding check_and_store
recent_refused member nonce now c e k valid p fresh h =
    let b = bucket_of member c in
    let kept : IsRecent e k (swept member now c).lru =
      sweep-IsRecent c.ttl now b.entries e k b.lru fresh h in
    let paired = sweep-IsPaired c.ttl now b.entries b.lru (valid member).0 in
    let there : is_some (lookup nonce (swept member now c).entries) ≡ true =
      (paired.same nonce).1
        (subst (λ w. In w (nonces (swept member now c).lru)) p (IsRecent-In e k _ kept)) in
    rw there refl

accepted_last :
    (member nonce : String) (now : ℕ) (c : NonceCache)
    → 0 < c.cap_per_member
    → (check_and_store member nonce now c).1 ≡ true
    → IsRecent
        (record { nonce = nonce; added = now })
        0
        (bucket_of member (check_and_store member nonce now c).0).lru
unfolding check_and_store push
accepted_last member nonce now c room h =
    every_bucket (λ b. IsRecent (record { nonce = nonce; added = now }) 0 b.lru) member nonce now c
      member (λ p. own (Bool-cases (is_some (lookup nonce (swept member now c).entries))))
      (λ q. absurd (ground (arith, eq_refl member)))
  where
    own :
        (is_some (lookup nonce (swept member now c).entries) ≡ true)
          ⊎ (is_some (lookup nonce (swept member now c).entries) ≡ false)
        → IsRecent (record { nonce = nonce; added = now }) 0 (stored member nonce now c).lru
    own (inl p) = absurd (refused (rw p at h))
      where
        refused : false ≡ true → ⊥
        refused q = ground arith
    own (inr p) = rw p (
        evict-IsRecent c.cap_per_member _ (record { nonce = nonce; added = now }) 0 _ room
          (last-IsRecent (record { nonce = nonce; added = now }) _))

-- A nonce that was accepted of a member is refused from it for the time to live, whatever other calls come
-- between, if those for the member come within that time too and are fewer than the cap.
pub replay_refused :
    (member nonce : String) (first again : ℕ) (calls : List Call) (c : NonceCache)
    → IsValid c
    → (check_and_store member nonce first c).1 ≡ true
    → AreWithin member (first + c.ttl) calls
    → calls_of member calls < c.cap_per_member
    → again ≤ first + c.ttl
    → (check_and_store member nonce again (run calls (check_and_store member nonce first c).0)).1
      ≡ false
replay_refused member nonce first again calls c valid accepted within few soon =
    let (cap, ttl) = cap_unchanged member nonce first c in
    let e : NonceEntry = record { nonce = nonce; added = first } in
    let c' = (check_and_store member nonce first c).0 in
    let at_end =
      run-IsRecent member e calls c' 0
        (subst (λ w. AreWithin member (first + w) calls) (sym ttl) within) (ground (arith, cap))
        (accepted_last member nonce first c (ground arith) accepted) in
    recent_refused member nonce again (run calls c') e (0 + calls_of member calls)
      (run-IsValid calls c' (check_and_store-IsValid member nonce first c valid)) refl
      (ground (arith, ttl, run_ttl calls c')) at_end
  where
    run_ttl : (calls : List Call) (c : NonceCache) → (run calls c).ttl ≡ c.ttl
    run_ttl [] c = refl
    run_ttl (call ∷ calls) c =
        run_ttl calls (after call c) ∙ (cap_unchanged call.member call.nonce call.now c).1
