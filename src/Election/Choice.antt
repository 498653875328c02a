-- ===== src/Election/Choice.antt =====
-- src/cland/internal/election/engine.go, `selectCandidate` and `selectScribe`: the choice is the
-- best candidate, and does not depend on the order in which Go walks the registry's map.
use mathlib.Core.List.{head?}
use minti.Base.{
  ℕ, Bool, true, false, List, [], ◌∷◌, ◌++◌, Option, some, ◌≡◌, refl, sym, ap, ◌∙◌, ◌≢◌, ◌↔◌, ◌⊎◌,
  inl, inr, arith, subst, keep, In, In-keep, In-of_keep, In-append_left, In-append_right,
  In-of_append, sort_slice, str_lt, str_lt-asym, str_lt-weak, str_lt-total, IsStrict, IsLeast,
  head-sort_slice, Bool-cases, Option-cases, ℤ, pos_part, neg_part, ◌+◌, ◌≤◌,
}
use minti.Clan.{Clan}
use minti.Peers.{Member}
use minti.Election.Select.{
  LocalCandidate, peer_candidate, peer_scribe, gather, candidates, scribes, id_less, score_less,
  scribe_less, first_or_zero, choose, select_candidate, select_scribe,
}

id_less-IsStrict : IsStrict id_less
unfolding id_less
id_less-IsStrict = record {
  asym = λ a b. str_lt-asym a.member_id b.member_id;
  weak = λ a b c. str_lt-weak a.member_id b.member_id c.member_id;
}

score_less-IsStrict : IsStrict score_less
unfolding score_less
score_less-IsStrict = record {
  asym = λ a b h. ground (arith, str_lt-asym a.member_id b.member_id);
  weak = λ a b c h. ground (arith, str_lt-weak a.member_id b.member_id c.member_id);
}

scribe_less-IsStrict : IsStrict scribe_less
unfolding scribe_less
scribe_less-IsStrict = record {
  asym = λ a b h. ground (arith, str_lt-asym a.member_id b.member_id);
  weak = λ a b c h. ground (arith, str_lt-weak a.member_id b.member_id c.member_id);
}

score_less-total :
    (a b : LocalCandidate)
    → score_less a b ≡ false
    → score_less b a ≡ false
    → a.member_id ≡ b.member_id
unfolding score_less
score_less-total a b h k = str_lt-total a.member_id b.member_id (ground arith) (ground arith)

scribe_less-total :
    (a b : LocalCandidate)
    → scribe_less a b ≡ false
    → scribe_less b a ≡ false
    → a.member_id ≡ b.member_id
unfolding scribe_less
scribe_less-total a b h k = str_lt-total a.member_id b.member_id (ground arith) (ground arith)

first_of_head :
    (cs : List LocalCandidate) (m : LocalCandidate) → head? cs ≡ some m → first_or_zero cs ≡ m
unfolding first_or_zero
first_of_head [] m e = ground arith
first_of_head (c ∷ cs) m e = ground arith

first-IsLeast :
    (less : LocalCandidate → LocalCandidate → Bool) (x : LocalCandidate) (xs : List LocalCandidate)
    → IsStrict less
    → IsLeast less (first_or_zero (sort_slice less (x ∷ xs))) (x ∷ xs)
first-IsLeast less x xs s =
    let (m, e, l) = head-sort_slice less s x xs in
    subst (λ c. IsLeast less c (x ∷ xs)) (sym (first_of_head (sort_slice less (x ∷ xs)) m e)) l

-- What §5.4 and §5.6 of the protocol ask of the choice among some candidates.
pub record IsChoice (is_pinned : LocalCandidate → Bool)
    (less : LocalCandidate → LocalCandidate → Bool) (cs : List LocalCandidate) (c : LocalCandidate)
    : Type 0 where
  -- one of them
  pub within : In c cs
  -- with a pin, a pinned one, and no pinned one has a lower id
  pub by_pin :
      (p : LocalCandidate)
      → In p cs
      → is_pinned p ≡ true
      → (is_pinned c ≡ true) × (id_less p c ≡ false)
  -- with no pin, none comes before it
  pub by_score :
      ((p : LocalCandidate) → In p cs → is_pinned p ≡ false)
      → (z : LocalCandidate) → In z cs
      → less z c ≡ false

module _ (is_pinned : LocalCandidate → Bool) (less : LocalCandidate → LocalCandidate → Bool)
    (s : IsStrict less) where
  choose_split :
      (cs ps : List LocalCandidate) (x : LocalCandidate) (xs : List LocalCandidate)
      → cs ≡ x ∷ xs
      → keep is_pinned cs ≡ ps
      → IsChoice is_pinned less cs (choose is_pinned less cs)
  unfolding choose
  choose_split cs [] x xs e none_pinned =
      rw (none_pinned, choose)
        (record {
          within = least.within;
          by_pin = λ p m h. absurd (subst (λ l. In p l) none_pinned (In-keep is_pinned p cs m h));
          by_score = λ h z m. least.least z m;
        })
    where
      least : IsLeast less (first_or_zero (sort_slice less cs)) cs
      least = rw e (first-IsLeast less x xs s)
  choose_split cs (q ∷ qs) x xs e some_pinned =
      rw (some_pinned, choose)
        (record {
          within = (kept (first_or_zero (sort_slice id_less (q ∷ qs))) least.within).0;
          by_pin = λ p m h. (
            (kept (first_or_zero (sort_slice id_less (q ∷ qs))) least.within).1,
            least.least p (subst (λ l. In p l) some_pinned (In-keep is_pinned p cs m h)),
          );
          by_score = λ h z m.
              let (i, pinned) = kept (first_or_zero (sort_slice id_less (q ∷ qs))) least.within in
              absurd (ground (arith, h (first_or_zero (sort_slice id_less (q ∷ qs))) i));
        })
    where
      least : IsLeast id_less (first_or_zero (sort_slice id_less (q ∷ qs))) (q ∷ qs)
      least = first-IsLeast id_less q qs id_less-IsStrict

      kept : (c : LocalCandidate) → In c (q ∷ qs) → In c cs × (is_pinned c ≡ true)
      kept c m = In-of_keep is_pinned c cs (subst (λ l. In c l) (sym some_pinned) m)

  pub choose-IsChoice :
      (x : LocalCandidate) (xs : List LocalCandidate)
      → IsChoice is_pinned less (x ∷ xs) (choose is_pinned less (x ∷ xs))
  choose-IsChoice x xs = choose_split (x ∷ xs) _ x xs refl refl

  -- Two choices among the same candidates fall on the same member.
  IsChoice-agree :
      (cs ds : List LocalCandidate) (c d : LocalCandidate)
      → ((a b : LocalCandidate) → less a b ≡ false → less b a ≡ false → a.member_id ≡ b.member_id)
      → ((a : LocalCandidate) → In a cs ↔ In a ds)
      → IsChoice is_pinned less cs c
      → IsChoice is_pinned less ds d
      → c.member_id ≡ d.member_id
  IsChoice-agree cs ds c d total same h k = elim (Bool-cases (is_pinned c)) [
    | inl pinned ↦
        let (other, below) = k.by_pin c ((same c).0 h.within) pinned in
        let (_, above) = h.by_pin d ((same d).1 k.within) other in
        str_lt-total c.member_id d.member_id (unfold id_less in below) (unfold id_less in above)
    | inr free ↦
        let unpinned : (p : LocalCandidate) → In p cs → is_pinned p ≡ false =
          λ p m. not_pinned p m free (Bool-cases (is_pinned p)) in
        total c d (k.by_score (λ p m. unpinned p ((same p).1 m)) c ((same c).0 h.within))
          (h.by_score unpinned d ((same d).1 k.within))
  ]
    where
      not_pinned :
          (p : LocalCandidate)
          → In p cs
          → is_pinned c ≡ false
          → (is_pinned p ≡ true) ⊎ (is_pinned p ≡ false)
          → is_pinned p ≡ false
      not_pinned p m free (inl pinned) = ground (arith, (h.by_pin p m pinned).0)
      not_pinned p m free (inr e) = e

  pub choose-agree :
      (cs ds : List LocalCandidate)
      → ((a b : LocalCandidate) → less a b ≡ false → less b a ≡ false → a.member_id ≡ b.member_id)
      → ((a : LocalCandidate) → In a cs ↔ In a ds)
      → (choose is_pinned less cs).member_id ≡ (choose is_pinned less ds).member_id
  choose-agree [] [] total same = refl
  choose-agree [] (d ∷ ds) total same = absurd ((same d).1 (inl refl))
  choose-agree (c ∷ cs) [] total same = absurd ((same c).0 (inl refl))
  choose-agree (c ∷ cs) (d ∷ ds) total same =
      IsChoice-agree (c ∷ cs) (d ∷ ds) _ _ total same (choose-IsChoice c cs) (choose-IsChoice d ds)

In-gather :
    (make : Member → Option LocalCandidate) (c : LocalCandidate) (m : Member) (ms : List Member)
    → In m ms
    → make m ≡ some c
    → In c (gather make ms)
unfolding gather
In-gather make c m (n ∷ ms) (inl e) h =
    let made : make n ≡ some c = subst (λ w. make w ≡ some c) e h in rw (made, gather) (inl refl)
In-gather make c m (n ∷ ms) (inr i) h = elim (Option-cases (make n)) [
  | inl e ↦ rw (e, gather) (In-gather make c m ms i h)
  | inr (d, e) ↦ rw (e, gather) (inr (In-gather make c m ms i h))
]
In-gather make c m [] h e = absurd h

In-of_gather :
    (make : Member → Option LocalCandidate) (c : LocalCandidate) (ms : List Member)
    → In c (gather make ms)
    → (m : Member) × In m ms × (make m ≡ some c)
unfolding gather
In-of_gather make c [] h = absurd h
In-of_gather make c (n ∷ ms) h = elim (Option-cases (make n)) [
  | inl e ↦ let (m, i, q) = In-of_gather make c ms (rw (e, gather) at h) in (m, inr i, q)
  | inr (d, e) ↦ pick d e (rw (e, gather) at h) (In-of_gather make c ms)
]
  where
    pick :
        (d : LocalCandidate)
        → make n ≡ some d
        → In c (d ∷ gather make ms)
        → (In c (gather make ms) → (m : Member) × In m ms × (make m ≡ some c))
        → (m : Member) × In m (n ∷ ms) × (make m ≡ some c)
    pick d e (inl p) rest = (n, inl refl, e ∙ ap some (sym p))
    pick d e (inr i) rest = let (m, j, q) = rest i in (m, inr j, q)

gather_same :
    (make : Member → Option LocalCandidate) (own : List LocalCandidate) (ms ns : List Member)
    → ((m : Member) → In m ms ↔ In m ns)
    → (c : LocalCandidate) → In c (own ++ gather make ms) ↔ In c (own ++ gather make ns)
gather_same make own ms ns same c = (
  λ h. elim (In-of_append c own _ h) [
    | inl i ↦ In-append_left c own _ i
    | inr i ↦
        let (m, j, e) = In-of_gather make c ms i in
        In-append_right c own _ (In-gather make c m ns ((same m).0 j) e)
  ],
  λ h. elim (In-of_append c own _ h) [
    | inl i ↦ In-append_left c own _ i
    | inr i ↦
        let (m, j, e) = In-of_gather make c ns i in
        In-append_right c own _ (In-gather make c m ms ((same m).1 j) e)
  ],
)

-- The order in which the registry's members are walked does not matter: with the same members, in
-- any order, `selectCandidate` names the same member, and `selectScribe` does too.
pub select-order_free :
    (clan : Option Clan) (self : LocalCandidate) (clock : ℕ) (ms ns : List Member)
    → ((m : Member) → In m ms ↔ In m ns)
    → ((select_candidate clan self clock ms).0.member_id
        ≡ (select_candidate clan self clock ns).0.member_id)
      × ((select_scribe clan self clock ms).member_id
          ≡ (select_scribe clan self clock ns).member_id)
unfolding select_candidate select_scribe candidates scribes
select-order_free clan self clock ms ns same = (
  choose-agree (λ c. c.pinned) score_less score_less-IsStrict (candidates clan self clock ms)
      (candidates clan self clock ns) score_less-total
      (gather_same (peer_candidate clan clock) _ ms ns same),
  choose-agree (λ c. c.pinned_scribe) scribe_less scribe_less-IsStrict (scribes clan self clock ms)
      (scribes clan self clock ns) scribe_less-total
      (gather_same (peer_scribe clan clock) _ ms ns same),
)

select_candidate-IsChoice :
    (clan : Option Clan) (self : LocalCandidate) (clock : ℕ) (ms : List Member)
    → candidates clan self clock ms ≢ []
    → IsChoice
        (λ c. c.pinned)
        score_less
        (candidates clan self clock ms)
        (select_candidate clan self clock ms).0
unfolding select_candidate
select_candidate-IsChoice clan self clock ms h = of_nonempty (candidates clan self clock ms) h
  where
    of_nonempty :
        (cs : List LocalCandidate)
        → cs ≢ []
        → IsChoice (λ c. c.pinned) score_less cs (choose (λ c. c.pinned) score_less cs)
    of_nonempty [] n = absurd (n refl)
    of_nonempty (c ∷ cs) n = choose-IsChoice (λ c. c.pinned) score_less score_less-IsStrict c cs

infix 50 ◌≤ℤ◌
abbrev pub ◌≤ℤ◌ : ℤ → ℤ → Type 0
a ≤ℤ b = pos_part a + neg_part b ≤ pos_part b + neg_part a

-- `c` has the higher score, or the same and the earlier admission, or both the same and no higher id.
abbrev pub Precedes : LocalCandidate → LocalCandidate → Type 0
Precedes c z =
    (z.reasoning_score ≤ℤ c.reasoning_score)
    × (z.reasoning_score ≡ c.reasoning_score
        → (c.admitted_at ≤ z.admitted_at)
          × (c.admitted_at ≡ z.admitted_at → str_lt z.member_id c.member_id ≡ false))

Precedes-of_score_less : (c z : LocalCandidate) → score_less z c ≡ false → Precedes c z
unfolding score_less
Precedes-of_score_less c z h = (
  ground arith,
  λ e. (
    ground (arith, ap pos_part e, ap neg_part e),
    λ f. ground (arith, ap pos_part e, ap neg_part e),
  ),
)

-- Where there is a candidate, `selectCandidate` names one of them. If some are pinned it names a
-- pinned one, and no pinned one has a lower id. If none is pinned, the one it names precedes all:
-- it has the highest score, among those the earliest admission, among those the lowest id.
pub select_candidate-best :
    (clan : Option Clan) (self : LocalCandidate) (clock : ℕ) (ms : List Member)
    → candidates clan self clock ms ≢ []
    → In (select_candidate clan self clock ms).0 (candidates clan self clock ms)
      × ((p : LocalCandidate)
          → In p (candidates clan self clock ms)
          → p.pinned ≡ true
          → ((select_candidate clan self clock ms).0.pinned ≡ true)
            × (str_lt p.member_id (select_candidate clan self clock ms).0.member_id ≡ false))
      × (((p : LocalCandidate) → In p (candidates clan self clock ms) → p.pinned ≡ false)
          → (z : LocalCandidate) → In z (candidates clan self clock ms)
          → Precedes (select_candidate clan self clock ms).0 z)
unfolding id_less
select_candidate-best clan self clock ms h =
    let best = select_candidate-IsChoice clan self clock ms h in
    (best.within, best.by_pin, λ n z i. Precedes-of_score_less _ z (best.by_score n z i))
