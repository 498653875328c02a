-- ===== src/Election/Select.antt =====
-- src/cland/internal/election/engine.go: who ought to be Orchestrator, who Scribe, and how many
-- votes an election needs. `self` is what the closure `LocalSelf` returns, `clock` what `time.Now`
-- does, and `members` the registry's snapshot in the order in which Go walks the map.
use minti.Base.{
  ℕ, ◌+◌, ◌/◌, String, Bool, true, false, ◌&&◌, List, [], ◌∷◌, ◌++◌, map, Option, none, some, ◌==◌,
  if◌then◌else◌, ltb, eqb, ℤ, pos, ltb_ℤ, length, keep, sort_slice, str_lt,
}
use minti.Clan.{Clan, RosterMember}
use minti.Peers.{Member, Value, Fields, boolean, object, opaque, end, field, live, ad_fresh}

pub record LocalCandidate : Type 0 where
  pub member_id : String
  pub reasoning_score : ℤ
  pub reasoning_enabled : Bool
  pub pinned : Bool
  pub admitted_at : ℕ
  pub scribe_capable : Bool
  pub pinned_scribe : Bool

-- Go's `LocalCandidate{}`.
abbrev pub zero_candidate : LocalCandidate
zero_candidate = record {
  member_id = "";
  reasoning_score = pos 0;
  reasoning_enabled = false;
  pinned = false;
  admitted_at = 0;
  scribe_capable = false;
  pinned_scribe = false;
}

-- `caps[key]`; the decoder keeps the last of two equal keys.
unfoldable pub get_field : String → Fields → Option Value
get_field k end = none
get_field k (field j v rest) =
    let later = get_field k rest in
    elim later [ some w ↦ some w | none ↦ if j == k then some v else none ]

unfoldable pub as_object : Option Value → Option Fields
as_object none = none
as_object (some (boolean b)) = none
as_object (some (object fs)) = some fs
as_object (some opaque) = none

unfoldable pub as_bool : Option Value → Bool
as_bool none = false
as_bool (some (boolean b)) = b
as_bool (some (object fs)) = false
as_bool (some opaque) = false

-- A type assertion that fails leaves `false`.
unfoldable pub reasoning_enabled : Fields → Bool
unfolding as_object as_bool
reasoning_enabled caps = elim (as_object (get_field "reasoning" caps)) [
  | none ↦ false
  | some r ↦ as_bool (get_field "enabled" r)
]

unfoldable pub admitted_in : String → List RosterMember → ℕ
admitted_in id [] = 0
admitted_in id (m ∷ ms) = if m.member_id == id then m.admitted_at else admitted_in id ms

unfoldable pub admitted_at_from_roster : Option Clan → String → ℕ
admitted_at_from_roster none id = 0
admitted_at_from_roster (some c) id = admitted_in id c.roster

-- A peer from which a heartbeat was ever received must be live; another must have advertised lately.
unfoldable pub is_fresh : ℕ → Member → Bool
is_fresh clock m = if m.heartbeat_seen then live m clock else ad_fresh m clock

-- What the loop of `selectCandidate` makes of a member.
unfoldable pub peer_candidate : Option Clan → ℕ → Member → Option LocalCandidate
peer_candidate clan clock m = elim m.latest_ad [
  | none ↦ none
  | some ad ↦
      if reasoning_enabled ad.capabilities && is_fresh clock m
      then some (record {
        member_id = m.member_id;
        reasoning_score = ad.reasoning_score;
        reasoning_enabled = true;
        pinned = ad.pinned_orchestrator;
        admitted_at = admitted_at_from_roster clan m.member_id;
        scribe_capable = false;
        pinned_scribe = false;
      })
      else none
]

-- What the loop of `selectScribe` makes of a member.
unfoldable pub peer_scribe : Option Clan → ℕ → Member → Option LocalCandidate
peer_scribe clan clock m = elim m.latest_ad [
  | none ↦ none
  | some ad ↦
      if ad.scribe_capable && is_fresh clock m
      then some (record {
        member_id = m.member_id;
        reasoning_score = ad.reasoning_score;
        reasoning_enabled = false;
        pinned = false;
        admitted_at = admitted_at_from_roster clan m.member_id;
        scribe_capable = true;
        pinned_scribe = ad.pinned_scribe;
      })
      else none
]

unfoldable pub gather : (Member → Option LocalCandidate) → List Member → List LocalCandidate
gather make [] = []
gather make (m ∷ ms) = elim (make m) [ none ↦ gather make ms | some c ↦ c ∷ gather make ms ]

unfoldable pub candidates : Option Clan → LocalCandidate → ℕ → List Member → List LocalCandidate
candidates clan self clock members =
    (if self.reasoning_enabled then self ∷ [] else []) ++ gather (peer_candidate clan clock) members

unfoldable pub scribes : Option Clan → LocalCandidate → ℕ → List Member → List LocalCandidate
scribes clan self clock members =
    (if self.scribe_capable then self ∷ [] else []) ++ gather (peer_scribe clan clock) members

-- The order of the pin path.
unfoldable pub id_less : LocalCandidate → LocalCandidate → Bool
id_less a b = str_lt a.member_id b.member_id

unfoldable pub tie_less : LocalCandidate → LocalCandidate → Bool
tie_less a b =
    if eqb a.admitted_at b.admitted_at
    then str_lt a.member_id b.member_id
    else ltb a.admitted_at b.admitted_at

-- The order of the score path: the highest score first.
unfoldable pub score_less : LocalCandidate → LocalCandidate → Bool
unfolding tie_less
score_less a b =
    if ltb_ℤ b.reasoning_score a.reasoning_score
    then true
    else if ltb_ℤ a.reasoning_score b.reasoning_score
    then false
    else tie_less a b

-- The order of the scribe's score path: the lowest score first.
unfoldable pub scribe_less : LocalCandidate → LocalCandidate → Bool
unfolding tie_less
scribe_less a b =
    if ltb_ℤ a.reasoning_score b.reasoning_score
    then true
    else if ltb_ℤ b.reasoning_score a.reasoning_score
    then false
    else tie_less a b

-- `sorted[0]`, Go's zero value where the caller has returned on an empty list.
unfoldable pub first_or_zero : List LocalCandidate → LocalCandidate
first_or_zero [] = zero_candidate
first_or_zero (c ∷ cs) = c

-- The choice among candidates: the pinned ones alone if there are any, by id; else all, by `less`.
unfoldable pub choose :
    (LocalCandidate → Bool)
    → (LocalCandidate → LocalCandidate → Bool)
    → List LocalCandidate
    → LocalCandidate
choose is_pinned less cs = elim (keep is_pinned cs) [
  | [] ↦ first_or_zero (sort_slice less cs)
  | p ∷ ps ↦ first_or_zero (sort_slice id_less (p ∷ ps))
]

unfoldable pub reason_of : List LocalCandidate → List LocalCandidate → String
reason_of [] pinned = ""
reason_of (c ∷ cs) [] = "lease_expired"
reason_of (c ∷ cs) (p ∷ ps) = "pin_override"

unfoldable pub select_candidate :
    Option Clan → LocalCandidate → ℕ → List Member → LocalCandidate × String
unfolding reason_of
select_candidate clan self clock members =
    let cs = candidates clan self clock members in
    (choose (λ c. c.pinned) score_less cs, reason_of cs (keep (λ c. c.pinned) cs))

unfoldable pub select_scribe : Option Clan → LocalCandidate → ℕ → List Member → LocalCandidate
select_scribe clan self clock members =
    choose (λ c. c.pinned_scribe) scribe_less (scribes clan self clock members)

unfoldable pub is_active_member : RosterMember → Bool
is_active_member m = m.state == "active"

unfoldable pub active_count : List RosterMember → ℕ
active_count roster = length (keep is_active_member roster)

unfoldable pub quorum : Clan → ℕ
quorum clan = let n = active_count clan.roster in ((if eqb n 0 then 1 else n) + 1) / 2

unfoldable pub active_roster : Option Clan → List String
active_roster none = []
active_roster (some c) = map (λ m. m.member_id) (keep is_active_member c.roster)
