-- ===== src/Scores.antt =====
-- src/cland/internal/scores/rubric.go: the reasoning score of a member's backends, and the window of recent
-- failures. The system score is floating-point arithmetic and is not part of it.
pub mod Best
use Prim.Native.String.{char_at, [], ◌∷◌ as char}
use Prim.Native.Char.{Char, code}
use minti.Base.{
  ℕ, String, Bool, true, false, List, [] as nil, ◌∷◌, ◌++◌, Option, none, some, ◌==◌, any, length,
  eqb, if◌then◌else◌, ℤ, pos, ltb_ℤ, ◌||◌,
}
use minti.Window.{prune}

pub record RubricEntry : Type 0 where
  pub backend : String
  pub score : ℤ

pub data RubricError : Type 0 where
  read_failed : RubricError
  parse_failed : RubricError
  empty_backend : RubricError
  score_out_of_range : RubricError

-- The loop over the entries of `LoadRubric`: the first error.
unfoldable pub validate_entries : List RubricEntry → Option RubricError
validate_entries nil = none
validate_entries (e ∷ es) =
    let rest = validate_entries es in
    if e.backend == ""
    then some empty_backend
    else if ltb_ℤ e.score (pos 0) || ltb_ℤ (pos 100) e.score
    then some score_out_of_range
    else rest

-- The rest of a text after a prefix, if it has the prefix.
unfoldable pub after_prefix : (prefix text : String) → Option String
after_prefix [] text = some text
after_prefix (char p prefix) [] = none
after_prefix (char p prefix) (char c text) =
    let rest = after_prefix prefix text in if eqb (code p) (code c) then rest else none

-- The text before the first ':', or all of it.
unfoldable pub vendor_of : String → String
vendor_of [] = ""
vendor_of (char c text) = let rest = vendor_of text in if eqb (code c) 58 then "" else char c rest

unfoldable pub is_in : String → List String → Bool
is_in s set = any (λ t. t == s) set

-- No backend has both prefixes, so the order in which the code tries them is of no consequence.
unfoldable pub backend_available :
    (resident_models remote_apis : List String) (backend : String) → Bool
backend_available resident_models remote_apis backend = elim (after_prefix "local:" backend) [
  | some model ↦ is_in model resident_models
  | none ↦ elim (after_prefix "remote-api:" backend) [
    | some rest ↦ is_in (vendor_of rest) remote_apis
    | none ↦ false
  ]
]

-- The loop of `ReasoningScore`.
unfoldable pub best_of :
    (resident_models remote_apis : List String) (best : ℤ) → List RubricEntry → ℤ
best_of resident_models remote_apis best nil = best
best_of resident_models remote_apis best (e ∷ es) =
    best_of resident_models remote_apis
      (if backend_available resident_models remote_apis e.backend
        then (if ltb_ℤ best e.score then e.score else best)
        else best)
      es

unfoldable pub reasoning_score :
    Option (List RubricEntry) → (resident_models remote_apis : List String) → ℤ
reasoning_score none resident_models remote_apis = pos 0
reasoning_score (some entries) resident_models remote_apis =
    best_of resident_models remote_apis (pos 0) entries

abbrev pub failure_window : ℕ
failure_window = 300000000000

-- `Record` and `Count` of `RecentFailures`; the state is the list of times.
unfoldable pub record_failure : (window t : ℕ) → List ℕ → List ℕ
record_failure window t times = prune window t times ++ t ∷ nil

unfoldable pub count_failures : (window now : ℕ) → List ℕ → List ℕ × ℕ
count_failures window now times = (prune window now times, length (prune window now times))
