-- ===== src/Scores/Best.antt =====
-- src/cland/internal/scores/rubric.go, `ReasoningScore`: the score is the greatest of the available backends.
use minti.Base.{
  String, true, false, List, [], ◌∷◌, some, if◌then◌else◌, ℤ, pos, ltb_ℤ, ◌≡◌, ◌⊎◌, inl, inr, refl,
  subst, arith, In, Bool-cases, sym, ◌∙◌,
}
use minti.Scores.{RubricEntry, backend_available, best_of, reasoning_score}

-- An entry whose backend the member has.
abbrev pub IsAvailable : (resident_models remote_apis : List String) → RubricEntry → Type 0
IsAvailable resident_models remote_apis e =
    backend_available resident_models remote_apis e.backend ≡ true

module _ (resident_models remote_apis : List String) where
  keep_best : ℤ → RubricEntry → ℤ
  keep_best best e =
      if backend_available resident_models remote_apis e.backend
      then (if ltb_ℤ best e.score then e.score else best)
      else best

  best_of-above :
      (best : ℤ) (es : List RubricEntry)
      → ltb_ℤ (best_of resident_models remote_apis best es) best ≡ false
  unfolding best_of keep_best
  best_of-above best [] = ground arith
  best_of-above best (e ∷ es) = ground (arith, best_of-above (keep_best best e) es)

  best_of-covers :
      (best : ℤ) (e : RubricEntry) (es : List RubricEntry)
      → In e es
      → IsAvailable resident_models remote_apis e
      → ltb_ℤ (best_of resident_models remote_apis best es) e.score ≡ false
  unfolding best_of keep_best
  best_of-covers best e [] m h = absurd m
  best_of-covers best e (x ∷ es) (inl p) h =
      let above = best_of-above (keep_best best x) es in
      let h' : IsAvailable resident_models remote_apis x =
        subst (IsAvailable resident_models remote_apis) p h in
      subst (λ w. ltb_ℤ (best_of resident_models remote_apis best (x ∷ es)) w.score ≡ false) (sym p)
        (ground (arith, above))
  best_of-covers best e (x ∷ es) (inr m) h = best_of-covers (keep_best best x) e es m h

  -- A score is attained that is the first one or that of an available entry.
  abbrev pub IsAttained : ℤ → ℤ → List RubricEntry → Type 0
  IsAttained score best es =
      (score ≡ best)
      ⊎ ((e : RubricEntry) × In e es
          × IsAvailable resident_models remote_apis e
          × (score ≡ e.score))

  keep_best_cases :
      (best : ℤ) (e : RubricEntry)
      → (keep_best best e ≡ best)
        ⊎ (IsAvailable resident_models remote_apis e × (keep_best best e ≡ e.score))
  unfolding keep_best
  keep_best_cases best e =
      elim (Bool-cases (backend_available resident_models remote_apis e.backend)) [
        | inr p ↦ inl (rw p refl)
        | inl p ↦ elim (Bool-cases (ltb_ℤ best e.score)) [
          | inl q ↦ inr (p, rw (p, q) refl)
          | inr q ↦ inl (rw (p, q) refl)
        ]
      ]

  best_of-IsAttained :
      (best : ℤ) (es : List RubricEntry)
      → IsAttained (best_of resident_models remote_apis best es) best es
  unfolding best_of keep_best
  best_of-IsAttained best [] = inl refl
  best_of-IsAttained best (e ∷ es) = elim (best_of-IsAttained (keep_best best e) es) [
    | inr (x, m, h, p) ↦ inr (x, inr m, h, p)
    | inl p ↦ elim (keep_best_cases best e) [
      | inl q ↦ inl (p ∙ q)
      | inr (h, q) ↦ inr (e, inl refl, h, p ∙ q)
    ]
  ]

-- The reasoning score is 0 or the score of an available entry, and no available entry scores above it.
pub reasoning_score-greatest :
    (resident_models remote_apis : List String) (es : List RubricEntry)
    → IsAttained resident_models remote_apis
        (reasoning_score (some es) resident_models remote_apis)
        (pos 0)
        es
      × ((e : RubricEntry)
          → In e es
          → IsAvailable resident_models remote_apis e
          → ltb_ℤ (reasoning_score (some es) resident_models remote_apis) e.score ≡ false)
unfolding reasoning_score
reasoning_score-greatest resident_models remote_apis es = (
  best_of-IsAttained resident_models remote_apis (pos 0) es,
  λ e m h. best_of-covers resident_models remote_apis (pos 0) e es m h,
)
