-- ===== src/Window/Bound.antt =====
-- The sliding window of src/cland/internal/toolexec/ratelimit.go and
-- src/cland/internal/peers/peers.go: forgetting old stamps changes no decision, and no window holds
-- more admitted events than the limit.
use minti.Base.{
  ℕ, ◌≤◌, Bool, true, false, List, [], ◌∷◌, ◌++◌, ◌≡◌, refl, sym, ◌∙◌, ap, arith, leb,
  if◌then◌else◌, keep, length, Bool-cases, length-append, length-keep-le, inl, inr,
}
use minti.Window.{in_window, prune, admit, admit_all, ideal, IsRising}

keep-append {ℓ} :
    {A : Type ℓ} (p : A → Bool) (xs ys : List A) → keep p (xs ++ ys) ≡ keep p xs ++ keep p ys
unfolding keep
keep-append p [] ys = refl
keep-append p (x ∷ xs) ys = elim (Bool-cases (p x)) [
  | inl e ↦ rw (e, keep-append p xs ys)
  | inr e ↦ rw (e, keep-append p xs ys)
]

-- What an earlier prune drops a later one drops too.
prune-prune :
    (window now t : ℕ) (stamps : List ℕ)
    → now ≤ t
    → prune window t (prune window now stamps) ≡ prune window t stamps
unfolding keep
prune-prune window now t [] h = refl
prune-prune window now t (x ∷ xs) h = ground (arith, prune-prune window now t xs)

-- From `now` on, the stamps and the log cannot be told apart.
abbrev Agree : ℕ → ℕ → List ℕ → List ℕ → Type 0
Agree window now stamps log = (t : ℕ) → now ≤ t → prune window t stamps ≡ prune window t log

admit-Agree :
    (limit window start now : ℕ) (stamps log : List ℕ)
    → start ≤ now
    → Agree window start stamps log
    → Agree window now
        (admit limit window now stamps).0
        (if leb limit (length (prune window now log)) then log else log ++ now ∷ [])
unfolding admit
admit-Agree limit window start now stamps log h agree t le =
    elim (Bool-cases (leb limit (length (prune window now log)))) [
      | inl full ↦ rw (agree now h, full) (prune-prune window now t log le)
      | inr free ↦
          rw (agree now h, free, keep-append, keep-append)
            (ap (λ l. l ++ prune window t (now ∷ [])) (prune-prune window now t log le))
    ]

-- An event is admitted by the same test as in the reference.
admit-admitted :
    (limit window start now : ℕ) (stamps log : List ℕ)
    → start ≤ now
    → Agree window start stamps log
    → (admit limit window now stamps).1
      ≡ (if leb limit (length (prune window now log)) then false else true)
unfolding admit
admit-admitted limit window start now stamps log h agree =
    elim (Bool-cases (leb limit (length (prune window now log)))) [
      | inl full ↦ rw (agree now h, full)
      | inr free ↦ rw (agree now h, free)
    ]

log_of-admitted :
    (limit window start now : ℕ) (stamps log : List ℕ)
    → start ≤ now
    → Agree window start stamps log
    → (if (admit limit window now stamps).1 then log ++ now ∷ [] else log)
      ≡ (if leb limit (length (prune window now log)) then log else log ++ now ∷ [])
log_of-admitted limit window start now stamps log h agree =
    ground (arith, admit-admitted limit window start now stamps log h agree)

admit_all_from :
    (limit window start : ℕ) (times stamps log : List ℕ)
    → IsRising start times
    → Agree window start stamps log
    → (admit_all limit window times (stamps, log)).1 ≡ ideal limit window times log
unfolding admit_all ideal
admit_all_from limit window start [] stamps log r agree = refl
admit_all_from limit window start (now ∷ times) stamps log r agree =
    let same = log_of-admitted limit window start now stamps log r.0 agree in
    let kept = admit-Agree limit window start now stamps log r.0 agree in
    admit_all_from limit window now times (admit limit window now stamps).0
      (if (admit limit window now stamps).1 then log ++ now ∷ [] else log) r.1
      (λ t h. kept t h ∙ ap (prune window t) (sym same))
    ∙ ap (ideal limit window times) same

-- Forgetting the stamps outside the window changes no decision: with times that do not go back, the
-- events that are admitted from the empty state are those that the reference admits, which forgets
-- nothing.
pub admit_all-ideal :
    (limit window : ℕ) (times : List ℕ)
    → IsRising 0 times
    → (admit_all limit window times ([], [])).1 ≡ ideal limit window times []
admit_all-ideal limit window times r = admit_all_from limit window 0 times [] [] r (λ t h. refl)

-- What lies in the window of a later time is in the window of the earlier one.
length-prune-le :
    (window now t : ℕ) (log : List ℕ)
    → now ≤ t
    → length (prune window t log) ≤ length (prune window now log)
unfolding keep
length-prune-le window now t [] h = omega arith
length-prune-le window now t (x ∷ xs) h = ground (arith, length-prune-le window now t xs)

-- The last of some times, `start` if there is none.
abbrev pub latest : ℕ → List ℕ → ℕ
latest start [] = start
latest start (t ∷ ts) = latest t ts

length-prune-admitted :
    (limit window now : ℕ) (log : List ℕ)
    → length (prune window now log) ≤ limit
    → length (
        prune window now
          (if leb limit (length (prune window now log)) then log else log ++ now ∷ []))
      ≤ limit
length-prune-admitted limit window now log h =
    elim (Bool-cases (leb limit (length (prune window now log)))) [
      | inl full ↦ rw full h
      | inr free ↦
          rw (free, keep-append)
            (ground (
              arith,
              length-append (prune window now log) (prune window now (now ∷ [])),
              length-keep-le (in_window window now) (now ∷ []),
            ))
    ]

ideal-bounded :
    (limit window start : ℕ) (times log : List ℕ)
    → IsRising start times
    → length (prune window start log) ≤ limit
    → length (prune window (latest start times) (ideal limit window times log)) ≤ limit
unfolding ideal
ideal-bounded limit window start [] log r h = h
ideal-bounded limit window start (now ∷ times) log r h =
    ideal-bounded limit window now times _ r.1 (
      length-prune-admitted limit window now log
        (omega (arith, length-prune-le window start now log r.0)))

-- After any events whose times do not go back, at most `limit` of all those admitted lie in the
-- window that ends at the last of them, or at any later time.
pub admit_all-bounded :
    (limit window t : ℕ) (times : List ℕ)
    → IsRising 0 times
    → latest 0 times ≤ t
    → length (prune window t (admit_all limit window times ([], [])).1) ≤ limit
unfolding keep
admit_all-bounded limit window t times r h = rw (admit_all-ideal limit window times r) (
    omega (
      arith,
      length-prune-le window (latest 0 times) t (ideal limit window times []) h,
      ideal-bounded limit window 0 times [] r (omega arith),
    ))
