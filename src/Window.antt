-- ===== src/Window.antt =====
-- The sliding window of time stamps that src/cland/internal/peers/peers.go (`checkRateLimitLocked`) and
-- src/cland/internal/toolexec/ratelimit.go (`Allow`) write out alike, and the log of what it admits.
pub mod Bound
use minti.Base.{
  ℕ, ◌+◌, ◌≤◌, ◌<◌, zero, suc, Bool, true, false, List, [], ◌∷◌, ◌++◌, ◌≡◌, refl, arith, ltb, leb,
  if◌then◌else◌, keep, length, Bool-cases, length-append, ◌⊎◌, inl, inr,
}

-- `t.After(now.Add(-window))`
abbrev pub in_window : ℕ → ℕ → ℕ → Bool
in_window window now t = ltb now (t + window)

-- The stamps that the loop keeps.
abbrev pub prune : ℕ → ℕ → List ℕ → List ℕ
prune window now stamps = keep (in_window window now) stamps

-- The new stamps, and whether the event at `now` is admitted.
unfoldable pub admit : ℕ → ℕ → ℕ → List ℕ → List ℕ × Bool
admit limit window now stamps =
    let kept = prune window now stamps in
    if leb limit (length kept) then (kept, false) else (kept ++ now ∷ [], true)

-- The stamps after a sequence of events, and the times of all that were admitted, oldest first.
unfoldable pub admit_all : ℕ → ℕ → List ℕ → List ℕ × List ℕ → List ℕ × List ℕ
admit_all limit window [] (stamps, log) = (stamps, log)
admit_all limit window (now ∷ times) (stamps, log) =
    let (stamps', admitted) = admit limit window now stamps in
    admit_all limit window times (stamps', if admitted then log ++ now ∷ [] else log)

-- The reference: an event is admitted while fewer than `limit` of all those ever admitted lie in its
-- window. Nothing is forgotten.
unfoldable pub ideal : ℕ → ℕ → List ℕ → List ℕ → List ℕ
ideal limit window [] log = log
ideal limit window (now ∷ times) log =
    ideal limit window times
      (if leb limit (length (prune window now log)) then log else log ++ now ∷ [])

-- The times do not go back, and none lies before `start`.
abbrev pub IsRising : ℕ → List ℕ → Type 0
IsRising start [] = Unit
IsRising start (t ∷ ts) = (start ≤ t) × IsRising t ts
