-- ===== src/Toolexec/Windows.antt =====
-- src/cland/internal/toolexec/ratelimit.go: each origin has its own window.
use minti.Base.{
  ℕ, String, Bool, true, false, List, [], ◌∷◌, ◌++◌, ◌≡◌, ◌≢◌, refl, sym, ap, ◌∙◌, ◌==◌, ◌&&◌,
  arith, eq_iff, if◌then◌else◌, lookup, lookup-insert, Bool-cases, inl, inr,
}
use minti.Window.{admit, admit_all}
use minti.Toolexec.{RateLimiter}
use minti.Toolexec.Limits.{new_rate_limiter, allow, bucket_of, stamps_or_empty}

-- The limiter after a sequence of calls, and the times at which those of `origin` were allowed.
unfoldable pub allow_all :
    (origin : String) → List (String × ℕ) → RateLimiter × List ℕ → RateLimiter × List ℕ
allow_all origin [] (l, log) = (l, log)
allow_all origin ((o, now) ∷ calls) (l, log) =
    let (l', allowed) = allow o now l in
    allow_all origin calls (l', if allowed && o == origin then log ++ now ∷ [] else log)

unfoldable pub times_of : String → List (String × ℕ) → List ℕ
times_of origin [] = []
times_of origin ((o, now) ∷ calls) =
    let rest = times_of origin calls in if o == origin then now ∷ rest else rest

bucket_of-allow :
    (origin o : String) (now : ℕ) (l : RateLimiter)
    → origin ≢ ""
    → bucket_of origin (allow o now l).0 ≡ (
        if o == origin
        then (admit l.max_burst l.window now (bucket_of origin l)).0
        else bucket_of origin l)
unfolding allow stamps_or_empty
bucket_of-allow origin o now l named = ground (
  arith,
  eq_iff o origin,
  eq_iff o "",
  lookup-insert o origin (admit l.max_burst l.window now (bucket_of o l)).0 l.buckets,
)

allow-rates :
    (o : String) (now : ℕ) (l : RateLimiter)
    → ((allow o now l).0.max_burst ≡ l.max_burst) × ((allow o now l).0.window ≡ l.window)
unfolding allow
allow-rates o now l = (ground arith, ground arith)

allow-admit :
    (o : String) (now : ℕ) (l : RateLimiter)
    → o ≢ ""
    → (allow o now l).1 ≡ (admit l.max_burst l.window now (bucket_of o l)).1
unfolding allow
allow-admit o now l named = ground (arith, eq_iff o "")

and_true : (b : Bool) → (b && true) ≡ b
and_true true = refl
and_true false = refl

and_false : (b : Bool) → (b && false) ≡ false
and_false true = refl
and_false false = refl

allow_all-from :
    (origin : String) (calls : List (String × ℕ)) (l : RateLimiter) (log : List ℕ)
    → origin ≢ ""
    → (bucket_of origin (allow_all origin calls (l, log)).0, (allow_all origin calls (l, log)).1)
      ≡ admit_all l.max_burst l.window (times_of origin calls) (bucket_of origin l, log)
unfolding allow_all times_of admit_all
allow_all-from origin [] l log named = refl
allow_all-from origin ((o, now) ∷ calls) l log named = elim (Bool-cases (o == origin)) [
  | inl e ↦
      let q : o ≡ origin = ground (arith, eq_iff o origin) in
      let b : bucket_of origin (allow o now l).0
          ≡ (admit l.max_burst l.window now (bucket_of origin l)).0 =
        bucket_of-allow origin o now l named ∙ rw e refl in
      let a : (allow o now l).1 ≡ (admit l.max_burst l.window now (bucket_of origin l)).1 =
        allow-admit o now l (λ z. named (sym q ∙ z))
        ∙ ap (λ x. (admit l.max_burst l.window now (bucket_of x l)).1) q in
      rw e (
        allow_all-from origin calls (allow o now l).0 _ named
        ∙ rw
            (
              b,
              (allow-rates o now l).0,
              (allow-rates o now l).1,
              a,
              e,
              and_true (admit l.max_burst l.window now (bucket_of origin l)).1,
            )
            refl)
  | inr e ↦
      let b : bucket_of origin (allow o now l).0 ≡ bucket_of origin l =
        bucket_of-allow origin o now l named ∙ rw e refl in
      rw e (
        allow_all-from origin calls (allow o now l).0 _ named
        ∙ rw (b, (allow-rates o now l).0, (allow-rates o now l).1, e, and_false (allow o now l).1)
            refl)
]

-- Whatever calls of other origins come in between, the bucket of a named origin and the times at
-- which its calls are allowed are those of one sliding window fed with its own calls alone.
pub allow_all-independent :
    (origin : String) (calls : List (String × ℕ)) (max_burst window : ℕ)
    → origin ≢ ""
    → (
      bucket_of origin (allow_all origin calls (new_rate_limiter max_burst window, [])).0,
      (allow_all origin calls (new_rate_limiter max_burst window, [])).1,
    )
      ≡ admit_all
          (new_rate_limiter max_burst window).max_burst
          (new_rate_limiter max_burst window).window
          (times_of origin calls)
          ([], [])
unfolding stamps_or_empty lookup
allow_all-independent origin calls max_burst window named =
    allow_all-from origin calls (new_rate_limiter max_burst window) [] named
