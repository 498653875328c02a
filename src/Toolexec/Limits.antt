-- ===== src/Toolexec/Limits.antt =====
-- src/cland/internal/toolexec/ratelimit.go: a window of stamps for each origin.
use minti.Base.{
  ℕ, String, Bool, true, Option, none, some, List, [], ◌==◌, eqb, if◌then◌else◌, length, lookup,
  insert,
}
use minti.Window.{admit, prune}
use minti.Toolexec.{RateLimiter}

-- 0 stands for every argument that is not positive.
abbrev pub new_rate_limiter : (max_burst window : ℕ) → RateLimiter
new_rate_limiter max_burst window = record {
  buckets = [];
  max_burst = if eqb max_burst 0 then 10 else max_burst;
  window = if eqb window 0 then 60000000000 else window;
}

unfoldable pub stamps_or_empty : Option (List ℕ) → List ℕ
stamps_or_empty none = []
stamps_or_empty (some stamps) = stamps

abbrev pub bucket_of : String → RateLimiter → List ℕ
bucket_of origin l = stamps_or_empty (lookup origin l.buckets)

unfoldable pub allow : (origin : String) (now : ℕ) → RateLimiter → RateLimiter × Bool
allow origin now l =
    if origin == ""
    then (l, true)
    else (let (stamps, admitted) = admit l.max_burst l.window now (bucket_of origin l) in
        (record l { buckets = insert origin stamps l.buckets }, admitted))

abbrev pub count_in_window : (origin : String) (now : ℕ) → RateLimiter → ℕ
count_in_window origin now l = length (prune l.window now (bucket_of origin l))
