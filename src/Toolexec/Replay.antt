-- ===== src/Toolexec/Replay.antt =====
-- src/cland/internal/toolexec/replay.go: the cache of the request ids that were seen.
use minti.Base.{
  ℕ, suc, ◌+◌, String, Bool, true, false, Option, none, some, List, [], ltb, leb, eqb,
  if◌then◌else◌, keep, length, lookup, insert,
}
use minti.Toolexec.{ReplayCache}

-- `NewReplayCache`; 0 stands for every size and every ttl that is not positive.
abbrev pub new_replay_cache : (max_size ttl : ℕ) → ReplayCache
new_replay_cache max_size ttl = record {
  entries = [];
  max_size = if eqb max_size 0 then 100000 else max_size;
  ttl = if eqb ttl 0 then 900000000000 else ttl;
  overflow = 0;
}

-- `ok && now.Before(exp)` for the entry of an id.
unfoldable pub is_remembered : (now : ℕ) → Option ℕ → Bool
is_remembered now none = false
is_remembered now (some exp) = ltb now exp

-- The sweep that a full cache starts with.
unfoldable pub sweep : (now : ℕ) → List (String × ℕ) → List (String × ℕ)
sweep now entries = keep (λ e. ltb now e.1) entries

unfoldable pub make_room : (now : ℕ) → ReplayCache → ReplayCache
make_room now c =
    if leb c.max_size (length c.entries) then record c { entries = sweep now c.entries } else c

unfoldable pub check_and_store : (request_id : String) (now : ℕ) → ReplayCache → ReplayCache × Bool
check_and_store request_id now c =
    if is_remembered now (lookup request_id c.entries)
    then (c, false)
    else (let d = make_room now c in
        if leb d.max_size (length d.entries)
        then (record d { overflow = suc d.overflow }, false)
        else (record d { entries = insert request_id (now + d.ttl) d.entries }, true))
