-- ===== src/Examples.antt =====
-- Sample clans, nodes and requests, on which the theorems are applied.
mod Elections
mod Clans
mod Tools
mod Members
mod Rotations
mod Memories
mod Syncs
mod Requests
mod Agents
use minti.Base.{
  ℕ, String, Bool, true, false, Option, none, some, List, [], ◌∷◌, pos, ◌==◌, ◌≡◌, ◌≢◌, arith,
  eq_iff,
}
use minti.Clan.{RosterMember, Clan, zero_clan, Revocation, Revocations, Store}
use minti.Peers.{Registry, Member, Advertisement, Value, Fields, end, field, boolean, object}
use minti.Election.{State, Heartbeat}
use minti.Election.Select.{LocalCandidate}
use minti.Election.Engine.{Options, Node, Env}

abbrev pub entry : String → String → RosterMember
entry id state = record {
  member_id = id;
  pub_key_b64 = "key";
  state = state;
  admitted_at = 5;
  last_seen_at = 7;
}

abbrev pub clan : Clan
clan = record zero_clan {
  clan_id = "clan";
  roster = entry "ann" "active" ∷ entry "bob" "active" ∷ entry "eve" "admitted" ∷ [];
  current_orchestrator = "ann";
  current_term = 4;
}

abbrev pub revocation : String → Revocation
revocation id = record {
  member_id = id;
  pub_key_hash = "sha256:0";
  revoked_at = 9;
  revoked_by = "ann";
  reason = "lost";
}

abbrev pub some_revoked : Revocations
some_revoked = record { entries = revocation "zoe" ∷ revocation "kim" ∷ [] }

abbrev pub others_revoked : Revocations
others_revoked = record { entries = revocation "kim" ∷ revocation "lee" ∷ [] }

abbrev pub store : Store
store = record {
  clan_file = some clan;
  revocations_file = some some_revoked;
  clan_readable = true;
  clan_writable = true;
  revocations_readable = true;
  revocations_writable = true;
}

abbrev pub reasoner : String → ℕ → Advertisement
reasoner id generation = record {
  member_id = id;
  clan_id = "clan";
  term = 4;
  generation = generation;
  os = "linux";
  lan_address = "10.0.0.2:7946";
  hardware = end;
  reasoning_score = pos 10;
  system_score = pos 3;
  capabilities = field "reasoning" (object (field "enabled" (boolean true) end)) end;
  pinned_orchestrator = false;
  scribe_capable = true;
  pinned_scribe = false;
}

abbrev pub bob : Member
bob = record {
  member_id = "bob";
  address = "10.0.0.2:7946";
  discovered_via = "mdns";
  last_ad = 90;
  last_seen_at = 90;
  latest_ad = some (reasoner "bob" 7);
  ad_generation = 7;
  heartbeat_seen = true;
}

abbrev pub registry : Registry
registry = record {
  candidates = [];
  members = ("bob", bob) ∷ [];
  revocations = [];
  per_origin_rate = [];
  max_entries = 100;
}

abbrev pub ann : LocalCandidate
ann = record {
  member_id = "ann";
  reasoning_score = pos 20;
  reasoning_enabled = true;
  pinned = false;
  admitted_at = 5;
  scribe_capable = true;
  pinned_scribe = false;
}

abbrev pub leader : State
leader = record {
  self_id = "ann";
  started_at = 1;
  current_term = 4;
  current_orchestrator = "ann";
  lease_expires = 105;
  current_scribe = "";
  history = [];
  history_cap = 32;
}

abbrev pub node : Node
node = record {
  state = leader;
  store = store;
  registry = registry;
  heartbeats_sent = 0;
  elections_run = 0;
}

abbrev pub options : Options
options = record { self_id = "ann"; clan_id = "clan"; lease_duration = 8; failover_grace = 6 }

-- Everybody is healthy and answers 200, and nothing else happens meanwhile.
abbrev pub calm : Env
calm = record {
  now = 100;
  clock = 100;
  local_self = ann;
  healthy = true;
  memory_digest = none;
  sha256 = λ s. s;
  post = λ hb m. some 200;
  others = λ n. n;
  on_self_elected = λ st. st;
}

-- Bob's claim to the next term.
abbrev pub claim : Heartbeat
claim = record {
  member_id = "bob";
  clan_id = "clan";
  term = 5;
  lease_until = 500;
  reasoning_score = pos 10;
  active_roster = [];
  revocations_digest = "";
  roster_digest = "";
  memory_digest = "";
  scribe = "bob";
}

pub apart : (s t : String) → (s == t) ≡ false → s ≢ t
apart s t e p = ground (arith, eq_iff s t)
