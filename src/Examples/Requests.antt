-- ===== src/Examples/Requests.antt =====
-- The theorems on requests and their routes, applied to a sample request and a sample clan.
use Prim.Native.String.{◌++◌ as append}
use minti.Base.{
  ℕ, ◌+◌, String, true, some, none, [], ◌∷◌, ◌≡◌, refl, arith, pos, ◌≤◌, ◌<◌, inr, lookup, insert,
  ◌==◌, if◌then◌else◌,
}
use minti.Toolexec.{KeyProvider}
use minti.Transport.{
  Codec, Request, canonical, compute_mac, equal_bytes, verify_mac, stamp_request, is_skewed,
  mac_matches, refuse_early,
}
use minti.Transport.Nonces.{new_nonce_cache, check_and_store, bucket_of, sweep, evict, push}
use minti.Transport.Replays.{Call, run, calls_of, new_nonce_cache-IsValid}
use minti.Transport.Guarding.{Guard, Clock, authenticate, admit, accepted_once, accepted_as_another}
use minti.Transport.Stamping.{IsReadable, stamp-passes}
use minti.Router
use minti.Router.Routes.{Network}
use minti.Examples.{registry, bob}

-- The MAC is the text itself with the key in front, and every time is written as "5".
abbrev codec : Codec
codec = record {
  crypto = record {
    hmac = λ key message. append key message;
    sha256 = λ s. s;
    hex_encode = λ s. s;
    hex_decode = λ s. some s;
    to_lower = λ s. s;
    format_int = λ n. "5";
  };
  to_upper = λ s. s;
  parse_int = λ s. some (pos 5);
}

abbrev keys : KeyProvider
keys = record { current = "k"; grace = none; grace_expiry = 0 }

abbrev later_keys : KeyProvider
later_keys = record { current = "new"; grace = some "k"; grace_expiry = 900 }

abbrev plain : Request
plain = record {
  method = "GET";
  path = "/clan/roster";
  body = "";
  member = "";
  timestamp = "";
  nonce = "";
  mac = "";
}

abbrev stamped : Request
stamped = record plain {
  member = "bob";
  timestamp = "5";
  nonce = "n1";
  mac = "kGET\n/clan/roster\n\n5\nn1";
}

abbrev guard : Guard
guard = record { nonces = new_nonce_cache 0 0; denials = [] }

-- A request takes 20 nanoseconds from its timestamp to its nonce.
abbrev at : ℕ → Clock
at now = record { skew_at = now; grace_at = now + 10; nonce_at = now + 20 }

accepted : (authenticate codec keys (at 6000000) stamped guard).1 ≡ some "bob"
unfolding authenticate admit refuse_early is_skewed mac_matches verify_mac equal_bytes compute_mac
    canonical check_and_store bucket_of new_nonce_cache sweep push evict lookup insert
accepted = refl

cache_ttl : 120000000000 + 20 ≤ guard.nonces.ttl
unfolding new_nonce_cache
cache_ttl = ground arith

abbrev other_call : Call
other_call = record { member = "eve"; nonce = "n1"; now = 7000000 }

no_call : calls_of "bob" (other_call ∷ []) < guard.nonces.cap_per_member
unfolding calls_of new_nonce_cache
no_call = ground arith

abbrev later : Guard
later = record {
  nonces = run (other_call ∷ []) (authenticate codec keys (at 6000000) stamped guard).0.nonces;
  denials = [];
}

accepted_once_example : (authenticate codec later_keys (at 8000000) stamped later).1 ≡ none
accepted_once_example =
    accepted_once codec keys later_keys (at 6000000) (at 8000000) 20 stamped guard "bob"
      (other_call ∷ []) later (new_nonce_cache-IsValid 0 0) cache_ttl (ground arith) (ground arith)
      accepted ((λ p. ground arith), tt) no_call refl

eve_unused : (check_and_store "eve" "n1" 6000020 guard.nonces).1 ≡ true
unfolding check_and_store bucket_of new_nonce_cache sweep push evict lookup insert
eve_unused = refl

accepted_as_another_example :
    (authenticate codec keys (at 6000000) (record stamped { member = "eve" }) guard).1 ≡ some "eve"
accepted_as_another_example =
    accepted_as_another codec keys (at 6000000) stamped guard guard "bob" "eve" accepted refl refl
      eve_unused

readable : IsReadable codec 5 (compute_mac codec "k" "GET" "/clan/roster" "" (pos 5) "n1")
unfolding compute_mac canonical
readable = record {
  parses = refl;
  written = refl;
  lower = refl;
  bytes = "kGET\n/clan/roster\n\n5\nn1";
  decodes = refl;
  present = refl;
}

-- The server has rotated its key already.
stamp-passes_example :
    refuse_early codec later_keys 800 810 (stamp_request codec keys "bob" plain 5 "n1") ≡ none
stamp-passes_example =
    stamp-passes codec keys later_keys "bob" plain 5 800 810 "n1" readable refl refl (ground arith)
      (ground arith) (ground arith) (inr refl)

-- Ann takes Bob for the Orchestrator, and Bob `orchestrator`; each has the other in its registry.
abbrev network : (orchestrator : String) → Network
network orchestrator = record {
  router = λ id. record {
    self_id = id;
    runtime_base_url = "http://127.0.0.1:11434";
    requests = 0;
    self_routes = 0;
    peer_proxies = 0;
    rejects_non_orch = 0;
    audit = [];
  };
  current_orchestrator = λ id. if id == "ann" then "bob" else orchestrator;
  registry = λ id. if id == "ann" then registry else record registry {
    members = ("ann", record bob { member_id = "ann"; address = "10.0.0.3:7946" }) ∷ [];
  };
  runtime = λ id up. some (record { status = 200; headers = []; body = id });
  builds = λ url. true;
  dial = λ url. if url == "https://10.0.0.2:7946/v1" then ("bob", "/v1") else ("ann", "/v1");
}

abbrev chat : Router.Request
chat = record { method = "POST"; path = "/v1"; headers = []; body = "hi" }
